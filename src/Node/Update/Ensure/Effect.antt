-- ===== src/Node/Update/Ensure/Effect.antt =====
-- What EnsureLabels leaves on the node.
use gpuid.Base.{
  ℕ, zero, suc, ◌≡◌, refl, sym, ◌∙◌, subst, Bool, true, false, List, arith, if◌then◌else◌, Option,
  none, some, Result, ok, err, Text, has_prefix, lookup, inl, inr, Bool-cases, Option-cases,
}
use gpuid.Gpu.Serials.{Serials}
use gpuid.Node.Labels.{Labels, label_ns, calculate_gpu_labels}
use gpuid.Node.Labels.Values.{AreGoodLabels, calculate_gpu_labels-AreGoodLabels}
use gpuid.Node.Update.{
  Patch, patch_labels, needs_label_update, ApiError, forbidden, invalid, other, Updater, patch_node,
  update_node, attempt_label_update, retried, try_update,
}
use gpuid.Node.Update.Needs.{needs_label_update_iff}
use gpuid.Node.Update.Patches.{merge_label, merge-patch_labels}
use gpuid.Node.Update.Backoff.{WaitError, backoff_config, after_check, poll, Backoff}
use gpuid.Node.Update.Ensure.{ensure_labels, IsApiServer}

retried-ok : (r : Result ApiError Bool) → retried r ≡ ok true → r ≡ ok true
unfolding retried
retried-ok (ok b) h = h
retried-ok (err forbidden) h = cc
retried-ok (err invalid) h = cc
retried-ok (err other) h = cc

module _ {W : Type 0} (labeler : Updater W) (server : IsApiServer labeler) (node : Text)
    (desired : Labels) (good : AreGoodLabels desired) where
  open server use {labels, get_reads, get_keeps, patch_merges, patch_fails}

  -- The labels outside the namespace of gpuid are what they were.
  abbrev KeepsOthers : W → W → Type 0
  KeepsOthers w w' = (k : Text) → has_prefix k label_ns ≡ false → labels w' node k ≡ labels w node k

  -- The labels in the namespace of gpuid are the desired ones.
  abbrev HasDesired : W → Type 0
  HasDesired w = (k : Text) → has_prefix k label_ns ≡ true → labels w node k ≡ lookup k desired

  -- What an attempt may do, and what it has done if it succeeds.
  abbrev IsSafe : W → Result ApiError Bool × W → Type 0
  IsSafe w r = KeepsOthers w r.1 × (r.0 ≡ ok true → HasDesired r.1)

  merged :
      (w : W) (current : Labels) (k : Text)
      → lookup k current ≡ labels w node k
      → merge_label (lookup k (patch_labels current desired)) (labels w node k)
        ≡ (if has_prefix k label_ns then lookup k desired else labels w node k)
  merged w current k reads =
      subst
        (λ old.
          merge_label (lookup k (patch_labels current desired)) old
          ≡ (if has_prefix k label_ns then lookup k desired else old))
        reads (merge-patch_labels k current desired good)

  patch_node-IsSafe :
      (w : W) (current : Labels)
      → ((k : Text) → lookup k current ≡ labels w node k)
      → IsSafe w (patch_node labeler node current desired w)
  unfolding patch_node
  patch_node-IsSafe w current reads = elim (Option-cases (labeler.patch_node_labels node p w).0) [
    | inl done ↦ (
      λ k apart. patch_merges node p w done k ∙ ground (arith, merged w current k (reads k), apart),
      λ _ k own. patch_merges node p w done k ∙ ground (arith, merged w current k (reads k), own),
    )
    | inr (e, failure) ↦ (
      λ k apart. elim (patch_fails node p w e failure) [
        | inl kept ↦ kept k
        | inr merges ↦ merges k ∙ ground (arith, merged w current k (reads k), apart)
      ],
      λ answer.
          let bad : ◌≡◌ {A = Result ApiError Bool} (err e) (ok true) = rw failure at answer in
          λ k own. cc bad,
    )
  ]
    where
      p : Patch
      p = patch_labels current desired

  update_node-IsSafe :
      (w : W) (r : Result ApiError (Option Labels))
      → ((l : Labels) → r ≡ ok (some l) → (k : Text) → lookup k l ≡ labels w node k)
      → IsSafe w (update_node labeler node desired r w)
  unfolding update_node
  update_node-IsSafe w (err e) reads = (λ k _. refl, λ h. cc h)
  update_node-IsSafe w (ok none) reads = (λ k _. refl, λ h. cc h)
  update_node-IsSafe w (ok (some current)) reads =
      elim (Bool-cases (needs_label_update current desired)) [
        | inl e ↦ rw e (patch_node-IsSafe w current (reads current refl))
        | inr e ↦ rw e (
          λ k _. refl,
          λ _ k own.
              sym (reads current refl k) ∙ (needs_label_update_iff current desired good).0 e k own,
        )
      ]

  attempt-IsSafe : (w : W) → IsSafe w (attempt_label_update labeler node desired w)
  unfolding attempt_label_update
  attempt-IsSafe w =
      let r = labeler.get_node node w in
      let safe =
        update_node-IsSafe r.1 r.0 (λ l e k. get_reads node w l e k ∙ sym (get_keeps node w k)) in
      (λ k apart. safe.0 k apart ∙ get_keeps node w k, safe.1)

  try_update-IsSafe : (w : W) → IsSafe w (try_update labeler node desired w)
  unfolding try_update
  try_update-IsSafe w =
      let safe = attempt-IsSafe w in
      (safe.0, λ h. safe.1 (retried-ok (attempt_label_update labeler node desired w).0 h))

  -- The same of the whole loop: no error means success.
  abbrev IsDone : W → Option WaitError × W → Type 0
  IsDone w r = KeepsOthers w r.1 × (r.0 ≡ none → HasDesired r.1)

  after_check-IsDone :
      (rest : W → Option WaitError × W) (w : W) (r : Result ApiError Bool × W)
      → IsSafe w r
      → ((v : W) → IsDone v (rest v))
      → IsDone w (after_check rest r)
  unfolding after_check
  after_check-IsDone rest w (ok true, w') safe later = (safe.0, λ _. safe.1 refl)
  after_check-IsDone rest w (ok false, w') safe later =
      (λ k apart. (later w').0 k apart ∙ safe.0 k apart, (later w').1)
  after_check-IsDone rest w (err e, w') safe later = (safe.0, λ h. absurd (cc h))

  poll-IsDone : (n : ℕ) (w : W) → IsDone w (poll n (try_update labeler node desired) w)
  unfolding poll
  poll-IsDone zero w = (λ k _. refl, λ h. absurd (cc h))
  poll-IsDone (suc n) w =
      after_check-IsDone (poll n (try_update labeler node desired)) w _ (try_update-IsSafe w)
        (poll-IsDone n)

module _ {W : Type 0} (labeler : Updater W) (server : IsApiServer labeler) (backoff : Backoff W)
    (node : Text) (serials : List (Option Serials)) (w : W) where
  ensure_labels-IsDone :
      IsDone labeler server node
        (calculate_gpu_labels serials)
        (calculate_gpu_labels-AreGoodLabels serials)
        w
        (ensure_labels labeler backoff node serials w)
  unfolding ensure_labels
  ensure_labels-IsDone =
      let desired = calculate_gpu_labels serials in
      let (n, _, _, run) = backoff.checks backoff_config (try_update labeler node desired) w in
      rw run
        (poll-IsDone labeler server node desired (calculate_gpu_labels-AreGoodLabels serials) n w)

  -- If EnsureLabels reports no error, the labels of the node in the namespace of gpuid are exactly
  -- those calculated from the serials. Assumed: the API server reads and merges as documented,
  -- nobody else writes, and the retry loop checks its condition as documented.
  pub ensure_labels-desired :
      (ensure_labels labeler backoff node serials w).0 ≡ none
      → (k : Text) → has_prefix k label_ns ≡ true
      → server.labels (ensure_labels labeler backoff node serials w).1 node k
        ≡ lookup k (calculate_gpu_labels serials)
  ensure_labels-desired = ensure_labels-IsDone.1

  -- EnsureLabels never changes a label whose key does not begin with the text gpuid.github.com,
  -- whatever fails on the way, on an API server that reads and merges as documented, with nobody
  -- else writing. A key such as gpuid.github.community/x begins with that text.
  pub ensure_labels-others :
      (k : Text)
      → has_prefix k label_ns ≡ false
      → server.labels (ensure_labels labeler backoff node serials w).1 node k
        ≡ server.labels w node k
  ensure_labels-others = ensure_labels-IsDone.0
