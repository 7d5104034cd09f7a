-- ===== src/Node/Update/Ensure/Attempts.antt =====
-- How often EnsureLabels tries.
use gpuid.Base.{
  ℕ, zero, suc, ◌<◌, ◌≡◌, refl, ap, ◌∙◌, Bool, true, false, List, arith, Option, none, some, Result,
  ok, err, Text,
}
use gpuid.Gpu.Serials.{Serials}
use gpuid.Node.Labels.{Labels, calculate_gpu_labels}
use gpuid.Node.Labels.Values.{calculate_gpu_labels-AreGoodLabels}
use gpuid.Node.Update.{
  needs_label_update, ApiError, Updater, update_node, attempt_label_update, retried, try_update,
}
use gpuid.Node.Update.Needs.{AreSynced, needs_label_update_iff}
use gpuid.Node.Update.Backoff.{WaitError, failed, backoff_config, after_check, poll, Backoff}
use gpuid.Node.Update.Ensure.{ensure_labels}

after_check-ok :
    {W : Type 0} (rest : W → Option WaitError × W) (r : Result ApiError Bool × W)
    → r.0 ≡ ok true
    → after_check rest r ≡ (none, r.1)
unfolding after_check
after_check-ok rest (ok true, w) h = refl
after_check-ok rest (ok false, w) h = cc
after_check-ok rest (err e, w) h = cc

after_check-err :
    {W : Type 0} (rest : W → Option WaitError × W) (r : Result ApiError Bool × W) (e : ApiError)
    → r.0 ≡ err e
    → after_check rest r ≡ (some (failed e), r.1)
unfolding after_check
after_check-err rest (ok true, w) e h = cc
after_check-err rest (ok false, w) e h = cc
after_check-err rest (err x, w) e h = cc

module _ {W : Type 0} (condition : W → Result ApiError Bool × W) where
  pub poll-true :
      (n : ℕ) (w : W)
      → 0 < n
      → (condition w).0 ≡ ok true
      → poll n condition w ≡ (none, (condition w).1)
  unfolding poll
  poll-true zero w h e = absurd (omega arith)
  poll-true (suc n) w h e = after_check-ok (poll n condition) (condition w) e

  poll-err :
      (n : ℕ) (w : W) (e : ApiError)
      → 0 < n
      → (condition w).0 ≡ err e
      → poll n condition w ≡ (some (failed e), (condition w).1)
  unfolding poll
  poll-err zero w e h q = absurd (omega arith)
  poll-err (suc n) w e h q = after_check-err (poll n condition) (condition w) e q

module _ {W : Type 0} (labeler : Updater W) (backoff : Backoff W) (node : Text)
    (serials : List (Option Serials)) (w : W) where
  -- A first attempt that succeeds is the only one.
  pub ensure_labels-first :
      (try_update labeler node (calculate_gpu_labels serials) w).0 ≡ ok true
      → ensure_labels labeler backoff node serials w
        ≡ (none, (try_update labeler node (calculate_gpu_labels serials) w).1)
  unfolding ensure_labels
  ensure_labels-first h =
      let condition = try_update labeler node (calculate_gpu_labels serials) in
      let (n, _, some_check, run) = backoff.checks backoff_config condition w in
      run ∙ poll-true condition n w (some_check (omega arith)) h

  -- If the first read or patch is forbidden or invalid, EnsureLabels reports that error, and there is
  -- no other attempt.
  pub ensure_labels_refused :
      (e : ApiError)
      → (try_update labeler node (calculate_gpu_labels serials) w).0 ≡ err e
      → ensure_labels labeler backoff node serials w
        ≡ (some (failed e), (try_update labeler node (calculate_gpu_labels serials) w).1)
  unfolding ensure_labels
  ensure_labels_refused e h =
      let condition = try_update labeler node (calculate_gpu_labels serials) in
      let (n, _, some_check, run) = backoff.checks backoff_config condition w in
      run ∙ poll-err condition n w e (some_check (omega arith)) h

module _ {W : Type 0} (labeler : Updater W) (node : Text) (desired : Labels) where
  try_update_synced :
      (w : W) (current : Labels)
      → (labeler.get_node node w).0 ≡ ok (some current)
      → needs_label_update current desired ≡ false
      → try_update labeler node desired w ≡ (ok true, (labeler.get_node node w).1)
  unfolding try_update attempt_label_update update_node retried
  try_update_synced w current read h = rw (read, update_node, h) refl

  try_update_get_err :
      (w : W) (e : ApiError)
      → (labeler.get_node node w).0 ≡ err e
      → try_update labeler node desired w ≡ (retried (err e), (labeler.get_node node w).1)
  unfolding try_update attempt_label_update update_node
  try_update_get_err w e read = rw (read, update_node) refl

-- On a node that has the desired labels EnsureLabels only reads: it reports success after one read,
-- and the cluster is as that read leaves it.
pub ensure_labels_idle :
    {W : Type 0} (labeler : Updater W) (backoff : Backoff W) (node : Text)
    (serials : List (Option Serials)) (w : W) (current : Labels)
    → (labeler.get_node node w).0 ≡ ok (some current)
    → AreSynced current (calculate_gpu_labels serials)
    → ensure_labels labeler backoff node serials w ≡ (none, (labeler.get_node node w).1)
ensure_labels_idle labeler backoff node serials w current read synced =
    let desired = calculate_gpu_labels serials in
    let idle = try_update_synced labeler node desired w current read (
      (needs_label_update_iff current desired (calculate_gpu_labels-AreGoodLabels serials)).1
        synced) in
    ensure_labels-first labeler backoff node serials w (ap (λ r. r.0) idle)
    ∙ ap (λ r. (none, r.1)) idle
