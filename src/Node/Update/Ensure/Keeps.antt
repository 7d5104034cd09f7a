-- ===== src/Node/Update/Ensure/Keeps.antt =====
-- What the reads and patches of the API server keep, EnsureLabels keeps.
use gpuid.Base.{
  ℕ, zero, suc, Bool, true, false, List, Option, none, some, Result, ok, err, Text, Bool-cases, inl,
  inr,
}
use gpuid.Gpu.Serials.{Serials}
use gpuid.Node.Labels.{Labels, calculate_gpu_labels}
use gpuid.Node.Update.{
  Patch, ApiError, Updater, needs_label_update, patch_node, update_node, attempt_label_update,
  try_update,
}
use gpuid.Node.Update.Backoff.{WaitError, Backoff, backoff_config, after_check, poll}
use gpuid.Node.Update.Ensure.{ensure_labels}

module _ {W : Type 0} (P : W → Type 0) (labeler : Updater W)
    (get_keeps : (node : Text) (w : W) → P w → P (labeler.get_node node w).1)
    (patch_keeps : (node : Text) (p : Patch) (w : W)
      → P w
      → P (labeler.patch_node_labels node p w).1)
    (node : Text) where
  update_node-keeps :
      (desired : Labels) (r : Result ApiError (Option Labels)) (w : W)
      → P w
      → P (update_node labeler node desired r w).1
  unfolding update_node patch_node
  update_node-keeps desired (err e) w h = h
  update_node-keeps desired (ok none) w h = h
  update_node-keeps desired (ok (some current)) w h =
      elim (Bool-cases (needs_label_update current desired)) [
        | inl e ↦ rw e (patch_keeps node _ w h)
        | inr e ↦ rw e h
      ]

  try_update-keeps : (desired : Labels) (w : W) → P w → P (try_update labeler node desired w).1
  unfolding try_update attempt_label_update
  try_update-keeps desired w h = update_node-keeps desired _ _ (get_keeps node w h)

  after_check-keeps :
      (rest : W → Option WaitError × W) (r : Result ApiError Bool × W)
      → P r.1
      → ((v : W) → P v → P (rest v).1)
      → P (after_check rest r).1
  unfolding after_check
  after_check-keeps rest (ok true, w) h later = h
  after_check-keeps rest (ok false, w) h later = later w h
  after_check-keeps rest (err e, w) h later = h

  poll-keeps :
      (n : ℕ) (desired : Labels) (w : W) → P w → P (poll n (try_update labeler node desired) w).1
  unfolding poll
  poll-keeps zero desired w h = h
  poll-keeps (suc n) desired w h =
      after_check-keeps _ _ (try_update-keeps desired w h) (poll-keeps n desired)

  pub ensure_labels-keeps :
      (backoff : Backoff W) (serials : List (Option Serials)) (w : W)
      → P w
      → P (ensure_labels labeler backoff node serials w).1
  unfolding ensure_labels
  ensure_labels-keeps backoff serials w h =
      let desired = calculate_gpu_labels serials in
      let (n, _, _, run) = backoff.checks backoff_config (try_update labeler node desired) w in
      rw run (poll-keeps n desired w h)
