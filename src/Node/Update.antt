-- ===== src/Node/Update.antt =====
-- needsLabelUpdate, attemptLabelUpdate and EnsureLabels of pkg/node/label.go. The API server behind
-- Updater and the retry loop of wait.ExponentialBackoff are arguments.
pub mod Needs
pub mod Patches
pub mod Backoff
pub mod Ensure
pub mod Labeler
use gpuid.Base.{
  ℕ, Bool, true, false, not, ◌&&◌, ◌||◌, List, [], ◌∷◌, if◌then◌else◌, Option, none, some, Result,
  ok, err, exists, Text, text_eq, has_prefix, lookup, set, has_key,
}
use gpuid.Gpu.Serials.{Serials}
use gpuid.Node.Labels.{Labels, label_ns, calculate_gpu_labels}

-- current[k], the empty text where there is none
abbrev pub value_of : Text → Labels → Text
value_of k labels = elim (lookup k labels) [ none ↦ [] | some v ↦ v ]

-- A label of gpuid that is no longer desired.
abbrev pub is_stale : Labels → Text → Bool
is_stale desired k = has_prefix k label_ns && not (has_key k desired)

unfoldable pub needs_label_update : Labels → Labels → Bool
needs_label_update current desired =
    exists (λ (e : Text × Text). is_stale desired e.0) current
    || exists (λ (e : Text × Text). not (text_eq (value_of e.0 current) e.1)) desired

-- The labels of a strategic merge patch; `none` is null, which deletes.
abbrev pub Patch : Type 0
Patch = List (Text × Option Text)

unfoldable pub put_desired : Labels → Patch → Patch
put_desired [] patch = patch
put_desired ((k, v) ∷ labels) patch = put_desired labels (set k (some v) patch)

unfoldable pub null_stale : Labels → Labels → Patch → Patch
null_stale desired [] patch = patch
null_stale desired ((k, v) ∷ current) patch =
    null_stale desired current (if is_stale desired k then set k none patch else patch)

unfoldable pub patch_labels : Labels → Labels → Patch
patch_labels current desired = null_stale desired current (put_desired desired [])

-- What errors.IsForbidden and errors.IsInvalid tell of an error, wrapped or not.
pub data ApiError : Type 0 where
  forbidden invalid other : ApiError

-- Updater, over the state W of the cluster. A nil node is `none`.
pub record Updater (W : Type 0) : Type 0 where
  pub get_node : Text → W → Result ApiError (Option Labels) × W
  pub patch_node_labels : Text → Patch → W → Option ApiError × W

-- The condition that is retried: only forbidden and invalid end the retries.
unfoldable pub retried : Result ApiError Bool → Result ApiError Bool
retried (ok success) = ok success
retried (err forbidden) = err forbidden
retried (err invalid) = err invalid
retried (err other) = ok false

module _ {W : Type 0} (labeler : Updater W) where
  unfoldable pub patch_node : Text → Labels → Labels → W → Result ApiError Bool × W
  patch_node node current desired w =
      let (e, w') = labeler.patch_node_labels node (patch_labels current desired) w in
      (elim e [ none ↦ ok true | some x ↦ err x ], w')

  unfoldable pub update_node :
      Text → Labels → Result ApiError (Option Labels) → W → Result ApiError Bool × W
  update_node node desired (err e) w = (err e, w)
  update_node node desired (ok none) w = (err other, w)
  update_node node desired (ok (some current)) w =
      if not (needs_label_update current desired)
      then (ok true, w)
      else patch_node node current desired w

  unfoldable pub attempt_label_update : Text → Labels → W → Result ApiError Bool × W
  attempt_label_update node desired w =
      let (r, w') = labeler.get_node node w in update_node node desired r w'

  unfoldable pub try_update : Text → Labels → W → Result ApiError Bool × W
  unfolding retried
  try_update node desired w = let (r, w') = attempt_label_update node desired w in (retried r, w')
