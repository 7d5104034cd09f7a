-- ===== src/Node/Update/Ensure.antt =====
-- EnsureLabels of pkg/node/label.go, and what its caller assumes of the API server.
pub mod Effect
pub mod Attempts
pub mod Retries
pub mod Keeps
use gpuid.Base.{◌≡◌, ok, some, none, Option, List, Text, lookup, ◌⊎◌}
use gpuid.Gpu.Serials.{Serials}
use gpuid.Node.Labels.{Labels, calculate_gpu_labels}
use gpuid.Node.Update.{Patch, ApiError, Updater, try_update}
use gpuid.Node.Update.Patches.{merge_label}
use gpuid.Node.Update.Backoff.{WaitError, backoff_config, Backoff}

unfoldable pub ensure_labels :
    {W : Type 0} → Updater W → Backoff W → Text → List (Option Serials) → W → Option WaitError × W
ensure_labels labeler backoff node serials =
    backoff.exponential_backoff backoff_config
      (try_update labeler node (calculate_gpu_labels serials))

-- What the API server is documented to do, seen through the labels that a node has. A read answers
-- with the labels. A patch that succeeds is a strategic merge; one that fails may have been applied.
-- Nobody else writes the labels meanwhile.
pub record IsApiServer {W : Type 0} (labeler : Updater W) : Type 0 where
  pub labels : W → Text → Text → Option Text
  pub get_reads :
      (node : Text) (w : W) (l : Labels)
      → (labeler.get_node node w).0 ≡ ok (some l)
      → (k : Text) → lookup k l ≡ labels w node k
  pub get_keeps :
      (node : Text) (w : W) (k : Text) → labels (labeler.get_node node w).1 node k ≡ labels w node k
  pub patch_merges :
      (node : Text) (p : Patch) (w : W)
      → (labeler.patch_node_labels node p w).0 ≡ none
      → (k : Text)
      → labels (labeler.patch_node_labels node p w).1 node k
        ≡ merge_label (lookup k p) (labels w node k)
  pub patch_fails :
      (node : Text) (p : Patch) (w : W) (e : ApiError)
      → (labeler.patch_node_labels node p w).0 ≡ some e
      → ((k : Text) → labels (labeler.patch_node_labels node p w).1 node k ≡ labels w node k)
        ⊎ ((k : Text)
            → labels (labeler.patch_node_labels node p w).1 node k
              ≡ merge_label (lookup k p) (labels w node k))
