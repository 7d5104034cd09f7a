-- ===== src/Examples/Update.antt =====
-- The update of a node with one stale label, on an API server that has one node.
use gpuid.Base.{
  text_eq, set, text_ltb, sort, insert, digits, decimal, trim_space, trim_start, trim_end, is_space,
  ◌≡◌, ◌↔◌, refl, arith, true, false, List, [], ◌∷◌, Option, none, some, ok, err, Text, codes,
  has_prefix, lookup,
}
use gpuid.Node.Sanitize.{sanitize_label_value, cleaned, label_value_regex, ends_well}
use gpuid.Node.Labels.{
  Labels, label_ns, less, label_gpus, label_unit, label_units, label_count, calculate_gpu_labels,
}
use gpuid.Node.Labels.Values.{calculate_gpu_labels-AreGoodLabels}
use gpuid.Node.Update.{
  Patch, other, Updater, needs_label_update, patch_labels, try_update, put_desired, null_stale,
  retried, patch_node, update_node, attempt_label_update,
}
use gpuid.Node.Update.Needs.{AreSynced, needs_label_update_iff}
use gpuid.Node.Update.Patches.{merge_label}
use gpuid.Node.Update.Backoff.{after_check, Backoff, poll}
use gpuid.Node.Update.Ensure.{ensure_labels, IsApiServer}
use gpuid.Node.Update.Ensure.Effect.{ensure_labels-desired, ensure_labels-others}
use gpuid.Node.Update.Ensure.Retries.{after, AreRetried, ensure_labels_retries}
use gpuid.Examples.Labels.{two}

-- A cluster: the labels of every node, and the patches that were applied.
abbrev pub World : Type 0
World = Labels × List Patch

-- A label after the patches, the last one first.
abbrev pub label_after : Text → Labels → List Patch → Option Text
label_after k l [] = lookup k l
label_after k l (p ∷ ps) = merge_label (lookup k p) (label_after k l ps)

-- Reads are answered while no patch was applied, and patches always.
abbrev pub labeler : Updater World
labeler = record {
  get_node = λ node w. (elim w.1 [ [] ↦ ok (some w.0) | p ∷ ps ↦ err other ], w);
  patch_node_labels = λ node p w. (none, (w.0, p ∷ w.1));
}

pub server : IsApiServer labeler
server = record {
  labels = λ w node k. label_after k w.0 w.1;
  get_reads = reads;
  get_keeps = λ node w k. refl;
  patch_merges = λ node p w h k. refl;
  patch_fails = λ node p w e h. cc h;
}
  where
    reads :
        (node : Text) (w : World) (l : Labels)
        → (labeler.get_node node w).0 ≡ ok (some l)
        → (k : Text) → lookup k l ≡ label_after k w.0 w.1
    reads node (m, []) l h k = ground arith
    reads node (m, p ∷ ps) l h k = cc h

abbrev pub backoff : Backoff World
backoff = record {
  exponential_backoff = λ c condition w. poll c.steps condition w;
  checks = λ c condition w. (c.steps, omega arith, λ h. h, refl);
  checks_all = λ c condition w h. refl;
}

-- The label of another program, and one of gpuid that is stale.
abbrev stale : Labels
stale = (codes "zone", codes "a") ∷ (codes "gpuid.github.com/gpu-7", codes "g7") ∷ []

abbrev pub start : World
start = (stale, [])

update : Unit {0}
unfolding lookup set has_prefix text_eq text_ltb sort insert digits decimal trim_space trim_start
    trim_end is_space sanitize_label_value cleaned label_value_regex ends_well less label_gpus
    label_unit label_units label_count calculate_gpu_labels needs_label_update put_desired
    null_stale patch_labels retried patch_node update_node attempt_label_update try_update
    after_check poll ensure_labels
update = tt

gpuid_prefix : has_prefix (codes "gpuid.github.com/gpu-7") label_ns ≡ true
unfolding update
gpuid_prefix = refl

zone_prefix : has_prefix (codes "zone") label_ns ≡ false
unfolding update
zone_prefix = refl

needs_label_update_iff_example :
    (needs_label_update stale (calculate_gpu_labels two) ≡ false)
    ↔ AreSynced stale (calculate_gpu_labels two)
needs_label_update_iff_example =
    needs_label_update_iff stale (calculate_gpu_labels two) (calculate_gpu_labels-AreGoodLabels two)

first_done : (ensure_labels labeler backoff (codes "n1") two start).0 ≡ none
unfolding update
first_done = refl

ensure_labels-desired_example :
    server.labels
      (ensure_labels labeler backoff (codes "n1") two start).1
      (codes "n1")
      (codes "gpuid.github.com/gpu-7")
    ≡ lookup (codes "gpuid.github.com/gpu-7") (calculate_gpu_labels two)
ensure_labels-desired_example =
    ensure_labels-desired labeler server backoff (codes "n1") two start first_done
      (codes "gpuid.github.com/gpu-7") gpuid_prefix

ensure_labels-others_example :
    server.labels
      (ensure_labels labeler backoff (codes "n1") two start).1
      (codes "n1")
      (codes "zone")
    ≡ server.labels start (codes "n1") (codes "zone")
ensure_labels-others_example =
    ensure_labels-others labeler server backoff (codes "n1") two start (codes "zone") zone_prefix

try_update_done : (try_update labeler (codes "n1") (calculate_gpu_labels two) start).0 ≡ ok true
unfolding update
try_update_done = refl

abbrev synced : Labels
synced = calculate_gpu_labels two

-- A server that cannot be reached once.
abbrev flaky : Updater World
flaky = record {
  get_node = λ node w. elim w.1 [ [] ↦ (err other, (w.0, [] ∷ [])) | p ∷ ps ↦ (ok (some w.0), w) ];
  patch_node_labels = λ node p w. (none, (w.0, p ∷ w.1));
}

flaky_retried : AreRetried (try_update flaky (codes "n1") (calculate_gpu_labels two)) 1 start
unfolding update
flaky_retried = (refl, tt)

flaky_done :
    (try_update flaky
      (codes "n1")
      (calculate_gpu_labels two)
      (after (try_update flaky (codes "n1") (calculate_gpu_labels two)) 1 start)).0
    ≡ ok true
unfolding update
flaky_done = refl

ensure_labels_retries_example : ensure_labels flaky backoff (codes "n1") two start ≡ (
  none,
  (try_update flaky
      (codes "n1")
      (calculate_gpu_labels two)
      (after (try_update flaky (codes "n1") (calculate_gpu_labels two)) 1 start)).1,
)
ensure_labels_retries_example =
    ensure_labels_retries flaky backoff (codes "n1") two start 1 (omega arith) flaky_retried
      flaky_done
