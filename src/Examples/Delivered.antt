-- ===== src/Examples/Delivered.antt =====
-- A node with a stale label that is labelled anew, and its readings exported.
use gpuid.Base.{
  ◌≢◌, subst, refl, arith, false, some, ok, codes, to_lower, ◌≡◌, refl, [], some, codes, is_blank,
  lookup, set, trim_space, trim_start, trim_end, is_space, sort, insert, text_eq, text_ltb,
  split_on, trim_prefix, strip_prefix, has_prefix, decimal, digits,
}
use gpuid.Gpu.Reading.{validate}
use gpuid.Gpu.Grouping.{
  make_unit, add_serial, group_gpu, group_gpus, to_serials, get_serial_numbers,
}
use gpuid.Node.Sanitize.{sanitize_label_value, cleaned, label_value_regex, ends_well}
use gpuid.Node.Labels.{less, label_gpus, label_unit, label_units, label_count, calculate_gpu_labels}
use gpuid.Node.Update.{
  needs_label_update, put_desired, null_stale, patch_labels, retried, patch_node, update_node,
  attempt_label_update, try_update,
}
use gpuid.Node.Update.Backoff.{after_check, poll}
use gpuid.Node.Update.Ensure.{ensure_labels}
use gpuid.Node.Provider.{
  Fetch, last_part, first_part, parse_node_info, get, node_info, get_node_provider_id,
}
use gpuid.Runner.Pod.{all_ready, pod_ready}
use gpuid.Runner.Seen.{has, add}
use gpuid.Runner.Export.{
  Backend, push_valid, read_gpus, read_unit, read_units, write_records, export,
}
use gpuid.Runner.Worker.Process.{
  Services, State, ask_time, seen_before, after_seen, jitter_stage, query_stage, after_query,
  label_stage, after_labels, after_provider, export_stage, after_export, mark, count_success,
  process_pod,
}
use gpuid.Runner.Worker.Exported.Inverse.{Gains}
use gpuid.Runner.Worker.Delivered.{LeavesLabels, Delivers, process_pod-Delivers}
use gpuid.Examples.Gpu.{report, in_order}
use gpuid.Examples.Runner.{settings, pod}
use gpuid.Examples.Update.{World, labeler, server, backoff, start}

abbrev backend : Backend World
backend = record { write = λ r w. (false, w); now = λ w. (9, w) }

abbrev fetch : Fetch World
fetch node w = (ok (some (codes "aws:///us-west-2a/i-0ab")), w)

abbrev services : Services World
services = record {
  now = λ w. (8, w);
  wait_jitter = λ w. (false, w);
  query_smi = λ pod container w. (some report, w);
  iteration = in_order;
  labeler = labeler;
  backoff = backoff;
  clientset = some fetch;
  lower_table = λ c. c;
  exporter = some backend;
}

abbrev fresh : State World
fresh = record { processed = []; successes = []; failures = []; world = start }

same : (b : Backend World) → services.exporter ≡ some b → backend ≡ b
same b h = cc h

same_fetch : (f : Fetch World) → services.clientset ≡ some f → fetch ≡ f
same_fetch f h = cc h

quiet : LeavesLabels services server
quiet = record {
  fetch_keeps = λ f h node w n k.
      subst (λ (g : Fetch World). server.labels (g node w).1 n k ≡ server.labels w n k)
        (same_fetch f h) refl;
  clock_keeps = λ w n k. refl;
  backend_now_keeps = λ b h w n k.
      subst (λ (c : Backend World). server.labels (c.now w).1 n k ≡ server.labels w n k) (same b h)
        refl;
  backend_write_keeps = λ b h r w n k.
      subst (λ (c : Backend World). server.labels (c.write r w).1 n k ≡ server.labels w n k)
        (same b h) refl;
}

ticks : (b : Backend World) → services.exporter ≡ some b → (w : World) → (b.now w).0 ≢ 0
ticks b h w = subst (λ (c : Backend World). (c.now w).0 ≢ 0) (same b h) (λ e. absurd (omega arith))

gains : Gains services settings pod fresh (process_pod services settings pod fresh).1
unfolding is_blank lookup set trim_space trim_start trim_end is_space sort insert text_eq text_ltb
    split_on trim_prefix strip_prefix has_prefix digits decimal validate make_unit add_serial
    group_gpu group_gpus to_serials get_serial_numbers sanitize_label_value cleaned
    label_value_regex ends_well less label_gpus label_unit label_units label_count
    calculate_gpu_labels needs_label_update put_desired null_stale patch_labels retried patch_node
    update_node attempt_label_update try_update after_check poll ensure_labels last_part first_part
    to_lower parse_node_info get node_info get_node_provider_id all_ready pod_ready has add
    push_valid read_gpus read_unit read_units write_records export ask_time seen_before after_seen
    jitter_stage query_stage after_query label_stage after_labels after_provider export_stage
    after_export mark count_success process_pod
gains = refl

process_pod-Delivers_example :
    Delivers services settings pod server fresh (process_pod services settings pod fresh).1
process_pod-Delivers_example =
    process_pod-Delivers services settings pod server quiet ticks refl fresh gains
