-- ===== src/Examples/Exported.antt =====
-- The way of a pod whose three GPUs are labelled and exported.
use gpuid.Base.{
  to_lower, ◌↔◌, refl, List, [], ◌∷◌, Option, some, codes, is_blank, lookup, set, trim_space,
  trim_start, trim_end, is_space, sort, insert, text_eq, text_ltb, split_on, trim_prefix,
  strip_prefix, has_prefix, decimal, digits,
}
use gpuid.Gpu.Serials.{Serials}
use gpuid.Gpu.Reading.{validate}
use gpuid.Gpu.Grouping.{
  make_unit, add_serial, group_gpu, group_gpus, to_serials, get_serial_numbers,
}
use gpuid.Node.Sanitize.{sanitize_label_value, cleaned, label_value_regex, ends_well}
use gpuid.Node.Labels.{less, label_gpus, label_unit, label_units, label_count, calculate_gpu_labels}
use gpuid.Node.Update.{
  needs_label_update, put_desired, null_stale, patch_labels, retried, patch_node, update_node,
  attempt_label_update, try_update,
}
use gpuid.Node.Update.Backoff.{after_check, poll}
use gpuid.Node.Update.Ensure.{ensure_labels}
use gpuid.Node.Provider.{
  Info, last_part, first_part, parse_node_info, get, node_info, get_node_provider_id,
}
use gpuid.Runner.Pod.{all_ready, pod_ready}
use gpuid.Runner.Seen.{has, add}
use gpuid.Runner.Export.{push_valid, read_gpus, read_unit, read_units, write_records, export}
use gpuid.Runner.Worker.Process.{ask_time, seen_before, process_pod}
use gpuid.Runner.Worker.Exported.{IsExported}
use gpuid.Runner.Worker.Exported.Inverse.{Gains, HasExported, success_iff}
use gpuid.Examples.Gpu.{report}
use gpuid.Examples.Runner.{services, settings, pod, idle}

abbrev first : Option Serials
first = some (record { chassis = codes "c2"; gpu = codes "g0" ∷ codes "g2" ∷ [] })

abbrev rest : List (Option Serials)
rest = some (record { chassis = codes "c1"; gpu = codes "g1" ∷ [] }) ∷ []

abbrev info : Info
info = record {
  provider = codes "aws";
  identifier = codes "i-0ab";
  raw = codes "aws:///us-west-2a/i-0ab";
}

all_IsExported : IsExported services settings pod idle report first rest info 15 15
unfolding is_blank lookup set trim_space trim_start trim_end is_space sort insert text_eq text_ltb
    split_on trim_prefix strip_prefix has_prefix digits decimal validate make_unit add_serial
    group_gpu group_gpus to_serials get_serial_numbers sanitize_label_value cleaned
    label_value_regex ends_well less label_gpus label_unit label_units label_count
    calculate_gpu_labels needs_label_update put_desired null_stale patch_labels retried patch_node
    update_node attempt_label_update try_update after_check poll ensure_labels last_part first_part
    to_lower parse_node_info get node_info get_node_provider_id all_ready pod_ready has add
    push_valid read_gpus read_unit read_units write_records export ask_time seen_before
all_IsExported = record {
  w1 = 5;
  w2 = 6;
  w3 = 7;
  w4 = 9;
  w5 = 10;
  w6 = 14;
  is_ready = refl;
  not_seen = refl;
  jitter = refl;
  query = refl;
  grouped = refl;
  labelled = refl;
  located = refl;
  identified = refl;
  written = refl;
  marked = refl;
}

success_iff_example :
    Gains services settings pod idle (process_pod services settings pod idle).1
    ↔ HasExported services settings pod idle
success_iff_example = success_iff services settings pod idle

success_test : Gains services settings pod idle (process_pod services settings pod idle).1
success_test = (success_iff services settings pod idle).1 (record {
  gpus = report;
  unit = first;
  units = rest;
  info = info;
  marked_at = 15;
  last = 15;
  exported = all_IsExported;
})
