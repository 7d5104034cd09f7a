-- ===== src/Examples/Labels.antt =====
-- Label values and labels on small inputs.
use gpuid.Base.{
  set, digits, decimal, ◌≡◌, refl, arith, true, List, [], ◌∷◌, ◌++◌, map, Option, some, codes,
  text_eq, lookup, get_elem?, sort, sort_strings, insert, text_ltb, trim_space, trim_start,
  trim_end, is_space,
}
use gpuid.Gpu.Serials.{Serials}
use gpuid.Gpu.Grouping.{get_serial_numbers}
use gpuid.Node.Sanitize.{
  label_value_regex, ends_well, cleaned, not_set_default, sanitize_label_value,
}
use gpuid.Node.Labels.{
  label_gpus, label_unit, label_units, label_count, less, calculate_gpu_labels, has_serial,
}
use gpuid.Gpu.Serials.{Gpu}
use gpuid.Gpu.Grouping.Keys.{SameGpus}
use gpuid.Node.Labels.Reports.{calculate_gpu_labels-SameGpus}
use gpuid.Node.Labels.Units.{calculate_gpu_labels-unit_gpu}
use gpuid.Node.Labels.Bounds.{AreShort, calculate_gpu_labels-AreShort}
use gpuid.Node.Labels.Values.{AreOwnLabels, calculate_gpu_labels-AreOwnLabels}
use gpuid.Examples.Gpu.{report, in_order, swapped, in_order-Rearranges, swapped-Rearranges}

sanitize : Unit {0}
unfolding sanitize_label_value cleaned label_value_regex ends_well text_eq trim_space trim_start
    trim_end is_space
sanitize = tt

slash_test : sanitize_label_value (codes " 16/5-") ≡ codes "16-5"
unfolding sanitize
slash_test = refl

junk_test : sanitize_label_value (codes "--") ≡ not_set_default
unfolding sanitize
junk_test = refl

accepted : label_value_regex (codes "1652-9.a") ≡ true
unfolding sanitize
accepted = refl

abbrev lone : Serials
lone = record { chassis = codes "c1"; gpu = codes "g1" ∷ codes "g0" ∷ [] }

abbrev pub two : List (Option Serials)
two = some (record { chassis = codes "c2"; gpu = codes "g2" ∷ [] }) ∷ some lone ∷ []

labels : Unit {0}
unfolding sanitize calculate_gpu_labels sort insert less text_ltb
labels = tt

-- Two units with no chassis serial share the label of their first GPU.
abbrev unserialed : List (Option Serials)
unserialed =
    some (record { chassis = []; gpu = codes "g1" ∷ [] })
    ∷ some (record { chassis = codes "N/A"; gpu = codes "g2" ∷ [] })
    ∷ []

overwrite_test : calculate_gpu_labels unserialed ≡ (codes "gpuid.github.com/gpu-0", codes "g2") ∷ []
unfolding labels label_gpus label_unit label_units label_count set digits decimal
overwrite_test = refl

-- The same GPUs in another order, one of them twice.
abbrev repeated : List Gpu
repeated =
    record { serial = codes "g1"; chassis_serial_number = codes "c1" }
    ∷ record { serial = codes "g2"; chassis_serial_number = codes "c2" }
    ∷ record { serial = codes "g0"; chassis_serial_number = codes "c2" }
    ∷ record { serial = codes "g1"; chassis_serial_number = codes "c1" }
    ∷ []

same_gpus : SameGpus report repeated
same_gpus c s = ground arith

calculate_gpu_labels-SameGpus_example :
    calculate_gpu_labels (map some (get_serial_numbers in_order report))
    ≡ calculate_gpu_labels (map some (get_serial_numbers swapped repeated))
calculate_gpu_labels-SameGpus_example =
    calculate_gpu_labels-SameGpus in_order swapped in_order-Rearranges swapped-Rearranges report
      repeated same_gpus

lone_first : get_elem? (sort less two) 0 ≡ some (some lone)
unfolding labels
lone_first = refl

lone_known : has_serial lone ≡ true
unfolding sanitize
lone_known = refl

second_gpu : get_elem? (sort_strings lone.gpu) 1 ≡ some (codes "g1")
unfolding labels
second_gpu = refl

calculate_gpu_labels-unit_gpu_example :
    lookup
      (codes "gpuid.github.com/chassis-" ++ (decimal 0 ++ (codes "-gpu-" ++ decimal 1)))
      (calculate_gpu_labels two)
    ≡ some (sanitize_label_value (codes "g1"))
calculate_gpu_labels-unit_gpu_example =
    calculate_gpu_labels-unit_gpu two 0 lone (omega arith) lone_first lone_known 1 (codes "g1")
      second_gpu refl

calculate_gpu_labels-AreOwnLabels_example : AreOwnLabels (calculate_gpu_labels two)
calculate_gpu_labels-AreOwnLabels_example = calculate_gpu_labels-AreOwnLabels two

calculate_gpu_labels-AreShort_example : AreShort (calculate_gpu_labels two)
calculate_gpu_labels-AreShort_example =
    calculate_gpu_labels-AreShort two (omega arith) (omega arith, (omega arith, tt))
