-- ===== src/Node/Labels.antt =====
-- calculateGPULabels of pkg/node/label.go. A nil pointer among the serials is `none`.
pub mod Keys
pub mod Lookup
pub mod Units
pub mod Single
pub mod Order
pub mod Reports
pub mod Values
pub mod Bounds
use gpuid.Base.{
  ℕ, suc, ◌+◌, Bool, true, false, not, ◌&&◌, List, [], ◌∷◌, ◌++◌, ltb, if◌then◌else◌, Option, none,
  some, Text, codes, text_eq, text_ltb, is_empty, decimal, set, sort, sort_strings, length,
}
use gpuid.Gpu.Serials.{Serials}
use gpuid.Node.Sanitize.{sanitize_label_value, not_set_default}

abbrev pub Labels : Type 0
Labels = List (Text × Text)

abbrev pub label_ns : Text
label_ns = codes "gpuid.github.com"

abbrev label_chassis_prefix : Text
label_chassis_prefix = codes "chassis"

abbrev label_chassis_count : Text
label_chassis_count = codes "chassis-count"

abbrev label_gpu_prefix : Text
label_gpu_prefix = codes "gpu"

-- "%s/%s"
abbrev pub chassis_label : Text
chassis_label = label_ns ++ (codes "/" ++ label_chassis_prefix)

-- "%s/%s-%d"
abbrev pub chassis_label_at : ℕ → Text
chassis_label_at i = label_ns ++ (codes "/" ++ (label_chassis_prefix ++ (codes "-" ++ decimal i)))

-- "%s/%s-%d"
abbrev pub gpu_label : ℕ → Text
gpu_label j = label_ns ++ (codes "/" ++ (label_gpu_prefix ++ (codes "-" ++ decimal j)))

-- "%s/%s-%d-%s-%d"
abbrev pub gpu_label_at : ℕ → ℕ → Text
gpu_label_at i j =
    label_ns
    ++ (codes "/"
        ++ (label_chassis_prefix
            ++ (codes "-"
                ++ (decimal i ++ (codes "-" ++ (label_gpu_prefix ++ (codes "-" ++ decimal j)))))))

abbrev pub chassis_count_label : Text
chassis_count_label = label_ns ++ (codes "/" ++ label_chassis_count)

-- The less function of the sort: by chassis, nils at the end.
unfoldable pub less : Option Serials → Option Serials → Bool
less none t = false
less (some s) none = true
less (some s) (some t) = text_ltb s.chassis t.chassis

-- The loop over the sorted GPU serials from index j.
unfoldable pub label_gpus : (ℕ → Text) → ℕ → List Text → Labels → Labels
label_gpus label j [] labels = labels
label_gpus label j (g ∷ gs) labels =
    label_gpus label (suc j) gs
      (if is_empty g then labels else set (label j) (sanitize_label_value g) labels)

-- chassisSerial != notSetDefault
abbrev pub has_serial : Serials → Bool
has_serial s = not (text_eq (sanitize_label_value s.chassis) not_set_default)

-- The label of GPU j of the unit at index i.
abbrev pub gpu_label_of : Bool → ℕ → Serials → ℕ → Text
gpu_label_of multiple i s j = if multiple && has_serial s then gpu_label_at i j else gpu_label j

-- The chassis label of the unit at index i.
abbrev pub chassis_label_of : Bool → ℕ → Text
chassis_label_of multiple i = if multiple then chassis_label_at i else chassis_label

-- The body of the loop over the units: the labels, and the count of chassis.
unfoldable pub label_unit : Bool → ℕ → Serials → Labels × ℕ → Labels × ℕ
label_unit multiple i s (labels, count) = (
  label_gpus (gpu_label_of multiple i s) 0 (sort_strings s.gpu) (
      if has_serial s
      then set (chassis_label_of multiple i) (sanitize_label_value s.chassis) labels
      else labels),
  (if has_serial s then count + 1 else count),
)

unfoldable pub label_units : Bool → ℕ → List (Option Serials) → Labels × ℕ → Labels × ℕ
label_units multiple i [] acc = acc
label_units multiple i (none ∷ rest) acc = label_units multiple (suc i) rest acc
label_units multiple i (some s ∷ rest) acc =
    label_units multiple (suc i) rest (label_unit multiple i s acc)

-- The chassis count, if there is one.
unfoldable pub label_count : Labels × ℕ → Labels
label_count (labels, count) =
    if ltb 0 count then set chassis_count_label (decimal count) labels else labels

unfoldable pub calculate_gpu_labels : List (Option Serials) → Labels
calculate_gpu_labels [] = []
calculate_gpu_labels (s ∷ serials) =
    label_count (label_units (ltb 1 (length (s ∷ serials))) 0 (sort less (s ∷ serials)) ([], 0))
