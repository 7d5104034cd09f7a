-- ===== src/Examples/Gpu.antt =====
-- Package gpu on a report of three GPUs on two chassis.
use mathlib.Core.List.Permᴰ
use mathlib.Core.List.{Permᴰ}
use gpuid.Base.{◌≡◌, refl, List, [], ◌∷◌, codes}
use gpuid.Gpu.Serials.{Gpu}
use gpuid.Gpu.Reading.{SerialNumberReading}
use gpuid.Gpu.Grouping.{UnitMap, Iteration, get_serial_numbers}
use gpuid.Gpu.Grouping.Laws.{is_listed, is_reported}
use gpuid.Gpu.Grouping.Listed.{Rearranges, is_listed-get_serial_numbers}

abbrev pub report : List Gpu
report =
    record { serial = codes "g2"; chassis_serial_number = codes "c2" }
    ∷ record { serial = codes "g1"; chassis_serial_number = codes "c1" }
    ∷ record { serial = codes "g0"; chassis_serial_number = codes "c2" }
    ∷ []

abbrev pub in_order : Iteration
in_order = record { units = λ u. u; serials = λ s. s }

-- The first two entries are swapped.
abbrev swap_units : UnitMap → UnitMap
swap_units (a ∷ b ∷ u) = b ∷ a ∷ u
swap_units u = u

abbrev pub swapped : Iteration
swapped = record { units = swap_units; serials = λ s. s }

pub in_order-Rearranges : Rearranges in_order
in_order-Rearranges = record { units_perm = λ u. Permᴰ.refl _; serials_perm = λ s. Permᴰ.refl _ }

swap_units-permᴰ : (u : UnitMap) → Permᴰ (swap_units u) u
swap_units-permᴰ [] = Permᴰ.refl _
swap_units-permᴰ (a ∷ []) = Permᴰ.refl _
swap_units-permᴰ (a ∷ b ∷ u) = Permᴰ.swap refl refl

pub swapped-Rearranges : Rearranges swapped
swapped-Rearranges = record { units_perm = swap_units-permᴰ; serials_perm = λ s. Permᴰ.refl _ }

is_listed-get_serial_numbers_example :
    is_listed (codes "c2") (codes "g0") (get_serial_numbers swapped report)
    ≡ is_reported (codes "c2") (codes "g0") report
is_listed-get_serial_numbers_example =
    is_listed-get_serial_numbers swapped swapped-Rearranges (codes "c2") (codes "g0") report

-- A reading with no GPU serial.
abbrev pub no_gpu : SerialNumberReading
no_gpu = record {
  cluster = codes "lab";
  node = codes "n1";
  machine = codes "i-1";
  source = codes "gpu/p";
  chassis = codes "c1";
  gpu = [];
  time = 1;
}
