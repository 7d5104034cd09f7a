-- ===== src/Gpu/Grouping.antt =====
-- GetSerialNumbers of pkg/gpu/gpu.go after the report has been read. Go ranges over a map in an
-- order of its own choice: the order is an argument, any function that rearranges a list.
pub mod Laws
pub mod Listed
pub mod Keys
use gpuid.Base.{
  Bool, true, false, List, [], ◌∷◌, map, if◌then◌else◌, Option, none, some, Text, lookup, set,
  has_key, sort_strings,
}
use gpuid.Gpu.Serials.{Serials, Gpu}

-- map[string]bool: the keys that were set to true.
abbrev pub SerialSet : Type 0
SerialSet = List (Text × Bool)

abbrev pub UnitMap : Type 0
UnitMap = List (Text × SerialSet)

-- unitMap[chassis], the nil map where there is none
abbrev pub members : Text → UnitMap → SerialSet
members chassis units = elim (lookup chassis units) [ none ↦ [] | some s ↦ s ]

-- s[serial], false where there is none
abbrev pub contains : Text → SerialSet → Bool
contains serial s = elim (lookup serial s) [ none ↦ false | some b ↦ b ]

-- if unitMap[chassis] == nil { unitMap[chassis] = make(...) }
unfoldable pub make_unit : Text → UnitMap → UnitMap
make_unit chassis units = if has_key chassis units then units else set chassis [] units

-- unitMap[chassis][serial] = true, unless it is so
unfoldable pub add_serial : Text → Text → UnitMap → UnitMap
add_serial chassis serial units =
    if contains serial (members chassis units)
    then units
    else set chassis (set serial true (members chassis units)) units

-- One round of the loop over the GPUs.
unfoldable pub group_gpu : Gpu → UnitMap → UnitMap
group_gpu g units =
    add_serial g.chassis_serial_number g.serial (make_unit g.chassis_serial_number units)

unfoldable pub group_gpus : List Gpu → UnitMap → UnitMap
group_gpus [] units = units
group_gpus (g ∷ gs) units = group_gpus gs (group_gpu g units)

-- The orders in which Go ranges over unitMap and over each inner map.
pub record Iteration : Type 0 where
  pub units : UnitMap → UnitMap
  pub serials : SerialSet → SerialSet

unfoldable pub to_serials : Iteration → Text × SerialSet → Serials
to_serials it (chassis, gpus) = record {
  chassis = chassis;
  gpu = sort_strings (map (λ e. e.0) (it.serials gpus));
}

unfoldable pub get_serial_numbers : Iteration → List Gpu → List Serials
get_serial_numbers it gpus = map (to_serials it) (it.units (group_gpus gpus []))
