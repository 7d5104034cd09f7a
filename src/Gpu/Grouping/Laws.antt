-- ===== src/Gpu/Grouping/Laws.antt =====
-- GetSerialNumbers lists exactly the reported pairs, each chassis once and each serial once.
use gpuid.Base.{
  ◌≡◌, refl, Bool, true, ◌&&◌, ◌||◌, List, [], ◌∷◌, arith, if◌then◌else◌, Text, text_eq,
  text_eq_iff, lookup, set, has_key, lookup-set, IsMap, set-IsMap, set-All, lookup-All, exists, All,
  Bool-cases, inl, inr, Option-cases,
}
use gpuid.Gpu.Serials.{Serials, Gpu}
use gpuid.Gpu.Grouping.{
  SerialSet, UnitMap, members, contains, make_unit, add_serial, group_gpu, group_gpus,
}

-- The report has a GPU with this chassis and this serial.
abbrev pub is_reported : Text → Text → List Gpu → Bool
is_reported c s = exists (λ (g : Gpu). text_eq g.chassis_serial_number c && text_eq g.serial s)

-- The result lists the serial under the chassis.
abbrev pub is_listed : Text → Text → List Serials → Bool
is_listed c s = exists (λ (u : Serials). text_eq u.chassis c && exists (λ t. text_eq t s) u.gpu)

-- Both maps have no key twice, and every serial that is a key was set to true.
abbrev pub IsSerialSet : SerialSet → Type 0
IsSerialSet s = IsMap s × All (λ (e : Text × Bool). e.1 ≡ true) s

abbrev pub IsUnitMap : UnitMap → Type 0
IsUnitMap u = IsMap u × All (λ (e : Text × SerialSet). IsSerialSet e.1) u

members-set :
    (c k : Text) (v : SerialSet) (u : UnitMap)
    → members c (set k v u) ≡ (if text_eq k c then v else members c u)
members-set c k v u = ground (arith, lookup-set c k v u)

members-make_unit : (c k : Text) (u : UnitMap) → members c (make_unit k u) ≡ members c u
unfolding make_unit
members-make_unit c k u = ground (arith, members-set c k [] u, text_eq_iff k c)

contains-set :
    (s t : Text) (m : SerialSet) → contains s (set t true m) ≡ (text_eq t s || contains s m)
contains-set s t m = ground (arith, lookup-set s t true m)

contains-add_serial :
    (c s k t : Text) (u : UnitMap)
    → contains s (members c (add_serial k t u))
      ≡ (contains s (members c u) || (text_eq k c && text_eq t s))
unfolding add_serial
contains-add_serial c s k t u = elim (Bool-cases (contains t (members k u))) [
  | inl e ↦ rw (e, add_serial) (ground (arith, text_eq_iff k c, text_eq_iff t s))
  | inr e ↦
      rw (e, add_serial, members-set)
        (ground (arith, text_eq_iff k c, text_eq_iff t s, contains-set s t (members k u)))
]

-- One round adds one pair, and no other.
contains-group_gpu :
    (c s : Text) (g : Gpu) (u : UnitMap)
    → contains s (members c (group_gpu g u))
      ≡ (contains s (members c u) || (text_eq g.chassis_serial_number c && text_eq g.serial s))
unfolding group_gpu
contains-group_gpu c s g u = rw (contains-add_serial, members-make_unit) refl

pub contains-group_gpus :
    (c s : Text) (gs : List Gpu) (u : UnitMap)
    → contains s (members c (group_gpus gs u)) ≡ (contains s (members c u) || is_reported c s gs)
unfolding group_gpus
contains-group_gpus c s [] u = ground arith
contains-group_gpus c s (g ∷ gs) u =
    ground (arith, contains-group_gpus c s gs (group_gpu g u), contains-group_gpu c s g u)

pub members-IsSerialSet : (c : Text) (u : UnitMap) → IsUnitMap u → IsSerialSet (members c u)
members-IsSerialSet c u (_, h) = elim (Option-cases (lookup c u)) [
  | inl e ↦ rw (e, members) (tt, tt)
  | inr (s, e) ↦ rw (e, members) (lookup-All (λ (p : Text × SerialSet). IsSerialSet p.1) c s u h e)
]

set-IsUnitMap :
    (c : Text) (s : SerialSet) (u : UnitMap) → IsSerialSet s → IsUnitMap u → IsUnitMap (set c s u)
set-IsUnitMap c s u hs (hm, ha) =
    (set-IsMap c s u hm, set-All (λ (p : Text × SerialSet). IsSerialSet p.1) c s u hs ha)

add-IsSerialSet : (t : Text) (s : SerialSet) → IsSerialSet s → IsSerialSet (set t true s)
add-IsSerialSet t s (hm, ha) =
    (set-IsMap t true s hm, set-All (λ (e : Text × Bool). e.1 ≡ true) t true s refl ha)

make_unit-IsUnitMap : (c : Text) (u : UnitMap) → IsUnitMap u → IsUnitMap (make_unit c u)
unfolding make_unit
make_unit-IsUnitMap c u h = elim (Bool-cases (has_key c u)) [
  | inl e ↦ rw e h
  | inr e ↦ rw e (set-IsUnitMap c [] u (tt, tt) h)
]

add_serial-IsUnitMap : (c s : Text) (u : UnitMap) → IsUnitMap u → IsUnitMap (add_serial c s u)
unfolding add_serial
add_serial-IsUnitMap c s u h = elim (Bool-cases (contains s (members c u))) [
  | inl e ↦ rw e h
  | inr e ↦ rw e (set-IsUnitMap c _ u (add-IsSerialSet s _ (members-IsSerialSet c u h)) h)
]

pub group_gpus-IsUnitMap : (gs : List Gpu) (u : UnitMap) → IsUnitMap u → IsUnitMap (group_gpus gs u)
unfolding group_gpus group_gpu
group_gpus-IsUnitMap [] u h = h
group_gpus-IsUnitMap (g ∷ gs) u h = group_gpus-IsUnitMap gs (group_gpu g u) (
    add_serial-IsUnitMap g.chassis_serial_number g.serial _
      (make_unit-IsUnitMap g.chassis_serial_number u h))
