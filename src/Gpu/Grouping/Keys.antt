-- ===== src/Gpu/Grouping/Keys.antt =====
-- Which chassis GetSerialNumbers has a unit for, and when two maps have the same keys.
use mathlib.Core.List.{Mem, mem-cons_self, mem-cons_of_mem, Perm, perm_ext_iff_of_Nodup}
use gpuid.Base.{
  ◌≡◌, ap, ◌∙◌, subst, sym, Bool, true, ◌||◌, List, [], ◌∷◌, map, arith, Text, text_eq, text_eq_iff,
  lookup, set, has_key, lookup-set, IsMap, exists, Bool-cases, inl, inr,
}
use gpuid.Gpu.Serials.{Gpu}
use gpuid.Gpu.Grouping.{UnitMap, members, make_unit, add_serial, group_gpu, group_gpus}
use gpuid.Gpu.Grouping.Laws.{is_reported}
use gpuid.Gpu.Grouping.Listed.{has_key_of_mem, keys-Nodup}

has_key-make_unit :
    (c k : Text) (u : UnitMap) → has_key c (make_unit k u) ≡ (has_key c u || text_eq k c)
unfolding make_unit
has_key-make_unit c k u = elim (Bool-cases (text_eq k c)) [
  | inl e ↦
      let same = (text_eq_iff k c).0 e in
      ground (arith, same, lookup-set c k [] u, ap (λ x. lookup x u) same)
  | inr e ↦ ground (arith, lookup-set c k [] u)
]

has_key-add_serial :
    (c k t : Text) (u : UnitMap)
    → has_key k u ≡ true
    → has_key c (add_serial k t u) ≡ (has_key c u || text_eq k c)
unfolding add_serial
has_key-add_serial c k t u h = elim (Bool-cases (text_eq k c)) [
  | inl e ↦
      let same = (text_eq_iff k c).0 e in
      ground (arith, same, lookup-set c k (set t true (members k u)) u, ap (λ x. lookup x u) same)
  | inr e ↦ ground (arith, lookup-set c k (set t true (members k u)) u)
]

-- The report has a GPU with this chassis.
abbrev pub has_chassis : Text → List Gpu → Bool
has_chassis c = exists (λ (g : Gpu). text_eq g.chassis_serial_number c)

has_key-group_gpu :
    (c : Text) (g : Gpu) (u : UnitMap)
    → has_key c (group_gpu g u) ≡ (has_key c u || text_eq g.chassis_serial_number c)
unfolding group_gpu
has_key-group_gpu c g u =
    let k = g.chassis_serial_number in
    ground (
      arith,
      has_key-make_unit c k u,
      has_key-make_unit k k u,
      text_eq_iff k k,
      has_key-add_serial c k g.serial (make_unit k u),
    )

pub has_key-group_gpus :
    (c : Text) (gs : List Gpu) (u : UnitMap)
    → has_key c (group_gpus gs u) ≡ (has_key c u || has_chassis c gs)
unfolding group_gpus
has_key-group_gpus c [] u = ground arith
has_key-group_gpus c (g ∷ gs) u =
    ground (arith, has_key-group_gpus c gs (group_gpu g u), has_key-group_gpu c g u)

has_chassis_of_reported :
    (c s : Text) (gs : List Gpu) → is_reported c s gs ≡ true → has_chassis c gs ≡ true
has_chassis_of_reported c s [] h = cc h
has_chassis_of_reported c s (g ∷ gs) h = ground (arith, has_chassis_of_reported c s gs)

reported_of_chassis :
    (c : Text) (gs : List Gpu) → has_chassis c gs ≡ true → (s : Text) × (is_reported c s gs ≡ true)
reported_of_chassis c [] h = cc h
reported_of_chassis c (g ∷ gs) h = elim (Bool-cases (text_eq g.chassis_serial_number c)) [
  | inl e ↦ (g.serial, ground (arith, text_eq_iff g.serial g.serial))
  | inr e ↦ let (s, r) = reported_of_chassis c gs (ground arith) in (s, ground arith)
]

-- Both reports have the same GPUs, as pairs of a chassis and a serial.
abbrev pub SameGpus : List Gpu → List Gpu → Type 0
SameGpus g h = (c s : Text) → is_reported c s g ≡ is_reported c s h

pub has_chassis-SameGpus :
    (g h : List Gpu) → SameGpus g h → (c : Text) → has_chassis c g ≡ true → has_chassis c h ≡ true
has_chassis-SameGpus g h same c e =
    let (s, r) = reported_of_chassis c g e in has_chassis_of_reported c s h (sym (same c s) ∙ r)

mem_of_has_key {ℓ} :
    {V : Type ℓ} (k : Text) (m : List (Text × V)) → has_key k m ≡ true → Mem k (map (λ e. e.0) m)
unfolding lookup
mem_of_has_key k [] h = cc h
mem_of_has_key k ((j, v) ∷ m) h = elim (Bool-cases (text_eq j k)) [
  | inl e ↦ subst (λ i. Mem i (j ∷ map (λ e. e.0) m)) ((text_eq_iff j k).0 e) mem-cons_self
  | inr e ↦ mem-cons_of_mem j (mem_of_has_key k m (ground arith))
]

-- Maps with the same keys list them in some order.
pub keys-perm {ℓ} :
    {V : Type ℓ} (m n : List (Text × V))
    → IsMap m
    → IsMap n
    → ((k : Text) → has_key k m ≡ true → has_key k n ≡ true)
    → ((k : Text) → has_key k n ≡ true → has_key k m ≡ true)
    → Perm (map (λ e. e.0) m) (map (λ e. e.0) n)
keys-perm m n hm hn there back = (perm_ext_iff_of_Nodup (keys-Nodup m hm) (keys-Nodup n hn)).1 (λ k.
    (
      λ t. mem_of_has_key k n (there k (has_key_of_mem k m t)),
      λ t. mem_of_has_key k m (back k (has_key_of_mem k n t)),
    ))
