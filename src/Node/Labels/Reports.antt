-- ===== src/Node/Labels/Reports.antt =====
-- The labels of a node depend on which GPUs are reported, and on nothing else of the report.
use mathlib.Core.List.Permᴰ
use mathlib.Core.Path.{fun_ext}
use mathlib.Core.Logic.{∥∥₁_elim}
use mathlib.Core.Quot
use mathlib.Core.Quot.{Quot}
use mathlib.Core.List.{Permᴰ, Perm, Perm-prop}
use gpuid.Base.{
  ◌≡◌, refl, ap, sym, ◌∙◌, subst, List, [], ◌∷◌, map, Option, some, Text, lookup, has_key, All,
  sort_strings, arith,
}
use gpuid.Base.Sort.{sort_strings-permᴰ}
use gpuid.Gpu.Serials.{Serials, Gpu}
use gpuid.Gpu.Grouping.{
  SerialSet, UnitMap, members, contains, Iteration, to_serials, group_gpus, get_serial_numbers,
}
use gpuid.Gpu.Grouping.Laws.{
  IsSerialSet, contains-group_gpus, group_gpus-IsUnitMap, members-IsSerialSet,
}
use gpuid.Gpu.Grouping.Listed.{Rearranges, exists-keys, exists-contains}
use gpuid.Gpu.Grouping.Keys.{SameGpus, has_key-group_gpus, has_chassis-SameGpus, keys-perm}
use gpuid.Node.Labels.{Labels, calculate_gpu_labels}
use gpuid.Node.Labels.Order.{
  calculate_gpu_labels-permᴰ, units-lookup, get_serial_numbers-TellsApart,
}

Texts-set : IsSet (List Text)
Texts-set = hlevel

Labels-set : IsSet Labels
Labels-set = hlevel

abbrev keys {ℓ} : {V : Type ℓ} → List (Text × V) → List Text
keys = map (λ e. e.0)

-- In a set of serials every key is contained.
contains-has_key : (s : Text) (m : SerialSet) → IsSerialSet m → contains s m ≡ has_key s m
contains-has_key s m h = sym (exists-contains s m h.1) ∙ exists-keys s m

-- Sets with the same serials are listed alike.
sort_strings-serials :
    (a b : Iteration)
    → Rearranges a
    → Rearranges b
    → (m n : SerialSet) → IsSerialSet m
    → IsSerialSet n
    → ((s : Text) → contains s m ≡ contains s n)
    → sort_strings (keys (a.serials m)) ≡ sort_strings (keys (b.serials n))
sort_strings-serials a b ra rb m n hm hn same =
    let agree : (s : Text) → has_key s m ≡ has_key s n =
      λ s. sym (contains-has_key s m hm) ∙ (same s ∙ contains-has_key s n hn) in
    ∥∥₁_elim (keys-perm m n hm.0 hn.0 (λ k e. sym (agree k) ∙ e) (λ k e. agree k ∙ e))
      (Texts-set _ _)
      (λ p. sort_strings-permᴰ (
        Permᴰ.trans (Permᴰ.map (λ e. e.0) (ra.serials_perm m))
          (Permᴰ.trans p (Permᴰ.symm (Permᴰ.map (λ e. e.0) (rb.serials_perm n))))))

-- The unit of a chassis.
abbrev unit_at : Iteration → UnitMap → Text → Option Serials
unit_at it u c = some (record { chassis = c; gpu = sort_strings (keys (it.serials (members c u))) })

units-by_key :
    (it : Iteration) (u l : UnitMap)
    → All (λ (e : Text × SerialSet). lookup e.0 u ≡ some e.1) l
    → map some (map (to_serials it) l) ≡ map (unit_at it u) (keys l)
unfolding to_serials
units-by_key it u [] h = refl
units-by_key it u ((c, m) ∷ l) (found, h) = rw (units-by_key it u l h, found, members) refl

module _ (a b : Iteration) (ra : Rearranges a) (rb : Rearranges b) (g h : List Gpu)
    (same : SameGpus g h) where
  units_g : UnitMap
  units_g = group_gpus g []

  units_h : UnitMap
  units_h = group_gpus h []

  unit_at-SameGpus : (c : Text) → unit_at b units_h c ≡ unit_at a units_g c
  unfolding units_g units_h
  unit_at-SameGpus c =
      ap (λ l. some (record { chassis = c; gpu = l }))
        (sort_strings-serials b a rb ra (members c units_h) (members c units_g)
          (members-IsSerialSet c units_h (group_gpus-IsUnitMap h [] (tt, tt)))
          (members-IsSerialSet c units_g (group_gpus-IsUnitMap g [] (tt, tt)))
          (λ s.
            ground (arith, contains-group_gpus c s h [], contains-group_gpus c s g [], same c s)))

  keys_order : Perm (keys (a.units units_g)) (keys (b.units units_h))
  unfolding units_g units_h lookup
  keys_order =
      ∥∥₁_elim
        (keys-perm units_g units_h (group_gpus-IsUnitMap g [] (tt, tt)).0
          (group_gpus-IsUnitMap h [] (tt, tt)).0
          (λ c e.
            has_key-group_gpus c h []
            ∙ has_chassis-SameGpus g h same c (sym (has_key-group_gpus c g []) ∙ e))
          (λ c e.
            has_key-group_gpus c g []
            ∙ has_chassis-SameGpus h g (λ k s. sym (same k s)) c
                (sym (has_key-group_gpus c h []) ∙ e)))
        Perm-prop
        (λ p.
          ∣ Permᴰ.trans (Permᴰ.map (λ e. e.0) (ra.units_perm units_g))
            (Permᴰ.trans p (Permᴰ.symm (Permᴰ.map (λ e. e.0) (rb.units_perm units_h)))) ∣₁)

  -- Reports with the same GPUs, as pairs of a chassis and a serial, lead to the same labels:
  -- neither the order of the GPUs, nor how often one of them is listed, nor the order in which the
  -- maps are ranged over matters.
  pub calculate_gpu_labels-SameGpus :
      calculate_gpu_labels (map some (get_serial_numbers a g))
      ≡ calculate_gpu_labels (map some (get_serial_numbers b h))
  unfolding get_serial_numbers units_g units_h
  calculate_gpu_labels-SameGpus =
      let keys_h = keys (b.units units_h) in
      let all_g = units-by_key a units_g (a.units units_g) (units-lookup a ra g) in
      let all_h =
        units-by_key b units_h (b.units units_h) (units-lookup b rb h)
        ∙ ap (λ f. map f keys_h) (fun_ext unit_at-SameGpus) in
      ∥∥₁_elim keys_order (Labels-set _ _) (λ p.
        calculate_gpu_labels-permᴰ
          (subst (λ l. Permᴰ l (map some (get_serial_numbers b h))) (sym all_g)
            (subst (λ l. Permᴰ (map (unit_at a units_g) (keys (a.units units_g))) l) (sym all_h)
              (Permᴰ.map (unit_at a units_g) p)))
          (get_serial_numbers-TellsApart a ra g))

-- A report as the set of its GPUs.
abbrev pub Report : Type 0
Report = Quot SameGpus

pub labels_of : (it : Iteration) → Rearranges it → Report → Labels
labels_of it r =
    Quot.lift Labels-set (λ gpus. calculate_gpu_labels (map some (get_serial_numbers it gpus)))
      (λ g h same. calculate_gpu_labels-SameGpus it it r r g h same)

pub labels_of-order :
    (a b : Iteration) (ra : Rearranges a) (rb : Rearranges b) (report : Report)
    → labels_of a ra report ≡ labels_of b rb report
unfolding labels_of
labels_of-order a b ra rb =
    Quot.ind (λ r. Labels-set _ _)
      (λ gpus. calculate_gpu_labels-SameGpus a b ra rb gpus gpus (λ c s. refl))
