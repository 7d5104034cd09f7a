-- ===== src/Node/Labels/Order.antt =====
-- The labels do not depend on the order in which Go ranges over the maps of serials.
use mathlib.Core.List.Permᴰ
use mathlib.Core.Path.{fun_ext}
use mathlib.Core.Logic.Or
use mathlib.Core.List.{Permᴰ, Mem, not-mem-nil, eq-or-mem_of_mem-cons}
use gpuid.Base.{
  suc, ◌≡◌, refl, ap, sym, ◌∙◌, subst, true, false, List, [], ◌∷◌, map, arith, Option, none, some,
  Text, text_eq_iff, text_eq_refl, text_ltb_total, text_ltb_trans, text_ltb_asymm, lookup, IsMap,
  All, length, inl, inr,
}
use gpuid.Base.Sort.{IsOrder, AreApart, TellsApart, sort-permᴰ, sort_strings-permᴰ}
use gpuid.Gpu.Serials.{Serials, Gpu}
use gpuid.Gpu.Grouping.{
  SerialSet, UnitMap, members, Iteration, to_serials, group_gpus, get_serial_numbers,
}
use gpuid.Gpu.Grouping.Laws.{group_gpus-IsUnitMap}
use gpuid.Gpu.Grouping.Listed.{Rearranges, All-permᴰ}
use gpuid.Node.Labels.{less, calculate_gpu_labels}

less-IsOrder : IsOrder less
unfolding less
less-IsOrder = record { trans = less_trans; asymm = less_asymm }
  where
    less_trans : (x y z : Option Serials) → less x y ≡ true → less y z ≡ true → less x z ≡ true
    less_trans none y z h k = cc
    less_trans (some s) none z h k = cc
    less_trans (some s) (some t) none h k = refl
    less_trans (some s) (some t) (some r) h k = text_ltb_trans s.chassis t.chassis r.chassis h k

    less_asymm : (x y : Option Serials) → less x y ≡ true → less y x ≡ false
    less_asymm none y h = cc
    less_asymm (some s) none h = refl
    less_asymm (some s) (some t) h = text_ltb_asymm s.chassis t.chassis h

length-permᴰ {ℓ} : {A : Type ℓ} {l r : List A} → Permᴰ l r → length l ≡ length r
length-permᴰ Permᴰ.nil = refl
length-permᴰ (Permᴰ.cons e p) = ap suc (length-permᴰ p)
length-permᴰ (Permᴰ.swap e f) = refl
length-permᴰ (Permᴰ.trans p q) = length-permᴰ p ∙ length-permᴰ q

-- Units that the sort tells apart get the same labels in every order.
pub calculate_gpu_labels-permᴰ :
    {l r : List (Option Serials)}
    → Permᴰ l r
    → TellsApart less l
    → calculate_gpu_labels l ≡ calculate_gpu_labels r
unfolding calculate_gpu_labels
calculate_gpu_labels-permᴰ {l = []} {r = []} p h = refl
calculate_gpu_labels-permᴰ {l = []} {r = y ∷ r} p h = absurd (omega (arith, length-permᴰ p))
calculate_gpu_labels-permᴰ {l = x ∷ l} {r = []} p h = absurd (omega (arith, length-permᴰ p))
calculate_gpu_labels-permᴰ {l = x ∷ l} {r = y ∷ r} p h =
    rw (length-permᴰ p, sort-permᴰ less less-IsOrder p h)

Units-set : IsSet (Option Serials)
Units-set = hlevel

All-imp {ℓ κ μ} :
    {A : Type ℓ} (P : A → Type κ) (Q : A → Type μ)
    → ((x : A) → P x → Q x)
    → (l : List A) → All P l
    → All Q l
All-imp P Q f [] h = tt
All-imp P Q f (x ∷ l) (hx, hl) = (f x hx, All-imp P Q f l hl)

entries-lookup {ℓ} :
    {V : Type ℓ} (m : List (Text × V)) → IsMap m → All (λ (e : Text × V). lookup e.0 m ≡ some e.1) m
unfolding lookup
entries-lookup [] h = tt
entries-lookup {V} ((k, v) ∷ m) (absent, h) = (
  rw (text_eq_refl k) refl,
  All-imp (λ (e : Text × V). lookup e.0 m ≡ some e.1) _
      (λ e found. ground (arith, text_eq_iff k e.0)) m (entries-lookup m h),
)

module _ (it : Iteration) (u : UnitMap) where
  -- The unit that a chassis serial determines.
  unit_of : Option Serials → Option Serials
  unit_of none = none
  unit_of (some s) = some (to_serials it (s.chassis, members s.chassis u))

  units-determined :
      (l : UnitMap)
      → All (λ (e : Text × SerialSet). lookup e.0 u ≡ some e.1) l
      → All (λ x. x ≡ unit_of x) (map some (map (to_serials it) l))
  unfolding unit_of to_serials
  units-determined [] h = tt
  units-determined ((c, m) ∷ l) (found, h) =
      (ap (λ n. some (to_serials it (c, n))) (ground (arith, found)), units-determined l h)

  determined_of_mem :
      (l : List (Option Serials))
      → All (λ x. x ≡ unit_of x) l
      → (x : Option Serials) → Mem x l
      → x ≡ unit_of x
  determined_of_mem [] h x m = absurd (not-mem-nil m)
  determined_of_mem (y ∷ l) (hy, hl) x m =
      Or.elim (Units-set _ _) (eq-or-mem_of_mem-cons m) (λ e. subst (λ z. z ≡ unit_of z) (sym e) hy)
        (determined_of_mem l hl x)

  apart_of_determined : (x y : Option Serials) → x ≡ unit_of x → y ≡ unit_of y → AreApart less x y
  unfolding less unit_of
  apart_of_determined none none p q = inr (inr refl)
  apart_of_determined none (some t) p q = inr (inl refl)
  apart_of_determined (some s) none p q = inl refl
  apart_of_determined (some s) (some t) p q = elim (text_ltb_total s.chassis t.chassis) [
    | inl h ↦ inl h
    | inr (inl h) ↦ inr (inl h)
    | inr (inr e) ↦ inr (inr (p ∙ (ap (λ c. some (to_serials it (c, members c u))) e ∙ sym q)))
  ]

to_serials-order :
    (a b : Iteration)
    → Rearranges a
    → Rearranges b
    → (e : Text × SerialSet) → to_serials a e ≡ to_serials b e
unfolding to_serials
to_serials-order a b ra rb (c, m) =
    let p = Permᴰ.trans (ra.serials_perm m) (Permᴰ.symm (rb.serials_perm m)) in
    ap (λ g. record { chassis = c; gpu = g }) (sort_strings-permᴰ (Permᴰ.map (λ e. e.0) p))

-- The units of a map, in any order: each has its key and what the map has for it.
pub units-lookup :
    (it : Iteration)
    → Rearranges it
    → (gpus : List Gpu)
    → All
        (λ (e : Text × SerialSet). lookup e.0 (group_gpus gpus []) ≡ some e.1)
        (it.units (group_gpus gpus []))
unfolding lookup
units-lookup it r gpus =
    let u : UnitMap = group_gpus gpus [] in
    All-permᴰ (λ (e : Text × SerialSet). lookup e.0 u ≡ some e.1) (Permᴰ.symm (r.units_perm u))
      (entries-lookup u (group_gpus-IsUnitMap gpus [] (tt, tt)).0)

-- The sort tells any two units apart.
pub get_serial_numbers-TellsApart :
    (it : Iteration)
    → Rearranges it
    → (gpus : List Gpu) → TellsApart less (map some (get_serial_numbers it gpus))
unfolding get_serial_numbers
get_serial_numbers-TellsApart it r gpus x y mx my =
    let u : UnitMap = group_gpus gpus [] in
    let fixed = units-determined it u (it.units u) (units-lookup it r gpus) in
    apart_of_determined it u x y (determined_of_mem it u _ fixed x mx)
      (determined_of_mem it u _ fixed y my)

-- Two runs on one report, whatever order each of them takes, compute the same labels.
pub calculate_gpu_labels-order :
    (a b : Iteration)
    → Rearranges a
    → Rearranges b
    → (gpus : List Gpu)
    → calculate_gpu_labels (map some (get_serial_numbers a gpus))
      ≡ calculate_gpu_labels (map some (get_serial_numbers b gpus))
unfolding get_serial_numbers
calculate_gpu_labels-order a b ra rb gpus =
    let u : UnitMap = group_gpus gpus [] in
    let order = Permᴰ.trans (ra.units_perm u) (Permᴰ.symm (rb.units_perm u)) in
    let same : map (to_serials a) (b.units u) ≡ map (to_serials b) (b.units u) =
      ap (λ f. map f (b.units u)) (fun_ext (to_serials-order a b ra rb)) in
    calculate_gpu_labels-permᴰ (Permᴰ.map some (Permᴰ.map (to_serials a) order))
      (get_serial_numbers-TellsApart a ra gpus)
    ∙ ap (λ l. calculate_gpu_labels (map some l)) same
