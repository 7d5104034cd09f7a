-- ===== src/Gpu/Grouping/Listed.antt =====
-- The result of GetSerialNumbers, whatever the order in which Go ranges over the maps.
use mathlib.Core.List.Permᴰ
use mathlib.Core.List.Perm
use mathlib.Core.Bool.{Bool-set}
use mathlib.Core.Logic.Or
use mathlib.Core.List.{Permᴰ, Nodup, Nodup-nil, Nodup-cons, Mem, not-mem-nil, eq-or-mem_of_mem-cons}
use gpuid.Base.{
  ◌≡◌, refl, ap, ◌∙◌, subst, Bool, true, false, ◌&&◌, List, [], ◌∷◌, map, arith, none, Text,
  text_eq, text_eq_iff, text_eq_refl, lookup, has_key, IsMap, exists, All, sort_strings, Bool-cases,
  inl, inr,
}
use gpuid.Base.Sort.{sort_permᴰ}
use gpuid.Gpu.Serials.{Serials, Gpu}
use gpuid.Gpu.Grouping.{
  SerialSet, UnitMap, members, contains, group_gpus, Iteration, to_serials, get_serial_numbers,
}
use gpuid.Gpu.Grouping.Laws.{
  is_reported, is_listed, IsSerialSet, contains-group_gpus, group_gpus-IsUnitMap,
}

-- Go visits every entry of a map once, in some order.
pub record Rearranges (it : Iteration) : Type 0 where
  pub units_perm : (u : UnitMap) → Permᴰ (it.units u) u
  pub serials_perm : (s : SerialSet) → Permᴰ (it.serials s) s

exists-permᴰ {ℓ} : {A : Type ℓ} (p : A → Bool) {l r : List A} → Permᴰ l r → exists p l ≡ exists p r
exists-permᴰ p Permᴰ.nil = refl
exists-permᴰ p (Permᴰ.cons {l₁ = l} {l₂ = r} e q) = ground (arith, exists-permᴰ p q, ap p e)
exists-permᴰ p (Permᴰ.swap {a = a} {b = b} {l = l} e f) = ground (arith, ap p e, ap p f)
exists-permᴰ p (Permᴰ.trans q r) = exists-permᴰ p q ∙ exists-permᴰ p r

exists-map {ℓ κ} :
    {A : Type ℓ} {B : Type κ} (f : A → B) (p : B → Bool) (l : List A)
    → exists p (map f l) ≡ exists (λ x. p (f x)) l
exists-map f p [] = refl
exists-map f p (x ∷ l) = ground (arith, exists-map f p l)

-- A key is there exactly if some entry has it.
pub exists-keys {ℓ} :
    {V : Type ℓ} (k : Text) (m : List (Text × V))
    → exists (λ t. text_eq t k) (map (λ e. e.0) m) ≡ has_key k m
unfolding lookup
exists-keys k [] = refl
exists-keys k ((j, v) ∷ m) = ground (arith, exists-keys k m)

pub exists-contains :
    (s : Text) (m : SerialSet)
    → All (λ (e : Text × Bool). e.1 ≡ true) m
    → exists (λ t. text_eq t s) (map (λ e. e.0) m) ≡ contains s m
unfolding lookup
exists-contains s [] h = refl
exists-contains s ((t, b) ∷ m) (hb, hm) = ground (arith, exists-contains s m hm)

exists-serials :
    (it : Iteration)
    → Rearranges it
    → (s : Text) (m : SerialSet) → IsSerialSet m
    → exists (λ t. text_eq t s) (sort_strings (map (λ e. e.0) (it.serials m))) ≡ contains s m
exists-serials it r s m h =
    exists-permᴰ (λ t. text_eq t s) (sort_permᴰ _ (map (λ e. e.0) (it.serials m)))
    ∙ (exists-permᴰ (λ t. text_eq t s) (Permᴰ.map (λ e. e.0) (r.serials_perm m))
        ∙ exists-contains s m h.1)

-- In a map only the entry of the chassis can have it.
exists-members-none :
    (c s : Text) (u : UnitMap)
    → lookup c u ≡ none
    → exists (λ (e : Text × SerialSet). text_eq e.0 c && contains s e.1) u ≡ false
unfolding lookup
exists-members-none c s [] h = refl
exists-members-none c s ((d, m) ∷ u) h = ground (arith, exists-members-none c s u)

exists-members :
    (c s : Text) (u : UnitMap)
    → IsMap u
    → exists (λ (e : Text × SerialSet). text_eq e.0 c && contains s e.1) u
      ≡ contains s (members c u)
unfolding lookup
exists-members c s [] h = refl
exists-members c s ((d, m) ∷ u) (absent, h) = elim (Bool-cases (text_eq d c)) [
  | inl e ↦
      let same = (text_eq_iff d c).0 e in
      rw e (ground (arith, exists-members-none c s u (subst (λ k. lookup k u ≡ none) same absent)))
  | inr e ↦ ground (arith, exists-members c s u h)
]

is_listed-units :
    (it : Iteration)
    → Rearranges it
    → (c s : Text) (u : UnitMap) → All (λ (e : Text × SerialSet). IsSerialSet e.1) u
    → is_listed c s (map (to_serials it) u)
      ≡ exists (λ (e : Text × SerialSet). text_eq e.0 c && contains s e.1) u
unfolding to_serials
is_listed-units it r c s [] _ = refl
is_listed-units it r c s ((d, m) ∷ u) (hm, hu) =
    ground (arith, is_listed-units it r c s u hu, exists-serials it r s m hm)

-- Whatever the order in which the maps are ranged over, GetSerialNumbers lists a serial under a
-- chassis exactly if the report has a GPU with both.
pub is_listed-get_serial_numbers :
    (it : Iteration)
    → Rearranges it
    → (c s : Text) (gpus : List Gpu)
    → is_listed c s (get_serial_numbers it gpus) ≡ is_reported c s gpus
unfolding get_serial_numbers lookup
is_listed-get_serial_numbers it r c s gpus =
    let u = group_gpus gpus [] in
    let h = group_gpus-IsUnitMap gpus [] (tt, tt) in
    exists-permᴰ _ (Permᴰ.map (to_serials it) (r.units_perm u))
    ∙ (is_listed-units it r c s u h.1
        ∙ (exists-members c s u h.0 ∙ contains-group_gpus c s gpus []))

-- A key of the list of keys is a key of the map.
pub has_key_of_mem {ℓ} :
    {V : Type ℓ} (k : Text) (m : List (Text × V)) → Mem k (map (λ e. e.0) m) → has_key k m ≡ true
unfolding lookup
has_key_of_mem k [] h = absurd (not-mem-nil h)
has_key_of_mem k ((j, v) ∷ m) h =
    Or.elim (Bool-set _ _) (eq-or-mem_of_mem-cons h) (λ e. rw (← e, text_eq_refl k, lookup) refl)
      (λ t. ground (arith, has_key_of_mem k m t))

pub keys-Nodup {ℓ} : {V : Type ℓ} (m : List (Text × V)) → IsMap m → Nodup (map (λ e. e.0) m)
keys-Nodup [] h = Nodup-nil
keys-Nodup ((k, v) ∷ m) (absent, h) =
    Nodup-cons.1 (λ t. ground (arith, has_key_of_mem k m t), keys-Nodup m h)

sorted-Nodup :
    (it : Iteration)
    → Rearranges it
    → (m : SerialSet) → IsMap m
    → Nodup (sort_strings (map (λ e. e.0) (it.serials m)))
sorted-Nodup it r m h =
    Perm.nodup
      (∣ Permᴰ.symm (Permᴰ.trans (sort_permᴰ _ _) (Permᴰ.map (λ e. e.0) (r.serials_perm m))) ∣₁)
      (keys-Nodup m h)

units-Nodup :
    (it : Iteration)
    → Rearranges it
    → (u : UnitMap) → All (λ (e : Text × SerialSet). IsSerialSet e.1) u
    → All (λ (s : Serials). Nodup s.gpu) (map (to_serials it) u)
unfolding to_serials
units-Nodup it r [] h = tt
units-Nodup it r ((c, m) ∷ u) (hm, hu) = (sorted-Nodup it r m hm.0, units-Nodup it r u hu)

pub All-permᴰ {ℓ κ} : {A : Type ℓ} (P : A → Type κ) {l r : List A} → Permᴰ l r → All P l → All P r
All-permᴰ P Permᴰ.nil h = h
All-permᴰ P (Permᴰ.cons e q) (hx, hl) = (subst P e hx, All-permᴰ P q hl)
All-permᴰ P (Permᴰ.swap e f) (ha, (hb, hl)) = (subst P f hb, (subst P e ha, hl))
All-permᴰ P (Permᴰ.trans q r) h = All-permᴰ P r (All-permᴰ P q h)

chassis-units :
    (it : Iteration) (u : UnitMap)
    → map (λ (s : Serials). s.chassis) (map (to_serials it) u) ≡ map (λ e. e.0) u
unfolding to_serials
chassis-units it [] = refl
chassis-units it ((c, m) ∷ u) = ap (◌∷◌ c) (chassis-units it u)

-- No chassis is listed twice, and no serial twice under its chassis.
pub get_serial_numbers-Nodup :
    (it : Iteration)
    → Rearranges it
    → (gpus : List Gpu)
    → Nodup (map (λ (s : Serials). s.chassis) (get_serial_numbers it gpus))
      × All (λ (s : Serials). Nodup s.gpu) (get_serial_numbers it gpus)
unfolding get_serial_numbers
get_serial_numbers-Nodup it r gpus =
    let u = group_gpus gpus [] in
    let h = group_gpus-IsUnitMap gpus [] (tt, tt) in
    let back = Permᴰ.symm (r.units_perm u) in
    (
      rw chassis-units (Perm.nodup (∣ Permᴰ.map (λ e. e.0) back ∣₁) (keys-Nodup u h.0)),
      units-Nodup it r (it.units u)
          (All-permᴰ (λ (e : Text × SerialSet). IsSerialSet e.1) back h.1),
    )
