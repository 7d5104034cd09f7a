-- ===== src/Node/Labels/Bounds.antt =====
-- How long the names of the labels can be. Kubernetes allows 63 characters after the prefix.
use gpuid.Base.{
  ℕ, zero, suc, ◌+◌, ◌*◌, ◌/◌, ◌%◌, ◌≤◌, ◌<◌, ◌≡◌, refl, ◌∙◌, Bool, true, false, ◌&&◌, codes, List,
  [], ◌∷◌, ◌++◌, arith, ltb, Option, none, some, All, Text, is_empty, set, set-All, sort,
  sort_strings, decimal, digits, if◌then◌else◌, Bool-cases, inl, inr, length,
}
use mathlib.Core.List.{Permᴰ}
use mathlib.Core.List.Permᴰ
use gpuid.Base.Sort.{sort_permᴰ}
use gpuid.Gpu.Grouping.Listed.{All-permᴰ}
use gpuid.Gpu.Serials.{Serials}
use gpuid.Node.Sanitize.{sanitize_label_value}
use gpuid.Node.Labels.{
  Labels, less, label_gpus, label_unit, label_units, label_count, calculate_gpu_labels,
  gpu_label_of, chassis_label_of, chassis_count_label, has_serial,
}

-- The least number of k + 1 digits.
abbrev power : ℕ → ℕ
power zero = 1
power (suc k) = 10 * power k

length-digits :
    (f n k : ℕ) (acc : Text) → n < power (suc k) → length (digits f n acc) ≤ suc k + length acc
unfolding digits
length-digits zero n k acc h = omega arith
length-digits (suc f) n zero acc h = ground arith
length-digits (suc f) n (suc k) acc h =
    ground (arith, length-digits f (n / 10) k ((b'0' + n % 10) ∷ acc))

-- A number below 10 ^ 9 has nine digits at most.
abbrev pub limit : ℕ
limit = 1_000_000_000

length-decimal : (n : ℕ) → n < limit → length (decimal n) ≤ 9
unfolding decimal
length-decimal n h = omega (arith, length-digits (suc n) n 8 [])

length-append : (s t : Text) → length (s ++ t) ≡ length s + length t
length-append [] t = omega arith
length-append (c ∷ s) t = omega (arith, length-append s t)

-- gpuid.github.com/, and a name of 1 to 63 characters.
abbrev pub IsShort : Text → Type 0
IsShort k =
    (name : Text) × (k ≡ codes "gpuid.github.com/" ++ name)
    × (is_empty name ≡ false)
    × (length name ≤ 63)

gpu_label_of-IsShort :
    (multiple : Bool) (i : ℕ) (s : Serials) (j : ℕ)
    → i < limit
    → j < limit
    → IsShort (gpu_label_of multiple i s j)
gpu_label_of-IsShort multiple i s j h k = elim (Bool-cases (multiple && has_serial s)) [
  | inl e ↦ rw e (
    codes "chassis-" ++ (decimal i ++ (codes "-gpu-" ++ decimal j)),
    refl,
    refl,
    omega (
      arith,
      length-decimal i h,
      length-decimal j k,
      length-append (decimal i) (codes "-gpu-" ++ decimal j),
    ),
  )
  | inr e ↦ rw e (codes "gpu-" ++ decimal j, refl, refl, omega (arith, length-decimal j k))
]

length-permᴰ : {A : Type 0} {l r : List A} → Permᴰ l r → length l ≡ length r
length-permᴰ Permᴰ.nil = refl
length-permᴰ (Permᴰ.cons e q) = omega (arith, length-permᴰ q)
length-permᴰ (Permᴰ.swap e f) = omega arith
length-permᴰ (Permᴰ.trans q r) = length-permᴰ q ∙ length-permᴰ r

chassis_label_of-IsShort :
    (multiple : Bool) (i : ℕ) → i < limit → IsShort (chassis_label_of multiple i)
chassis_label_of-IsShort true i h =
    (codes "chassis-" ++ decimal i, refl, refl, omega (arith, length-decimal i h))
chassis_label_of-IsShort false i h = (codes "chassis", refl, refl, omega arith)

abbrev pub AreShort : Labels → Type 0
AreShort = All (λ (e : Text × Text). IsShort e.0)

set-AreShort :
    (k v : Text) (labels : Labels) → IsShort k → AreShort labels → AreShort (set k v labels)
set-AreShort k v labels h a = set-All (λ (e : Text × Text). IsShort e.0) k v labels h a

label_gpus-AreShort :
    (label : ℕ → Text)
    → ((j : ℕ) → j < limit → IsShort (label j))
    → (j : ℕ) (gs : List Text) (labels : Labels) → j + length gs ≤ limit
    → AreShort labels
    → AreShort (label_gpus label j gs labels)
unfolding label_gpus
label_gpus-AreShort label p j [] labels le h = h
label_gpus-AreShort label p j (g ∷ gs) labels le h = elim (Bool-cases (is_empty g)) [
  | inl e ↦ rw (e, label_gpus) (label_gpus-AreShort label p (suc j) gs labels (omega arith) h)
  | inr e ↦
      rw (e, label_gpus)
        (label_gpus-AreShort label p (suc j) gs _ (omega arith)
          (set-AreShort (label j) _ labels (p j (omega arith)) h))
]

chassis-AreShort :
    (multiple : Bool) (i : ℕ) (s : Serials) (labels : Labels)
    → i < limit
    → AreShort labels
    → AreShort (
        if has_serial s
        then set (chassis_label_of multiple i) (sanitize_label_value s.chassis) labels
        else labels)
chassis-AreShort multiple i s labels lt h = elim (Bool-cases (has_serial s)) [
  | inl e ↦ rw e (
      set-AreShort (chassis_label_of multiple i) _ labels (chassis_label_of-IsShort multiple i lt)
        h)
  | inr e ↦ rw e h
]

-- A unit has fewer GPUs than the limit.
abbrev pub Fits : Option Serials → Type 0
Fits none = Unit
Fits (some s) = length s.gpu ≤ limit

label_units-AreShort :
    (multiple : Bool) (i : ℕ) (rest : List (Option Serials)) (acc : Labels × ℕ)
    → i + length rest ≤ limit
    → All Fits rest
    → AreShort acc.0
    → AreShort (label_units multiple i rest acc).0
unfolding label_units label_unit
label_units-AreShort multiple i [] acc le f h = h
label_units-AreShort multiple i (none ∷ rest) acc le (_, f) h =
    label_units-AreShort multiple (suc i) rest acc (omega arith) f h
label_units-AreShort multiple i (some s ∷ rest) (labels, count) le (fits, f) h =
    label_units-AreShort multiple (suc i) rest _ (omega arith) f (
      label_gpus-AreShort (gpu_label_of multiple i s)
        (λ j lt. gpu_label_of-IsShort multiple i s j (omega arith) lt) 0 (sort_strings s.gpu) _
        (omega (arith, length-permᴰ (sort_permᴰ _ s.gpu)))
        (chassis-AreShort multiple i s labels (omega arith) h))

-- With at most 10 ^ 9 units, and as many GPUs in each, every label is gpuid.github.com/ and a name
-- of 1 to 63 characters, which are as many as Kubernetes allows.
pub calculate_gpu_labels-AreShort :
    (serials : List (Option Serials))
    → length serials ≤ limit
    → All Fits serials
    → AreShort (calculate_gpu_labels serials)
unfolding calculate_gpu_labels label_count
calculate_gpu_labels-AreShort [] le f = tt
calculate_gpu_labels-AreShort (x ∷ xs) le f =
    let acc = label_units (ltb 1 (length (x ∷ xs))) 0 (sort less (x ∷ xs)) ([], 0) in
    let q = sort_permᴰ less (x ∷ xs) in
    let h : AreShort acc.0 =
      label_units-AreShort (ltb 1 (length (x ∷ xs))) 0 (sort less (x ∷ xs)) ([], 0)
        (omega (arith, length-permᴰ q)) (All-permᴰ Fits (Permᴰ.symm q) f) tt in
    elim (Bool-cases (ltb 0 acc.1)) [
      | inl e ↦ rw e (
          set-AreShort chassis_count_label (decimal acc.1) acc.0
            (codes "chassis-count", refl, refl, omega arith) h)
      | inr e ↦ rw e h
    ]
