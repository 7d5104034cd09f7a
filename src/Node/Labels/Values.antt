-- ===== src/Node/Labels/Values.antt =====
-- What every entry of the labels is like: one entry for a key, in gpuid's namespace, with a value
-- that Kubernetes accepts.
use gpuid.Base.{
  ℕ, suc, ◌≡◌, refl, Bool, true, false, List, [], ◌∷◌, ◌++◌, arith, ltb, Option, none, some, All,
  every, is_digit, Text, codes, is_empty, has_prefix, set, set-All, set-IsMap, IsMap, sort,
  sort_strings, decimal, decimal-every, decimal-is_empty, if◌then◌else◌, Bool-cases, inl, inr,
  length,
}
use gpuid.Gpu.Serials.{Serials}
use gpuid.Node.Sanitize.{sanitize_label_value, label_value_regex, ends_well}
use gpuid.Node.Sanitize.Laws.{sanitize_valid}
use gpuid.Node.Labels.{
  Labels, label_ns, less, label_gpus, label_unit, label_units, label_count, calculate_gpu_labels,
  gpu_label_of, chassis_label_of, chassis_count_label, has_serial,
}

-- What a label key of gpuid starts with.
abbrev pub gpuid_prefix : Text
gpuid_prefix = codes "gpuid.github.com/"

abbrev pub IsOwnLabel : Text × Text → Type 0
IsOwnLabel e = (has_prefix e.0 gpuid_prefix ≡ true) × (label_value_regex e.1 ≡ true)

abbrev pub AreOwnLabels : Labels → Type 0
AreOwnLabels labels = IsMap labels × All IsOwnLabel labels

set-AreOwnLabels :
    (k v : Text) (labels : Labels)
    → IsOwnLabel (k, v)
    → AreOwnLabels labels
    → AreOwnLabels (set k v labels)
set-AreOwnLabels k v labels h (m, a) = (set-IsMap k v labels m, set-All IsOwnLabel k v labels h a)

gpu_label_of-prefix :
    (multiple : Bool) (i : ℕ) (s : Serials) (j : ℕ)
    → has_prefix (gpu_label_of multiple i s j) gpuid_prefix ≡ true
unfolding has_prefix
gpu_label_of-prefix multiple i s j = ground arith

chassis_label_of-prefix :
    (multiple : Bool) (i : ℕ) → has_prefix (chassis_label_of multiple i) gpuid_prefix ≡ true
unfolding has_prefix
chassis_label_of-prefix multiple i = ground arith

label_gpus-AreOwnLabels :
    (label : ℕ → Text)
    → ((j : ℕ) → has_prefix (label j) gpuid_prefix ≡ true)
    → (j : ℕ) (gs : List Text) (labels : Labels) → AreOwnLabels labels
    → AreOwnLabels (label_gpus label j gs labels)
unfolding label_gpus
label_gpus-AreOwnLabels label p j [] labels h = h
label_gpus-AreOwnLabels label p j (g ∷ gs) labels h = elim (Bool-cases (is_empty g)) [
  | inl e ↦ rw (e, label_gpus) (label_gpus-AreOwnLabels label p (suc j) gs labels h)
  | inr e ↦
      rw (e, label_gpus)
        (label_gpus-AreOwnLabels label p (suc j) gs _
          (set-AreOwnLabels (label j) _ labels (p j, sanitize_valid g) h))
]

chassis-AreOwnLabels :
    (multiple : Bool) (i : ℕ) (s : Serials) (labels : Labels)
    → AreOwnLabels labels
    → AreOwnLabels (
        if has_serial s
        then set (chassis_label_of multiple i) (sanitize_label_value s.chassis) labels
        else labels)
chassis-AreOwnLabels multiple i s labels h = elim (Bool-cases (has_serial s)) [
  | inl e ↦ rw e (
      set-AreOwnLabels (chassis_label_of multiple i) _ labels
        (chassis_label_of-prefix multiple i, sanitize_valid s.chassis) h)
  | inr e ↦ rw e h
]

label_units-AreOwnLabels :
    (multiple : Bool) (i : ℕ) (rest : List (Option Serials)) (acc : Labels × ℕ)
    → AreOwnLabels acc.0
    → AreOwnLabels (label_units multiple i rest acc).0
unfolding label_units label_unit
label_units-AreOwnLabels multiple i [] acc h = h
label_units-AreOwnLabels multiple i (none ∷ rest) acc h =
    label_units-AreOwnLabels multiple (suc i) rest acc h
label_units-AreOwnLabels multiple i (some s ∷ rest) (labels, count) h =
    label_units-AreOwnLabels multiple (suc i) rest _ (
      label_gpus-AreOwnLabels (gpu_label_of multiple i s) (gpu_label_of-prefix multiple i s) 0
        (sort_strings s.gpu) _ (chassis-AreOwnLabels multiple i s labels h))

digits-end : (s : Text) → every is_digit s ≡ true → is_empty s ≡ false → ends_well s ≡ true
unfolding ends_well
digits-end [] h k = cc
digits-end (c ∷ []) h k = ground arith
digits-end (c ∷ d ∷ s) h k = ground (arith, digits-end (d ∷ s))

digits-valid :
    (s : Text) → every is_digit s ≡ true → is_empty s ≡ false → label_value_regex s ≡ true
unfolding label_value_regex
digits-valid [] h k = cc
digits-valid (c ∷ []) h k = ground arith
digits-valid (c ∷ d ∷ s) h k = ground (arith, digits-end (d ∷ s))

-- Every label that is calculated has a key that begins with gpuid.github.com/ and a value that
-- labelValueRegex accepts, and no key occurs twice.
pub calculate_gpu_labels-AreOwnLabels :
    (serials : List (Option Serials)) → AreOwnLabels (calculate_gpu_labels serials)
unfolding calculate_gpu_labels label_count
calculate_gpu_labels-AreOwnLabels [] = (tt, tt)
calculate_gpu_labels-AreOwnLabels (x ∷ xs) =
    let acc = label_units (ltb 1 (length (x ∷ xs))) 0 (sort less (x ∷ xs)) ([], 0) in
    let h =
      label_units-AreOwnLabels (ltb 1 (length (x ∷ xs))) 0 (sort less (x ∷ xs)) ([], 0) (tt, tt) in
    elim (Bool-cases (ltb 0 acc.1)) [
      | inl e ↦ rw e (
          set-AreOwnLabels chassis_count_label (decimal acc.1) acc.0
            (
              unfold has_prefix in refl,
              digits-valid (decimal acc.1) (decimal-every acc.1) (decimal-is_empty acc.1),
            )
            h)
      | inr e ↦ rw e h
    ]

-- In the namespace as needsLabelUpdate and the patch see it, which ask for no slash.
abbrev pub IsGoodLabel : Text × Text → Type 0
IsGoodLabel e = (has_prefix e.0 label_ns ≡ true) × (label_value_regex e.1 ≡ true)

abbrev pub AreGoodLabels : Labels → Type 0
AreGoodLabels labels = IsMap labels × All IsGoodLabel labels

has_prefix-append : (p q k : Text) → has_prefix k (p ++ q) ≡ true → has_prefix k p ≡ true
unfolding has_prefix
has_prefix-append [] q [] h = refl
has_prefix-append [] q (d ∷ k) h = refl
has_prefix-append (c ∷ p) q [] h = h
has_prefix-append (c ∷ p) q (d ∷ k) h = ground (arith, has_prefix-append p q k)

own-AreGood : (labels : Labels) → All IsOwnLabel labels → All IsGoodLabel labels
own-AreGood [] h = tt
own-AreGood ((k, v) ∷ labels) ((own, valid), h) =
    ((has_prefix-append label_ns (codes "/") k own, valid), own-AreGood labels h)

pub calculate_gpu_labels-AreGoodLabels :
    (serials : List (Option Serials)) → AreGoodLabels (calculate_gpu_labels serials)
calculate_gpu_labels-AreGoodLabels serials =
    let (one, own) = calculate_gpu_labels-AreOwnLabels serials in (one, own-AreGood _ own)
