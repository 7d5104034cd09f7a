-- ===== src/Node/Labels/Single.antt =====
-- A node with one unit: no index in the chassis label nor in the GPU labels.
use gpuid.Base.{
  ℕ, ◌+◌, ◌≡◌, refl, subst, false, [], ◌∷◌, arith, none, some, Text, codes, text_eq, text_eq_refl,
  is_empty, lookup, set, lookup-set, sort, sort_strings, get_elem?, if◌then◌else◌, decimal,
  Bool-cases, inl, inr,
}
use gpuid.Gpu.Serials.{Serials}
use gpuid.Node.Sanitize.{sanitize_label_value}
use gpuid.Node.Labels.{
  Labels, label_gpus, label_unit, label_units, label_count, calculate_gpu_labels, has_serial,
  gpu_label, chassis_label, chassis_count_label,
}
use gpuid.Node.Labels.Keys.{gpu_label-injective}
use gpuid.Node.Labels.Lookup.{label_gpus-other, label_gpus-lookup}

count_apart : text_eq chassis_count_label chassis_label ≡ false
unfolding text_eq
count_apart = refl

count_apart_gpu : (j : ℕ) → text_eq chassis_count_label (gpu_label j) ≡ false
unfolding text_eq
count_apart_gpu j = refl

gpu_apart_chassis : (n : ℕ) → text_eq (gpu_label n) chassis_label ≡ false
unfolding text_eq
gpu_apart_chassis n = refl

gpu_apart_count : (n : ℕ) → text_eq (gpu_label n) chassis_count_label ≡ false
unfolding text_eq
gpu_apart_count n = refl

decimal-one : decimal 1 ≡ codes "1"
unfolding decimal
decimal-one = refl

module _ (s : Serials) where
  -- The labels before the loop over the GPUs.
  chassis_labels : Labels
  chassis_labels =
      if has_serial s then set chassis_label (sanitize_label_value s.chassis) [] else []

  gpu_labels : Labels
  unfolding chassis_labels
  gpu_labels = label_gpus gpu_label 0 (sort_strings s.gpu) chassis_labels

  calculate_single :
      calculate_gpu_labels (some s ∷ [])
      ≡ (if has_serial s then set chassis_count_label (decimal 1) gpu_labels else gpu_labels)
  unfolding calculate_gpu_labels label_units label_unit label_count gpu_labels sort
  calculate_single = elim (Bool-cases (has_serial s)) [ inl e ↦ rw e refl | inr e ↦ rw e refl ]

  lookup-gpu_labels :
      (k : Text)
      → ((n : ℕ) → text_eq (gpu_label n) k ≡ false)
      → lookup k gpu_labels ≡ lookup k chassis_labels
  unfolding gpu_labels
  lookup-gpu_labels k h = label_gpus-other gpu_label k 0 (sort_strings s.gpu) chassis_labels h

  lookup-chassis_label :
      lookup chassis_label chassis_labels
      ≡ (if has_serial s then some (sanitize_label_value s.chassis) else none)
  unfolding chassis_labels lookup set text_eq
  lookup-chassis_label = ground arith

  lookup-chassis_count_label : lookup chassis_count_label chassis_labels ≡ none
  unfolding chassis_labels lookup set text_eq
  lookup-chassis_count_label = ground arith

  gpu_label-written :
      (j : ℕ) (g : Text)
      → get_elem? (sort_strings s.gpu) j ≡ some g
      → is_empty g ≡ false
      → lookup (gpu_label j) gpu_labels ≡ some (sanitize_label_value g)
  unfolding gpu_labels
  gpu_label-written j g found full =
      let here : 0 + j ≡ j = omega arith in
      subst (λ n. lookup (gpu_label n) gpu_labels ≡ some (sanitize_label_value g)) here
        (label_gpus-lookup gpu_label 0 j (sort_strings s.gpu) chassis_labels g gpu_label-injective
          found full)

  -- Of one unit, the chassis label and the count are there exactly if the chassis has a serial.
  pub calculate_gpu_labels-single :
      (lookup chassis_label (calculate_gpu_labels (some s ∷ []))
        ≡ (if has_serial s then some (sanitize_label_value s.chassis) else none))
      × (lookup chassis_count_label (calculate_gpu_labels (some s ∷ []))
          ≡ (if has_serial s then some (codes "1") else none))
  calculate_gpu_labels-single = rw calculate_single (
    ground (
      arith,
      lookup-set chassis_label chassis_count_label (decimal 1) gpu_labels,
      count_apart,
      lookup-gpu_labels chassis_label gpu_apart_chassis,
      lookup-chassis_label,
    ),
    ground (
      arith,
      lookup-set chassis_count_label chassis_count_label (decimal 1) gpu_labels,
      text_eq_refl chassis_count_label,
      lookup-gpu_labels chassis_count_label gpu_apart_count,
      lookup-chassis_count_label,
      decimal-one,
    ),
  )

  -- Of one unit, the GPU at index j, by sorted serials, is under gpu-j, if its serial is not empty.
  pub calculate_gpu_labels-single_gpu :
      (j : ℕ) (g : Text)
      → get_elem? (sort_strings s.gpu) j ≡ some g
      → is_empty g ≡ false
      → lookup (gpu_label j) (calculate_gpu_labels (some s ∷ [])) ≡ some (sanitize_label_value g)
  calculate_gpu_labels-single_gpu j g found full = rw calculate_single (
      ground (
        arith,
        lookup-set (gpu_label j) chassis_count_label (decimal 1) gpu_labels,
        count_apart_gpu j,
        gpu_label-written j g found full,
      ))
