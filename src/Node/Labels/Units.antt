-- ===== src/Node/Labels/Units.antt =====
-- With several units, each unit with a serial finds its own labels in the result.
use gpuid.Base.{
  ℕ, zero, suc, ◌+◌, ◌<◌, ◌≡◌, ◌≢◌, refl, subst, ◌∙◌, true, false, List, [], ◌∷◌, arith, ltb,
  Option, none, some, Text, text_eq, text_eq_refl, text_eq_comm, is_empty, lookup, lookup-set, sort,
  sort_strings, length, get_elem?, decimal, ◌++◌, codes,
}
use gpuid.Gpu.Serials.{Serials}
use gpuid.Node.Sanitize.{sanitize_label_value}
use gpuid.Node.Labels.{
  Labels, less, label_unit, label_units, label_count, calculate_gpu_labels, has_serial,
  gpu_label_at, chassis_label_at, gpu_label_of, chassis_count_label,
}
use gpuid.Node.Labels.Keys.{
  gpu_label_at-injective, chassis_label_at-injective, gpu_label-ne-gpu_label_at,
  chassis_label_at-ne-gpu_label_at, chassis_count_label-ne-gpu_label_at,
  chassis_count_label-ne-chassis_label_at, gpu_label-ne-chassis_label_at, gpu_label-injective,
}
use gpuid.Node.Labels.Lookup.{label_gpus-other, label_gpus-lookup}

-- A key that only the unit at index i writes.
abbrev IsOwn : Text → ℕ → Type 0
IsOwn k i =
    (m : ℕ) (s : Serials) (acc : Labels × ℕ)
    → m ≢ i
    → lookup k (label_unit true m s acc).0 ≡ lookup k acc.0

module _ (k : Text) (i : ℕ) (own : IsOwn k i) where
  units-after :
      (j : ℕ) (rest : List (Option Serials)) (acc : Labels × ℕ)
      → i < j
      → lookup k (label_units true j rest acc).0 ≡ lookup k acc.0
  unfolding label_units
  units-after j [] acc h = refl
  units-after j (none ∷ rest) acc h = units-after (suc j) rest acc (omega arith)
  units-after j (some s ∷ rest) acc h =
      units-after (suc j) rest (label_unit true j s acc) (omega arith) ∙ own j s acc (omega arith)

  units-at :
      (j n : ℕ) (rest : List (Option Serials)) (acc : Labels × ℕ) (s : Serials) (v : Text)
      → j + n ≡ i
      → get_elem? rest n ≡ some (some s)
      → ((a : Labels × ℕ) → lookup k (label_unit true i s a).0 ≡ some v)
      → lookup k (label_units true j rest acc).0 ≡ some v
  unfolding label_units
  units-at j n [] acc s v e found writes = cc
  units-at j zero (x ∷ rest) acc s v e found writes =
      let here : j ≡ i = omega arith in
      let this : x ≡ some s = ground (arith, found) in
      rw (this, label_units, here) (units-after (suc i) rest _ (omega arith) ∙ writes acc)
  units-at j (suc n) (none ∷ rest) acc s v e found writes =
      units-at (suc j) n rest acc s v (omega arith) found writes
  units-at j (suc n) (some t ∷ rest) acc s v e found writes =
      units-at (suc j) n rest (label_unit true j t acc) s v (omega arith) found writes

  -- The label of the unit at index i of the sorted units is in the result.
  calculate-at :
      (serials : List (Option Serials)) (s : Serials) (v : Text)
      → 1 < length serials
      → get_elem? (sort less serials) i ≡ some (some s)
      → ((a : Labels × ℕ) → lookup k (label_unit true i s a).0 ≡ some v)
      → text_eq chassis_count_label k ≡ false
      → lookup k (calculate_gpu_labels serials) ≡ some v
  unfolding calculate_gpu_labels label_count
  calculate-at [] s v h found writes other = absurd (omega arith)
  calculate-at (x ∷ []) s v h found writes other = absurd (omega arith)
  calculate-at (x ∷ y ∷ serials) s v h found writes other =
      let acc = label_units true 0 (sort less (x ∷ y ∷ serials)) ([], 0) in
      let written : lookup k acc.0 ≡ some v =
        units-at 0 i (sort less (x ∷ y ∷ serials)) ([], 0) s v (omega arith) found writes in
      let several : ltb 1 (length (x ∷ y ∷ serials)) ≡ true = ground arith in
      rw several (ground (arith, written, lookup-set k chassis_count_label (decimal acc.1) acc.0))

gpu_label_of-other :
    (i m j n : ℕ) (s : Serials)
    → m ≢ i
    → text_eq (gpu_label_of true m s n) (gpu_label_at i j) ≡ false
gpu_label_of-other i m j n s h =
    ground (arith, gpu_label-ne-gpu_label_at i j n, gpu_label_at-injective m n i j)

gpu_label_at-IsOwn : (i j : ℕ) → IsOwn (gpu_label_at i j) i
unfolding label_unit
gpu_label_at-IsOwn i j m s (labels, count) h =
    label_gpus-other (gpu_label_of true m s) (gpu_label_at i j) 0 (sort_strings s.gpu) _
      (λ n. gpu_label_of-other i m j n s h)
    ∙ ground (
      arith,
      lookup-set (gpu_label_at i j) (chassis_label_at m) (sanitize_label_value s.chassis) labels,
      text_eq_comm (gpu_label_at i j) (chassis_label_at m),
      chassis_label_at-ne-gpu_label_at i j m,
    )

chassis_label_at-other :
    (i m n : ℕ) (s : Serials) → text_eq (gpu_label_of true m s n) (chassis_label_at i) ≡ false
chassis_label_at-other i m n s =
    ground (arith, gpu_label-ne-chassis_label_at n i, chassis_label_at-ne-gpu_label_at m n i)

chassis_label_at-IsOwn : (i : ℕ) → IsOwn (chassis_label_at i) i
unfolding label_unit
chassis_label_at-IsOwn i m s (labels, count) h =
    label_gpus-other (gpu_label_of true m s) (chassis_label_at i) 0 (sort_strings s.gpu) _
      (λ n. chassis_label_at-other i m n s)
    ∙ ground (
      arith,
      lookup-set (chassis_label_at i) (chassis_label_at m) (sanitize_label_value s.chassis) labels,
      chassis_label_at-injective m i,
    )

chassis_label_at-written :
    (i : ℕ) (s : Serials) (a : Labels × ℕ)
    → has_serial s ≡ true
    → lookup (chassis_label_at i) (label_unit true i s a).0 ≡ some (sanitize_label_value s.chassis)
unfolding label_unit
chassis_label_at-written i s (labels, count) known =
    label_gpus-other (gpu_label_of true i s) (chassis_label_at i) 0 (sort_strings s.gpu) _
      (λ n. chassis_label_at-other i i n s)
    ∙ ground (
      arith,
      lookup-set (chassis_label_at i) (chassis_label_at i) (sanitize_label_value s.chassis) labels,
      text_eq_refl (chassis_label_at i),
    )

gpu_label_of-injective :
    (i : ℕ) (s : Serials) (m n : ℕ)
    → text_eq (gpu_label_of true i s m) (gpu_label_of true i s n) ≡ true
    → m ≡ n
gpu_label_of-injective i s m n h =
    ground (arith, gpu_label_at-injective i m i n, gpu_label-injective m n)

gpu_label_at-written :
    (i j : ℕ) (s : Serials) (g : Text) (a : Labels × ℕ)
    → has_serial s ≡ true
    → get_elem? (sort_strings s.gpu) j ≡ some g
    → is_empty g ≡ false
    → lookup (gpu_label_at i j) (label_unit true i s a).0 ≡ some (sanitize_label_value g)
unfolding label_unit
gpu_label_at-written i j s g (labels, count) known found h =
    let label : gpu_label_of true i s (0 + j) ≡ gpu_label_at i j =
      let e : 0 + j ≡ j = omega arith in rw (e, known) refl in
    subst (λ k. lookup k (label_unit true i s (labels, count)).0 ≡ some (sanitize_label_value g))
      label
      (label_gpus-lookup (gpu_label_of true i s) 0 j (sort_strings s.gpu) _ g
        (gpu_label_of-injective i s) found h)

module _ (serials : List (Option Serials)) (i : ℕ) (s : Serials) (several : 1 < length serials)
    (found : get_elem? (sort less serials) i ≡ some (some s)) (known : has_serial s ≡ true) where
  -- Of several units, the one at index i of the sorted units has its chassis under chassis-i, if the
  -- chassis has a serial.
  pub calculate_gpu_labels-unit :
      lookup (codes "gpuid.github.com/chassis-" ++ decimal i) (calculate_gpu_labels serials)
      ≡ some (sanitize_label_value s.chassis)
  calculate_gpu_labels-unit =
      calculate-at (chassis_label_at i) i (chassis_label_at-IsOwn i) serials s _ several found
        (λ a. chassis_label_at-written i s a known)
        (text_eq_comm chassis_count_label (chassis_label_at i)
          ∙ chassis_count_label-ne-chassis_label_at i)

  -- Of several units, the one at index i of the sorted units has its GPU at index j, by sorted
  -- serials, under gpuid.github.com/chassis-i-gpu-j, if the chassis and the GPU have serials: no
  -- other unit writes that label.
  pub calculate_gpu_labels-unit_gpu :
      (j : ℕ) (g : Text)
      → get_elem? (sort_strings s.gpu) j ≡ some g
      → is_empty g ≡ false
      → lookup
          (codes "gpuid.github.com/chassis-" ++ (decimal i ++ (codes "-gpu-" ++ decimal j)))
          (calculate_gpu_labels serials)
        ≡ some (sanitize_label_value g)
  calculate_gpu_labels-unit_gpu j g at full =
      calculate-at (gpu_label_at i j) i (gpu_label_at-IsOwn i j) serials s _ several found
        (λ a. gpu_label_at-written i j s g a known at full)
        (text_eq_comm chassis_count_label (gpu_label_at i j)
          ∙ chassis_count_label-ne-gpu_label_at i j)
