-- ===== src/Node/Labels/Lookup.antt =====
-- Every GPU and every chassis with a serial finds its label in the result.
use gpuid.Base.{
  ℕ, zero, suc, ◌+◌, ◌<◌, ◌≡◌, refl, ◌∙◌, true, false, List, [], ◌∷◌, arith, some, Text, text_eq,
  text_eq_refl, is_empty, lookup, lookup-set, get_elem?,
}
use gpuid.Node.Sanitize.{sanitize_label_value}
use gpuid.Node.Labels.{Labels, label_gpus}

-- A key that the loop does not write keeps its value.
pub label_gpus-other :
    (label : ℕ → Text) (k : Text) (j : ℕ) (gs : List Text) (labels : Labels)
    → ((n : ℕ) → text_eq (label n) k ≡ false)
    → lookup k (label_gpus label j gs labels) ≡ lookup k labels
unfolding label_gpus
label_gpus-other label k j [] labels h = refl
label_gpus-other label k j (g ∷ gs) labels h =
    label_gpus-other label k (suc j) gs _ h
    ∙ ground (arith, lookup-set k (label j) (sanitize_label_value g) labels, h j)

label_gpus-later :
    (label : ℕ → Text) (i j : ℕ) (gs : List Text) (labels : Labels)
    → ((m n : ℕ) → text_eq (label m) (label n) ≡ true → m ≡ n)
    → i < j
    → lookup (label i) (label_gpus label j gs labels) ≡ lookup (label i) labels
unfolding label_gpus
label_gpus-later label i j [] labels inj h = refl
label_gpus-later label i j (g ∷ gs) labels inj h =
    label_gpus-later label i (suc j) gs _ inj (omega arith)
    ∙ ground (arith, lookup-set (label i) (label j) (sanitize_label_value g) labels, inj j i)

-- The GPU at position n of the list has its value under its own label.
pub label_gpus-lookup :
    (label : ℕ → Text) (j n : ℕ) (gs : List Text) (labels : Labels) (g : Text)
    → ((i k : ℕ) → text_eq (label i) (label k) ≡ true → i ≡ k)
    → get_elem? gs n ≡ some g
    → is_empty g ≡ false
    → lookup (label (j + n)) (label_gpus label j gs labels) ≡ some (sanitize_label_value g)
unfolding label_gpus
label_gpus-lookup label j n [] labels g inj e h = cc
label_gpus-lookup label j zero (x ∷ gs) labels g inj e h =
    let same : x ≡ g = ground (arith, e) in
    let here : j + 0 ≡ j = omega arith in
    rw (here, same, h)
      (label_gpus-later label j (suc j) gs _ inj (omega arith)
        ∙ rw
            (lookup-set (label j) (label j) (sanitize_label_value g) labels, text_eq_refl (label j))
            refl)
label_gpus-lookup label j (suc n) (x ∷ gs) labels g inj e h =
    let shift : j + suc n ≡ suc j + n = omega arith in
    rw shift (label_gpus-lookup label (suc j) n gs _ g inj e h)
