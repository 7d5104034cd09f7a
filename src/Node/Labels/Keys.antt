-- ===== src/Node/Labels/Keys.antt =====
-- The keys of the labels: which of them can be equal.
use gpuid.Base.{
  ℕ, ◌≡◌, refl, ap, sym, ◌∙◌, true, false, [], ◌∷◌, ◌++◌, arith, every, is_digit, Text, codes,
  text_eq, text_eq_iff, is_empty, decimal, decimal-injective, decimal-every, decimal-is_empty,
  append-nil,
}
use gpuid.Node.Labels.{chassis_label_at, gpu_label, gpu_label_at, chassis_count_label}

-- Two texts with a common start differ where their rests do.
text_eq-append : (p s t : Text) → text_eq (p ++ s) (p ++ t) ≡ text_eq s t
unfolding text_eq
text_eq-append [] s t = refl
text_eq-append (c ∷ p) s t = ground (arith, text_eq-append p s t)

-- Digits before a character that is none end at one place.
module _ (c d : ℕ) where
  digits_split :
      (a b s t : Text)
      → every is_digit a ≡ true
      → every is_digit b ≡ true
      → is_digit c ≡ false
      → is_digit d ≡ false
      → text_eq (a ++ c ∷ s) (b ++ d ∷ t) ≡ true
      → (a ≡ b) × (text_eq s t ≡ true)
  unfolding text_eq
  digits_split [] [] s t ha hb hc hd e = (refl, ground arith)
  digits_split [] (y ∷ b) s t ha hb hc hd e = absurd (ground arith)
  digits_split (x ∷ a) [] s t ha hb hc hd e = absurd (ground arith)
  digits_split (x ∷ a) (y ∷ b) s t ha hb hc hd e =
      let (p, q) = digits_split a b s t (ground arith) (ground arith) hc hd (ground arith) in
      (ground arith, q)

digits_stop :
    (a b s : Text) (c : ℕ)
    → every is_digit b ≡ true
    → is_digit c ≡ false
    → text_eq (a ++ c ∷ s) b ≡ false
unfolding text_eq
digits_stop [] [] s c hb hc = refl
digits_stop [] (y ∷ b) s c hb hc = ground arith
digits_stop (x ∷ a) [] s c hb hc = refl
digits_stop (x ∷ a) (y ∷ b) s c hb hc = ground (arith, digits_stop a b s c)

-- A text that begins with a digit is none that begins otherwise.
digit_first :
    (a s t : Text) (c : ℕ)
    → every is_digit a ≡ true
    → is_empty a ≡ false
    → is_digit c ≡ false
    → text_eq (a ++ s) (c ∷ t) ≡ false
unfolding text_eq
digit_first [] s t c h k hc = cc
digit_first (x ∷ a) s t c h k hc = ground arith

pub gpu_label-injective : (i j : ℕ) → text_eq (gpu_label i) (gpu_label j) ≡ true → i ≡ j
unfolding text_eq
gpu_label-injective i j e = decimal-injective i j ((text_eq_iff (decimal i) (decimal j)).0 e)

pub chassis_label_at-injective :
    (i j : ℕ) → text_eq (chassis_label_at i) (chassis_label_at j) ≡ true → i ≡ j
unfolding text_eq
chassis_label_at-injective i j e = decimal-injective i j ((text_eq_iff (decimal i) (decimal j)).0 e)

pub gpu_label_at-injective :
    (i j i' j' : ℕ) → text_eq (gpu_label_at i j) (gpu_label_at i' j') ≡ true → (i ≡ i') × (j ≡ j')
gpu_label_at-injective i j i' j' e =
    let (p, q) =
      digits_split b'-' b'-' (decimal i) (decimal i') (codes "gpu-" ++ decimal j)
        (codes "gpu-" ++ decimal j') (decimal-every i) (decimal-every i') refl refl
        (sym (text_eq-append (codes "gpuid.github.com/chassis-") _ _) ∙ e) in
    (
      decimal-injective i i' p,
      decimal-injective j j'
          ((text_eq_iff (decimal j) (decimal j')).0 (sym (text_eq-append (codes "gpu-") _ _) ∙ q)),
    )

pub gpu_label-ne-gpu_label_at : (i j k : ℕ) → text_eq (gpu_label k) (gpu_label_at i j) ≡ false
unfolding text_eq
gpu_label-ne-gpu_label_at i j k = refl

pub chassis_label_at-ne-gpu_label_at :
    (i j k : ℕ) → text_eq (gpu_label_at i j) (chassis_label_at k) ≡ false
chassis_label_at-ne-gpu_label_at i j k =
    text_eq-append (codes "gpuid.github.com/chassis-") _ _
    ∙ digits_stop (decimal i) (decimal k) (codes "gpu-" ++ decimal j) b'-' (decimal-every k) refl

pub chassis_count_label-ne-gpu_label_at :
    (i j : ℕ) → text_eq (gpu_label_at i j) chassis_count_label ≡ false
chassis_count_label-ne-gpu_label_at i j =
    text_eq-append (codes "gpuid.github.com/chassis-") _ _
    ∙ digit_first (decimal i) _ (codes "ount") b'c' (decimal-every i) (decimal-is_empty i) refl

pub chassis_count_label-ne-chassis_label_at :
    (i : ℕ) → text_eq (chassis_label_at i) chassis_count_label ≡ false
chassis_count_label-ne-chassis_label_at i =
    sym (ap (λ d. text_eq d chassis_count_label) (append-nil (chassis_label_at i)))
    ∙ (text_eq-append (codes "gpuid.github.com/chassis-") _ _
        ∙ digit_first (decimal i) [] (codes "ount") b'c' (decimal-every i) (decimal-is_empty i)
            refl)

pub gpu_label-ne-chassis_label_at : (j k : ℕ) → text_eq (gpu_label j) (chassis_label_at k) ≡ false
unfolding text_eq
gpu_label-ne-chassis_label_at j k = refl
