-- ===== src/Base/Decimal.antt =====
-- fmt's %d, %02d and %04d on numbers that are not negative.
use gpuid.Base.Tests.{
  ℕ, zero, suc, ◌+◌, ◌-◌, ◌*◌, ◌/◌, ◌%◌, ◌<◌, ◌≡◌, refl, ap, sym, ◌∙◌, Bool, true, false, ◌&&◌, [],
  ◌∷◌, arith, ltb, leb, if◌then◌else◌,
}
use gpuid.Base.Lists.{every, length}
use gpuid.Base.Strings.{Text, is_empty}

-- The digits of n before those in acc; fuel above n is enough.
unfoldable pub digits : ℕ → ℕ → Text → Text
digits zero n acc = acc
digits (suc f) n acc =
    let rest = digits f (n / 10) ((b'0' + n % 10) ∷ acc) in
    if ltb n 10 then (b'0' + n) ∷ acc else rest

unfoldable pub decimal : ℕ → Text
unfolding digits
decimal n = digits (suc n) n []

-- Zeros on the left up to the width.
unfoldable pub pad : ℕ → Text → Text
pad zero s = s
pad (suc w) s = if ltb w (length s) then s else b'0' ∷ pad w s

abbrev pub is_digit : ℕ → Bool
is_digit c = leb b'0' c && leb c b'9'

-- The number that digits spell behind n.
pub value : ℕ → Text → ℕ
value n [] = n
value n (c ∷ s) = value (n * 10 + (c - b'0')) s

value-digits : (f n : ℕ) (acc : Text) → n < f → value 0 (digits f n acc) ≡ value n acc
unfolding digits value
value-digits zero n acc h = absurd (omega arith)
value-digits (suc f) n acc h = ground (arith, value-digits f (n / 10) ((b'0' + n % 10) ∷ acc))

value-decimal : (n : ℕ) → value 0 (decimal n) ≡ n
unfolding decimal value
value-decimal n = value-digits (suc n) n [] (omega arith)

-- Different numbers have different prints.
pub decimal-injective : (m n : ℕ) → decimal m ≡ decimal n → m ≡ n
decimal-injective m n e = sym (value-decimal m) ∙ (ap (value 0) e ∙ value-decimal n)

digits-every :
    (f n : ℕ) (acc : Text) → every is_digit acc ≡ true → every is_digit (digits f n acc) ≡ true
unfolding digits
digits-every zero n acc h = h
digits-every (suc f) n acc h = ground (arith, digits-every f (n / 10) ((b'0' + n % 10) ∷ acc))

pub decimal-every : (n : ℕ) → every is_digit (decimal n) ≡ true
unfolding decimal
decimal-every n = digits-every (suc n) n [] refl

digits-is_empty : (f n : ℕ) (acc : Text) → is_empty acc ≡ false → is_empty (digits f n acc) ≡ false
unfolding digits
digits-is_empty zero n acc h = h
digits-is_empty (suc f) n acc h = ground (arith, digits-is_empty f (n / 10) ((b'0' + n % 10) ∷ acc))

pub decimal-is_empty : (n : ℕ) → is_empty (decimal n) ≡ false
unfolding decimal digits
decimal-is_empty n = ground (arith, digits-is_empty n (n / 10) ((b'0' + n % 10) ∷ []) refl)
