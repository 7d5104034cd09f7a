-- ===== src/Base/Strings.antt =====
-- Go strings as lists of code points, with what the program uses of package strings.
use Prim.Native.Char.{code}
use Prim.Native.String.{String}
use gpuid.Base.Tests.{
  map, ◌+◌, ℕ, ◌≡◌, ◌↔◌, refl, subst, Bool, true, false, ◌&&◌, ◌||◌, List, [], ◌∷◌, ◌++◌, arith,
  ltb, leb, ◌==◌, if◌then◌else◌, Option, none, some, ◌⊎◌, inl, inr,
}

abbrev pub Text : Type 0
Text = List ℕ

abbrev pub codes : String → Text
codes String.[] = []
codes (String.◌∷◌ c s) = code c ∷ codes s

-- s == t
unfoldable pub text_eq : Text → Text → Bool
text_eq [] [] = true
text_eq [] (d ∷ t) = false
text_eq (c ∷ s) [] = false
text_eq (c ∷ s) (d ∷ t) = c == d && text_eq s t

text_eq→≡ : (s t : Text) → text_eq s t ≡ true → s ≡ t
unfolding text_eq
text_eq→≡ [] [] h = refl
text_eq→≡ [] (d ∷ t) h = cc
text_eq→≡ (c ∷ s) [] h = cc
text_eq→≡ (c ∷ s) (d ∷ t) h = ground (arith, text_eq→≡ s t)

pub text_eq_refl : (s : Text) → text_eq s s ≡ true
unfolding text_eq
text_eq_refl [] = refl
text_eq_refl (c ∷ s) = ground (arith, text_eq_refl s)

pub text_eq_iff : (s t : Text) → (text_eq s t ≡ true) ↔ (s ≡ t)
text_eq_iff s t = (text_eq→≡ s t, λ e. subst (λ r. text_eq s r ≡ true) e (text_eq_refl s))

abbrev pub is_empty : Text → Bool
is_empty [] = true
is_empty (c ∷ s) = false

-- s < t. Bytes of UTF-8 compare as the code points do.
unfoldable pub text_ltb : Text → Text → Bool
text_ltb s [] = false
text_ltb [] (d ∷ t) = true
text_ltb (c ∷ s) (d ∷ t) = ltb c d || (c == d && text_ltb s t)

pub text_ltb_trans :
    (s t r : Text) → text_ltb s t ≡ true → text_ltb t r ≡ true → text_ltb s r ≡ true
unfolding text_ltb
text_ltb_trans s [] r h k = cc
text_ltb_trans s (d ∷ t) [] h k = cc
text_ltb_trans [] (d ∷ t) (e ∷ r) h k = refl
text_ltb_trans (c ∷ s) (d ∷ t) (e ∷ r) h k = ground (arith, text_ltb_trans s t r)

pub text_ltb_asymm : (s t : Text) → text_ltb s t ≡ true → text_ltb t s ≡ false
unfolding text_ltb
text_ltb_asymm s [] h = cc
text_ltb_asymm [] (d ∷ t) h = refl
text_ltb_asymm (c ∷ s) (d ∷ t) h = ground (arith, text_ltb_asymm s t)

pub text_ltb_total : (s t : Text) → (text_ltb s t ≡ true) ⊎ ((text_ltb t s ≡ true) ⊎ (s ≡ t))
unfolding text_ltb
text_ltb_total [] [] = inr (inr refl)
text_ltb_total [] (d ∷ t) = inl refl
text_ltb_total (c ∷ s) [] = inr (inl refl)
text_ltb_total (c ∷ s) (d ∷ t) = ground (arith, text_ltb_total s t)

-- strings.HasPrefix
unfoldable pub has_prefix : Text → Text → Bool
has_prefix s [] = true
has_prefix [] (d ∷ p) = false
has_prefix (c ∷ s) (d ∷ p) = c == d && has_prefix s p

unfoldable pub strip_prefix : Text → Text → Option Text
strip_prefix s [] = some s
strip_prefix [] (d ∷ p) = none
strip_prefix (c ∷ s) (d ∷ p) = if c == d then strip_prefix s p else none

-- strings.TrimPrefix
unfoldable pub trim_prefix : Text → Text → Text
unfolding strip_prefix
trim_prefix s p = elim (strip_prefix s p) [ none ↦ s | some r ↦ r ]

-- strings.Split by one character: always at least one part.
unfoldable pub split_on : ℕ → Text → Text → List Text
split_on sep cur [] = cur ∷ []
split_on sep cur (c ∷ s) = elim (c == sep) [
  | true ↦ cur ∷ split_on sep [] s
  | false ↦ split_on sep (cur ++ c ∷ []) s
]

pub split_on_sep :
    (sep : ℕ) (cur s : Text) (c : ℕ)
    → (c == sep) ≡ true
    → split_on sep cur (c ∷ s) ≡ cur ∷ split_on sep [] s
unfolding split_on
split_on_sep sep cur s c e = rw (e, split_on) refl

pub split_on_other :
    (sep : ℕ) (cur s : Text) (c : ℕ)
    → (c == sep) ≡ false
    → split_on sep cur (c ∷ s) ≡ split_on sep (cur ++ c ∷ []) s
unfolding split_on
split_on_other sep cur s c e = rw (e, split_on) refl

abbrev pub split : Text → ℕ → List Text
split s sep = split_on sep [] s

-- unicode.IsSpace
unfoldable pub is_space : ℕ → Bool
is_space c =
    (leb 9 c && leb c 13)
    || c == 32
    || c == 0x85
    || c == 0xa0
    || c == 0x1680
    || (leb 0x2000 c && leb c 0x200a)
    || c == 0x2028
    || c == 0x2029
    || c == 0x202f
    || c == 0x205f
    || c == 0x3000

-- Drops the longest prefix, or suffix, whose characters pass the test.
module _ (p : ℕ → Bool) where
  unfoldable pub trim_start : Text → Text
  trim_start [] = []
  trim_start (c ∷ s) = if p c then trim_start s else c ∷ s

  unfoldable pub trim_end : Text → Text
  trim_end [] = []
  trim_end (c ∷ s) = elim (trim_end s) [ [] ↦ if p c then [] else c ∷ [] | d ∷ r ↦ c ∷ d ∷ r ]

-- strings.TrimSpace
unfoldable pub trim_space : Text → Text
unfolding is_space trim_start trim_end
trim_space s = trim_end is_space (trim_start is_space s)

-- strings.TrimSpace(s) == ""
unfoldable pub is_blank : Text → Bool
unfolding trim_space
is_blank s = is_empty (trim_space s)

pub text_eq_comm : (s t : Text) → text_eq s t ≡ text_eq t s
unfolding text_eq
text_eq_comm [] [] = refl
text_eq_comm [] (d ∷ t) = refl
text_eq_comm (c ∷ s) [] = refl
text_eq_comm (c ∷ s) (d ∷ t) = ground (arith, text_eq_comm s t)

-- strings.ToLower; `table` is its table beyond ASCII
unfoldable pub to_lower : (ℕ → ℕ) → Text → Text
to_lower table s =
    map (λ c. if leb b'A' c && leb c b'Z' then c + 32 else if ltb c 128 then c else table c) s
