-- ===== src/Node/Sanitize/Laws.antt =====
-- What sanitizeLabelValue returns: a valid label value always, and a valid one unchanged.
use gpuid.Base.{
  ℕ, ◌≡◌, refl, ap, Bool, true, false, [], ◌∷◌, map, arith, every, Text, codes, text_eq,
  text_eq_iff, is_empty, is_space, trim_start, trim_end, trim_space, Bool-cases, inl, inr,
}
use gpuid.Node.Sanitize.{
  is_alnum, is_label_char, ends_well, label_value_regex, not_set_default, replace_invalid, is_junk,
  cleaned, sanitize_label_value,
}

every-replace : (s : Text) → every is_label_char (map replace_invalid s) ≡ true
every-replace [] = refl
every-replace (c ∷ s) = ground (arith, every-replace s)

every-trim_start : (p q : ℕ → Bool) (s : Text) → every q s ≡ true → every q (trim_start p s) ≡ true
unfolding trim_start
every-trim_start p q [] h = refl
every-trim_start p q (c ∷ s) h = ground (arith, every-trim_start p q s)

every-trim_end : (p q : ℕ → Bool) (s : Text) → every q s ≡ true → every q (trim_end p s) ≡ true
unfolding trim_end
every-trim_end p q [] h = refl
every-trim_end p q (c ∷ s) h = ground (arith, every-trim_end p q s)

-- The last character that is kept is no junk.
ends_well-trim_end :
    (s : Text)
    → every is_label_char s ≡ true
    → is_empty (trim_end is_junk s) ≡ false
    → ends_well (trim_end is_junk s) ≡ true
unfolding trim_end ends_well
ends_well-trim_end [] h k = cc
ends_well-trim_end (c ∷ s) h k = ground (arith, ends_well-trim_end s)

-- The first character that is kept is no junk.
abbrev starts_well : Text → Bool
starts_well [] = true
starts_well (c ∷ s) = is_alnum c

starts_well-trim_start : (s : Text) → starts_well (trim_start is_junk s) ≡ true
unfolding trim_start
starts_well-trim_start [] = refl
starts_well-trim_start (c ∷ s) = ground (arith, starts_well-trim_start s)

starts_well-trim_end : (s : Text) → starts_well s ≡ true → starts_well (trim_end is_junk s) ≡ true
unfolding trim_end
starts_well-trim_end [] h = refl
starts_well-trim_end (c ∷ s) h = ground arith

label_value_regex_of :
    (s : Text) → starts_well s ≡ true → ends_well s ≡ true → label_value_regex s ≡ true
unfolding label_value_regex ends_well
label_value_regex_of [] h k = cc
label_value_regex_of (c ∷ []) h k = ground arith
label_value_regex_of (c ∷ d ∷ s) h k = ground arith

-- The check of the result never fails.
cleaned_valid : (s : Text) → is_empty (cleaned s) ≡ false → label_value_regex (cleaned s) ≡ true
unfolding cleaned
cleaned_valid s h =
    let r = trim_start is_junk (map replace_invalid s) in
    label_value_regex_of (trim_end is_junk r)
      (starts_well-trim_end r (starts_well-trim_start (map replace_invalid s)))
      (ends_well-trim_end r
        (every-trim_start is_junk is_label_char (map replace_invalid s) (every-replace s)) h)

-- A valid value has no white space to trim.
no_space_start : (s : Text) → label_value_regex s ≡ true → trim_start is_space s ≡ s
unfolding label_value_regex trim_start is_space
no_space_start [] h = refl
no_space_start (c ∷ []) h = ground arith
no_space_start (c ∷ d ∷ s) h = ground arith

ends_well-no_space : (s : Text) → ends_well s ≡ true → trim_end is_space s ≡ s
unfolding ends_well trim_end is_space
ends_well-no_space [] h = refl
ends_well-no_space (c ∷ []) h = ground arith
ends_well-no_space (c ∷ d ∷ s) h = ground (arith, ends_well-no_space (d ∷ s))

ends_well_of : (s : Text) → label_value_regex s ≡ true → ends_well s ≡ true
unfolding label_value_regex ends_well
ends_well_of [] h = h
ends_well_of (c ∷ []) h = h
ends_well_of (c ∷ d ∷ s) h = ground arith

trim_space_valid : (s : Text) → label_value_regex s ≡ true → trim_space s ≡ s
unfolding trim_space
trim_space_valid s h = rw (no_space_start s h) (ends_well-no_space s (ends_well_of s h))

na_valid : label_value_regex not_set_default ≡ true
unfolding label_value_regex ends_well
na_valid = refl

-- The result is what labelValueRegex accepts, for every text.
pub sanitize_valid : (s : Text) → label_value_regex (sanitize_label_value s) ≡ true
unfolding sanitize_label_value
sanitize_valid s = ground (arith, na_valid, cleaned_valid s, trim_space_valid (cleaned s))

replace_valid : (s : Text) → ends_well s ≡ true → map replace_invalid s ≡ s
unfolding ends_well
replace_valid [] h = refl
replace_valid (c ∷ []) h = ground arith
replace_valid (c ∷ d ∷ s) h = ground (arith, replace_valid (d ∷ s))

trim_end_valid : (s : Text) → ends_well s ≡ true → trim_end is_junk s ≡ s
unfolding ends_well trim_end
trim_end_valid [] h = refl
trim_end_valid (c ∷ []) h = ground arith
trim_end_valid (c ∷ d ∷ s) h = ground (arith, trim_end_valid (d ∷ s))

trim_start_valid : (s : Text) → label_value_regex s ≡ true → trim_start is_junk s ≡ s
unfolding label_value_regex trim_start
trim_start_valid [] h = refl
trim_start_valid (c ∷ []) h = ground arith
trim_start_valid (c ∷ d ∷ s) h = ground arith

cleaned_of_valid : (s : Text) → label_value_regex s ≡ true → cleaned s ≡ s
unfolding cleaned
cleaned_of_valid s h =
    rw (replace_valid s (ends_well_of s h), trim_start_valid s h)
      (trim_end_valid s (ends_well_of s h))

valid-not_empty : (s : Text) → label_value_regex s ≡ true → is_empty s ≡ false
unfolding label_value_regex
valid-not_empty [] h = cc
valid-not_empty (c ∷ s) h = refl

na_slash : label_value_regex (codes "N/A") ≡ false
unfolding label_value_regex ends_well
na_slash = refl

valid-not_na : (s : Text) → label_value_regex s ≡ true → text_eq s (codes "N/A") ≡ false
valid-not_na s h = elim (Bool-cases (text_eq s (codes "N/A"))) [
  | inl e ↦ cc (ap label_value_regex ((text_eq_iff s (codes "N/A")).0 e), na_slash)
  | inr e ↦ e
]

-- A value that labelValueRegex accepts comes back unchanged.
pub sanitize_fixed : (s : Text) → label_value_regex s ≡ true → sanitize_label_value s ≡ s
unfolding sanitize_label_value
sanitize_fixed s h =
    ground
      (arith, valid-not_empty s h, valid-not_na s h, cleaned_of_valid s h, trim_space_valid s h)
