-- ===== src/Node/Sanitize.antt =====
-- sanitizeLabelValue of pkg/node/label.go, with the regular expressions that it uses.
pub mod Laws
use gpuid.Base.{
  ℕ, ◌≡◌, Bool, true, false, not, ◌&&◌, ◌||◌, List, [], ◌∷◌, map, leb, ◌==◌, if◌then◌else◌, every,
  Text, codes, text_eq, is_empty, trim_start, trim_end, trim_space,
}

-- [A-Za-z0-9]
abbrev pub is_alnum : ℕ → Bool
is_alnum c = (leb b'A' c && leb c b'Z') || (leb b'a' c && leb c b'z') || (leb b'0' c && leb c b'9')

-- [A-Za-z0-9\-_.]
abbrev pub is_label_char : ℕ → Bool
is_label_char c = is_alnum c || c == b'-' || c == b'_' || c == b'.'

-- ([A-Za-z0-9\-_.]*[A-Za-z0-9])$
unfoldable pub ends_well : Text → Bool
ends_well [] = false
ends_well (c ∷ []) = is_alnum c
ends_well (c ∷ d ∷ s) = is_label_char c && ends_well (d ∷ s)

-- labelValueRegex
unfoldable pub label_value_regex : Text → Bool
unfolding ends_well
label_value_regex [] = false
label_value_regex (c ∷ []) = is_alnum c
label_value_regex (c ∷ d ∷ s) = is_alnum c && ends_well (d ∷ s)

-- notSetDefault
abbrev pub not_set_default : Text
not_set_default = codes "na"

-- invalidCharsRegex.ReplaceAllString(value, "-"), on one character
abbrev pub replace_invalid : ℕ → ℕ
replace_invalid c = if is_label_char c then c else b'-'

abbrev pub is_junk : ℕ → Bool
is_junk c = not (is_alnum c)

-- The value without the junk at both ends.
unfoldable pub cleaned : Text → Text
cleaned value = trim_end is_junk (trim_start is_junk (map replace_invalid value))

unfoldable pub sanitize_label_value : Text → Text
sanitize_label_value value =
    if is_empty value
    then not_set_default
    else if text_eq value (codes "N/A")
    then not_set_default
    else if is_empty (cleaned value)
    then not_set_default
    else if not (label_value_regex (cleaned value))
    then not_set_default
    else trim_space (cleaned value)
