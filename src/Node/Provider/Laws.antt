-- ===== src/Node/Provider/Laws.antt =====
-- The identifier is what stands behind the last slash of the provider ID.
use gpuid.Base.{
  ℕ, ◌<◌, ◌≡◌, refl, sym, ap, ◌∙◌, Bool, true, false, not, List, [], ◌∷◌, ◌++◌, append-nil,
  append_assoc, arith, ltb, ◌==◌, if◌then◌else◌, some, ok, err, length, exists, Text, codes,
  is_empty, strip_prefix, trim_prefix, split, split_on, split_on_sep, split_on_other, Bool-cases,
  Option-cases, inl, inr,
}
use gpuid.Node.Provider.{
  invalid_format, provider_id_empty, last_part, first_part, to_lower, parse_node_info,
}

abbrev pub has_char : ℕ → Text → Bool
has_char sep s = exists (λ c. c == sep) s

-- What stands behind the last separator: all of it, if there is none.
unfoldable pub after_last : ℕ → Text → Text
after_last sep [] = []
after_last sep (c ∷ s) = if has_char sep s then after_last sep s else if c == sep then s else c ∷ s

-- What stands before the first separator.
unfoldable pub before_first : ℕ → Text → Text
before_first sep [] = []
before_first sep (c ∷ s) = if c == sep then [] else c ∷ before_first sep s

module _ (sep : ℕ) where
  split_on-pos : (cur s : Text) → 0 < length (split_on sep cur s)
  unfolding split_on
  split_on-pos cur [] = omega arith
  split_on-pos cur (c ∷ s) = ground (arith, split_on-pos (cur ++ c ∷ []) s)

  last_part-cons : (p : Text) (ps : List Text) → 0 < length ps → last_part (p ∷ ps) ≡ last_part ps
  unfolding last_part
  last_part-cons p [] h = absurd (omega arith)
  last_part-cons p (q ∷ ps) h = refl

  last_part-split_on :
      (cur s : Text)
      → last_part (split_on sep cur s) ≡ (if has_char sep s then after_last sep s else cur ++ s)
  last_part-split_on cur [] = unfold split_on last_part in sym (append-nil cur)
  last_part-split_on cur (c ∷ s) = elim (Bool-cases (c == sep)) [
    | inl e ↦
        rw
          (
            split_on_sep sep cur s c e,
            last_part-cons cur _ (split_on-pos [] s),
            last_part-split_on [] s,
          )
          (unfold after_last in ground arith)
    | inr e ↦
        rw (split_on_other sep cur s c e, last_part-split_on (cur ++ c ∷ []) s)
          (unfold after_last in ground (arith, append_assoc cur (c ∷ []) s))
  ]

  length-split_on : (cur s : Text) → ltb (length (split_on sep cur s)) 2 ≡ not (has_char sep s)
  unfolding split_on
  length-split_on cur [] = refl
  length-split_on cur (c ∷ s) = ground (arith, split_on-pos [] s, length-split_on (cur ++ c ∷ []) s)

  first_part-split_on : (cur s : Text) → first_part (split_on sep cur s) ≡ cur ++ before_first sep s
  first_part-split_on cur [] = unfold split_on first_part before_first in sym (append-nil cur)
  first_part-split_on cur (c ∷ s) = elim (Bool-cases (c == sep)) [
    | inl e ↦
        rw (split_on_sep sep cur s c e)
          (unfold first_part before_first in ground (arith, append-nil cur))
    | inr e ↦
        rw (split_on_other sep cur s c e, first_part-split_on (cur ++ c ∷ []) s)
          (unfold before_first in ground (arith, append_assoc cur (c ∷ []) (before_first sep s)))
  ]

  -- What is cut off before a separator does not change what stands behind the last one.
  has_char-append : (p r : Text) → has_char sep (p ++ sep ∷ r) ≡ true
  has_char-append [] r = ground arith
  has_char-append (c ∷ p) r = ground (arith, has_char-append p r)

  after_last-append : (p r : Text) → after_last sep (p ++ sep ∷ r) ≡ after_last sep r
  unfolding after_last
  after_last-append [] [] = ground arith
  after_last-append [] (c ∷ r) = ground arith
  after_last-append (c ∷ p) r = ground (arith, has_char-append p r, after_last-append p r)

  last_part-split : (s : Text) → last_part (split s sep) ≡ after_last sep s
  last_part-split s = last_part-split_on [] s ∙ no_char s
    where
      no_char : (s : Text) → (if has_char sep s then after_last sep s else s) ≡ after_last sep s
      no_char [] = unfold after_last in refl
      no_char (c ∷ s) = unfold after_last in ground arith

strip_prefix-append : (s p r : Text) → strip_prefix s p ≡ some r → s ≡ p ++ r
unfolding strip_prefix
strip_prefix-append s [] r h = ground arith
strip_prefix-append [] (d ∷ p) r h = cc
strip_prefix-append (c ∷ s) (d ∷ p) r h = ground (arith, strip_prefix-append s p r)

-- Without the prefix that ends in a slash, the part behind the last slash is the same.
after_last-trim_prefix :
    (s q : Text) → after_last b'/' (trim_prefix s (q ++ codes "://")) ≡ after_last b'/' s
unfolding trim_prefix
after_last-trim_prefix s q = elim (Option-cases (strip_prefix s (q ++ codes "://"))) [
  | inl e ↦ rw (e, trim_prefix) refl
  | inr (r, e) ↦
      rw (e, trim_prefix)
        (sym (
          ap (after_last b'/') (strip_prefix-append s (q ++ codes "://") r e ∙ regroup r)
          ∙ after_last-append b'/' (q ++ codes ":/") r))
]
  where
    regroup : (r : Text) → (q ++ codes "://") ++ r ≡ (q ++ codes ":/") ++ b'/' ∷ r
    regroup r = append_assoc q (codes "://") r ∙ sym (append_assoc q (codes ":/") (b'/' ∷ r))

has_char-not_empty : (sep : ℕ) (s : Text) → has_char sep s ≡ true → is_empty s ≡ false
has_char-not_empty sep [] h = cc
has_char-not_empty sep (c ∷ s) h = refl

no_char-invalid :
    (table : ℕ → ℕ) (s : Text)
    → has_char b':' s ≡ false
    → is_empty s ≡ false
    → parse_node_info table s ≡ err invalid_format
unfolding parse_node_info
no_char-invalid table s h k = rw (k, length-split_on b':' [] s, h) refl

one_part : (s : Text) → ltb (length (split s b'/')) 1 ≡ false
one_part s = ground (arith, split_on-pos b'/' [] s)

colon-parsed :
    (table : ℕ → ℕ) (s : Text)
    → has_char b':' s ≡ true
    → parse_node_info table s
      ≡ ok (record {
        provider = to_lower table (before_first b':' s);
        identifier = after_last b'/' s;
        raw = s;
      })
unfolding parse_node_info
colon-parsed table s h =
    let first = to_lower table (first_part (split s b':')) in
    let details = trim_prefix s (first ++ codes "://") in
    rw (has_char-not_empty b':' s h, length-split_on b':' [] s, h, one_part details)
      (λ i. ok (record {
        provider = to_lower table (first_part-split_on b':' [] s i);
        identifier = (last_part-split b'/' details ∙ after_last-trim_prefix s first) i;
        raw = s;
      }))

empty-refused : (table : ℕ → ℕ) → parse_node_info table [] ≡ err provider_id_empty
unfolding parse_node_info
empty-refused table = refl

-- parseNodeInfo gives as the provider what stands before the first colon, in lower case, and as the
-- identifier what stands behind the last slash; any text before a colon is taken as a provider; a
-- text with no colon is refused, and so is the empty one.
pub parse_node_info_lem :
    (table : ℕ → ℕ) (s : Text)
    → parse_node_info table s ≡ (
        if has_char b':' s
        then ok (record {
          provider = to_lower table (before_first b':' s);
          identifier = after_last b'/' s;
          raw = s;
        })
        else if is_empty s
        then err provider_id_empty
        else err invalid_format)
parse_node_info_lem table [] = empty-refused table
parse_node_info_lem table (c ∷ s) = elim (Bool-cases (has_char b':' (c ∷ s))) [
  | inl e ↦ ground (arith, colon-parsed table (c ∷ s) e, e)
  | inr e ↦ ground (arith, no_char-invalid table (c ∷ s) e refl, e)
]
