-- ===== src/Exporters/S3/Keys.antt =====
-- The keys of the S3 exporter.
use gpuid.Base.{
  ℕ, zero, suc, ◌≡◌, refl, ap, sym, ◌∙◌, Bool, true, not, [], ◌∷◌, ◌++◌, append-nil, append_assoc,
  Bool-cases, inl, inr, arith, ◌==◌, if◌then◌else◌, every, Text, codes, is_empty, has_prefix,
  decimal, decimal-every, is_digit, pad,
}
use gpuid.Exporters.S3.{
  Exporter, replace_from, replace_all, Stamp, default_pattern, fill_pattern, generate_s3_key,
}

-- No placeholder starts in the text.
abbrev pub is_plain : Text → Bool
is_plain s = every (λ c. not (c == b'%')) s

pad-every : (w : ℕ) (s : Text) → every is_digit s ≡ true → every is_digit (pad w s) ≡ true
unfolding pad
pad-every zero s h = h
pad-every (suc w) s h = ground (arith, pad-every w s h)

digits-plain : (s : Text) → every is_digit s ≡ true → is_plain s ≡ true
digits-plain [] h = refl
digits-plain (c ∷ s) h = ground (arith, digits-plain s)

number-plain : (w n : ℕ) → is_plain (pad w (decimal n)) ≡ true
number-plain w n = digits-plain (pad w (decimal n)) (pad-every w (decimal n) (decimal-every n))

-- Plain text is kept.
replace-plain :
    (d : ℕ) (new s t : Text)
    → is_plain s ≡ true
    → replace_all (s ++ t) (b'%' ∷ d ∷ []) new ≡ s ++ replace_all t (b'%' ∷ d ∷ []) new
unfolding replace_all replace_from has_prefix
replace-plain d new [] t h = refl
replace-plain d new (c ∷ s) t h = ground (arith, replace-plain d new s t)

replace-plain_all :
    (d : ℕ) (new s : Text) → is_plain s ≡ true → replace_all s (b'%' ∷ d ∷ []) new ≡ s
unfolding replace_all replace_from has_prefix
replace-plain_all d new [] h = refl
replace-plain_all d new (c ∷ s) h = ground (arith, replace-plain_all d new s)

-- year=YYYY/month=MM/day=DD/hour=HH
abbrev pub partition_of : Stamp → Text
partition_of t =
    codes "year="
    ++ (pad 4 (decimal t.year)
        ++ (codes "/month="
            ++ (pad 2 (decimal t.month)
                ++ (codes "/day="
                    ++ (pad 2 (decimal t.day) ++ (codes "/hour=" ++ pad 2 (decimal t.hour)))))))

-- The placeholders of the default pattern, each with what stands around it.
year_filled :
    (y : Text)
    → replace_all default_pattern (codes "%Y") y
      ≡ codes "year=" ++ (y ++ codes "/month=%m/day=%d/hour=%H")
unfolding replace_all replace_from has_prefix
year_filled y = refl

month_filled :
    (m : Text)
    → replace_all (codes "/month=%m/day=%d/hour=%H") (codes "%m") m
      ≡ codes "/month=" ++ (m ++ codes "/day=%d/hour=%H")
unfolding replace_all replace_from has_prefix
month_filled m = refl

day_filled :
    (d : Text)
    → replace_all (codes "/day=%d/hour=%H") (codes "%d") d
      ≡ codes "/day=" ++ (d ++ codes "/hour=%H")
unfolding replace_all replace_from has_prefix
day_filled d = refl

hour_filled :
    (h : Text) → replace_all (codes "/hour=%H") (codes "%H") h ≡ codes "/hour=" ++ (h ++ [])
unfolding replace_all replace_from has_prefix
hour_filled h = refl

-- A number between two texts is kept with the plain text before it.
replace-field :
    (c w n : ℕ) (new before t : Text)
    → is_plain before ≡ true
    → replace_all (before ++ (pad w (decimal n) ++ t)) (b'%' ∷ c ∷ []) new
      ≡ before ++ (pad w (decimal n) ++ replace_all t (b'%' ∷ c ∷ []) new)
replace-field c w n new before t h =
    replace-plain c new before (pad w (decimal n) ++ t) h
    ∙ ap (λ r. before ++ r) (replace-plain c new (pad w (decimal n)) t (number-plain w n))

fill-default : (t : Stamp) → fill_pattern default_pattern t ≡ partition_of t
unfolding fill_pattern
fill-default t =
    let y = pad 4 (decimal t.year) in
    let m = pad 2 (decimal t.month) in
    let d = pad 2 (decimal t.day) in
    let h = pad 2 (decimal t.hour) in
    rw
      (
        year_filled y,
        replace-field b'm' 4 t.year m (codes "year=") (codes "/month=%m/day=%d/hour=%H") refl,
        month_filled m,
        replace-field b'd' 4 t.year d (codes "year=")
            (codes "/month=" ++ (m ++ codes "/day=%d/hour=%H")) refl,
        replace-field b'd' 2 t.month d (codes "/month=") (codes "/day=%d/hour=%H") refl,
        day_filled d,
        replace-field b'H' 4 t.year h (codes "year=")
            (codes "/month=" ++ (m ++ (codes "/day=" ++ (d ++ codes "/hour=%H")))) refl,
        replace-field b'H' 2 t.month h (codes "/month=") (codes "/day=" ++ (d ++ codes "/hour=%H"))
            refl,
        replace-field b'H' 2 t.day h (codes "/day=") (codes "/hour=%H") refl,
        hour_filled h,
        append-nil h,
      )
      refl

fill-plain : (s : Text) (t : Stamp) → is_plain s ≡ true → fill_pattern s t ≡ s
unfolding fill_pattern
fill-plain s t h =
    rw
      (
        replace-plain_all b'Y' (pad 4 (decimal t.year)) s h,
        replace-plain_all b'm' (pad 2 (decimal t.month)) s h,
        replace-plain_all b'd' (pad 2 (decimal t.day)) s h,
        replace-plain_all b'H' (pad 2 (decimal t.hour)) s h,
      )
      refl

-- The pattern, or the default partition if there is none.
abbrev pub place_of : Exporter → Stamp → Text
place_of e t = if is_empty e.partition_pattern then partition_of t else e.partition_pattern

placed :
    (e : Exporter) (t : Stamp)
    → is_plain e.partition_pattern ≡ true
    → fill_pattern (if is_empty e.partition_pattern then default_pattern else e.partition_pattern) t
      ≡ place_of e t
placed e t h = elim (Bool-cases (is_empty e.partition_pattern)) [
  | inl q ↦ rw q (fill-default t)
  | inr q ↦ rw q (fill-plain e.partition_pattern t h)
]

-- If its pattern has no percent sign, the exporter stores under the prefix, if there is one, then
-- the pattern, or year=YYYY/month=MM/day=DD/hour=HH of the time with leading zeros if there is no
-- pattern, then the time with .csv.
pub generate_s3_key_lem :
    (e : Exporter) (t : Stamp)
    → is_plain e.partition_pattern ≡ true
    → generate_s3_key e t
      ≡ (if is_empty e.prefix then [] else e.prefix ++ codes "/")
        ++ (place_of e t ++ (codes "/" ++ (t.file_format ++ codes ".csv")))
unfolding generate_s3_key
generate_s3_key_lem e t h = elim (Bool-cases (is_empty e.prefix)) [
  | inl q ↦ rw (q, placed e t h) refl
  | inr q ↦
      rw (q, placed e t h)
        (sym (
          append_assoc e.prefix (codes "/")
            (place_of e t ++ (codes "/" ++ (t.file_format ++ codes ".csv")))))
]
