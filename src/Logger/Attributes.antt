-- ===== src/Logger/Attributes.antt =====
-- The attributes of the loggers of pkg/logger/log.go, SetDefault, and the writer of the logger for
-- tests. The handlers of log/slog and the format of a time are not modelled.
use gpuid.Base.{
  ℕ, ◌≡◌, ◌⊎◌, inl, inr, refl, ap, sym, ◌∙◌, Bool-cases, List, [], ◌∷◌, ◌++◌, ◌==◌, if◌then◌else◌,
  Option, none, some, Text, codes, text_eq, text_eq_iff, length, trim_end,
}
use gpuid.Logger.{Config, Logger, new_production_logger}

-- slog.Value, as far as it is looked at: the kind of a time, or another.
pub data Value (T V : Type 0) : Type 0 where
  time : T → Value T V
  words : Text → Value T V
  other : V → Value T V

pub record Attr (T V : Type 0) : Type 0 where
  pub key : Text
  pub value : Value T V

abbrev pub time_key : Text
time_key = codes "time"

module _ {T V : Type 0} where
  -- a.Value.Time(), which panics (`none`) if the value is no time
  unfoldable pub time_of : Value T V → Option T
  time_of (time t) = some t
  time_of _ = none

  unfoldable pub replaced : (T → Text) → Option T → Option (Attr T V)
  replaced format none = none
  replaced format (some t) = some (record { key = time_key; value = words (format t) })

  -- ReplaceAttr of NewProductionLogger, over Format with RFC3339Nano
  unfoldable pub replace_attr : (T → Text) → Attr T V → Option (Attr T V)
  replace_attr format a =
      if text_eq a.key time_key then replaced format (time_of a.value) else some a

  -- ReplaceAttr of NewTestLogger: `none` is the empty attribute, which is left out
  unfoldable pub test_attr : Attr T V → Option (Attr T V)
  test_attr a = if text_eq a.key time_key then none else some a

  same_attr : (a b : Attr T V) → some a ≡ some b → a ≡ b
  same_attr a b h = cc h

  replaced-value :
      (format : T → Text) (v : Value T V) (b : Attr T V)
      → replaced format (time_of v) ≡ some b
      → (b.key ≡ time_key) × (t : T) × (v ≡ time t) × (b.value ≡ words (format t))
  unfolding replaced time_of
  replaced-value format (time t) b h =
      let e = same_attr _ b h in
      (sym (ap (λ (c : Attr T V). c.key) e), t, refl, sym (ap (λ (c : Attr T V). c.value) e))
  replaced-value format (words w) b h = cc h
  replaced-value format (other v) b h = cc h

  -- No key is renamed, and only the value of the time is replaced.
  pub replace_attr-keeps :
      (format : T → Text) (a b : Attr T V)
      → replace_attr format a ≡ some b
      → (b.key ≡ a.key) × ((b ≡ a) ⊎ ((t : T) × (a.value ≡ time t) × (b.value ≡ words (format t))))
  unfolding replace_attr
  replace_attr-keeps format a b h = elim (Bool-cases (text_eq a.key time_key)) [
    | inl e ↦
        let (key, t, was, is) = replaced-value format a.value b (rw e at h) in
        (key ∙ sym ((text_eq_iff a.key time_key).0 e), inr (t, was, is))
    | inr e ↦
        let same = same_attr a b (rw e at h) in
        (sym (ap (λ (c : Attr T V). c.key) same), inl (sym same))
  ]

-- SetDefault: the logger that is returned, and the one that log/slog then has.
unfoldable pub set_default : (ℕ → ℕ) → (Text → Text) → Config → Logger × Logger
set_default table getenv cfg = let l = new_production_logger table getenv cfg in (l, l)

-- testWriter.Write: the number of bytes that it reports, and the lines of the test's log.
unfoldable pub test_write : Text → List Text → ℕ × List Text
test_write p lines = (length p, lines ++ trim_end (λ c. c == 10) p ∷ [])
