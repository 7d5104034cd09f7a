-- ===== src/Logger.antt =====
-- NewProductionLogger of pkg/logger/log.go: the level and the attributes of every record.
-- The lower case beyond ASCII is a parameter; the JSON handler is not modelled.
pub mod Attributes
use gpuid.Base.{
  ◌≡◌, ◌⊎◌, inl, inr, refl, ap, ◌∙◌, arith, Bool, true, false, not, List, [], ◌∷◌, ◌++◌,
  if◌then◌else◌, ℕ, to_lower, Text, codes, text_eq, text_eq_iff, ◌↔◌, is_empty, is_blank,
  trim_space, All, Bool-cases,
}

-- slog.Level
pub data Level : Type 0 where
  debug info warn error : Level

pub record Config : Type 0 where
  pub service : Text
  pub version : Text
  pub env : Text
  pub level : Text
  pub add_source : Bool

-- What the handler is given, and the attributes of every record.
pub record Logger : Type 0 where
  pub level : Level
  pub add_source : Bool
  pub attributes : List (Text × Text)

-- the switch of parseLevel
unfoldable pub level_of : Text → Level
level_of word =
    if text_eq word (codes "debug")
    then debug
    else if text_eq word (codes "info")
    then info
    else if is_empty word
    then info
    else if text_eq word (codes "warn")
    then warn
    else if text_eq word (codes "warning")
    then warn
    else if text_eq word (codes "error")
    then error
    else info

-- parseLevel
unfoldable pub parse_level : (ℕ → ℕ) → Text → Level
parse_level table s = level_of (to_lower table (trim_space s))

-- firstNonEmpty
unfoldable pub first_non_empty : List Text → Text
first_non_empty [] = []
first_non_empty (v ∷ vals) = if not (is_blank v) then v else first_non_empty vals

-- if value != "" { base = append(base, key, value) }
unfoldable pub append_set : Text → Text → List (Text × Text) → List (Text × Text)
append_set key value base = if is_empty value then base else base ++ (key, value) ∷ []

-- NewProductionLogger, over os.Getenv and the lower case beyond ASCII
unfoldable pub new_production_logger : (ℕ → ℕ) → (Text → Text) → Config → Logger
new_production_logger table getenv cfg = record {
  level =
      parse_level table
        (first_non_empty (cfg.level ∷ getenv (codes "LOG_LEVEL") ∷ codes "info" ∷ []));
  add_source = cfg.add_source;
  attributes =
      append_set (codes "env") cfg.env
        (append_set (codes "version") cfg.version (append_set (codes "service") cfg.service []));
}

-- The first value with text in it; nothing before it has any.
pub data IsFirst : List Text → Text → Type 0 where
  none_set : {vals : List Text} → All (λ v. is_blank v ≡ true) vals → IsFirst vals []
  here : {v : Text} {vals : List Text} → is_blank v ≡ false → IsFirst (v ∷ vals) v
  later :
      {v r : Text} {vals : List Text} → is_blank v ≡ true → IsFirst vals r → IsFirst (v ∷ vals) r

first_non_empty-IsFirst : (vals : List Text) → IsFirst vals (first_non_empty vals)
unfolding first_non_empty
first_non_empty-IsFirst [] = none_set tt
first_non_empty-IsFirst (v ∷ vals) = elim (Bool-cases (is_blank v)) [
  | inl e ↦ rw (e, first_non_empty) (later e (first_non_empty-IsFirst vals))
  | inr e ↦ rw (e, first_non_empty) (here e)
]

-- The level that a word stands for: info, unless it is one of the words for another.
pub record Means (word : Text) (level : Level) : Type 0 where
  pub is_debug : (level ≡ debug) ↔ (word ≡ codes "debug")
  pub is_warn : (level ≡ warn) ↔ ((word ≡ codes "warn") ⊎ (word ≡ codes "warning"))
  pub is_error : (level ≡ error) ↔ (word ≡ codes "error")

level_of_words :
    (level_of (codes "debug") ≡ debug)
    × (level_of (codes "warn") ≡ warn)
    × (level_of (codes "warning") ≡ warn)
    × (level_of (codes "error") ≡ error)
unfolding level_of text_eq
level_of_words = (refl, refl, refl, refl)

level_of-Means : (word : Text) → Means word (level_of word)
unfolding level_of
level_of-Means word = record {
  is_debug = (
    λ h. (text_eq_iff word (codes "debug")).0 (ground arith),
    λ h. ap level_of h ∙ level_of_words.0,
  );
  is_warn = (
    λ h. elim (Bool-cases (text_eq word (codes "warn"))) [
      | inl e ↦ inl ((text_eq_iff word (codes "warn")).0 e)
      | inr e ↦ inr ((text_eq_iff word (codes "warning")).0 (ground arith))
    ],
    λ h. elim h [
      | inl e ↦ ap level_of e ∙ level_of_words.1
      | inr e ↦ ap level_of e ∙ level_of_words.2
    ],
  );
  is_error = (
    λ h. (text_eq_iff word (codes "error")).0 (ground arith),
    λ h. ap level_of h ∙ level_of_words.3,
  );
}

-- The level of the logger is the one that the first text decides which is not blank, of the
-- configuration, of LOG_LEVEL, and of "info": trimmed and in lower case, it is debug, warn or error
-- if it is the word for that, and info otherwise.
pub new_production_logger-Means :
    (table : ℕ → ℕ) (getenv : Text → Text) (cfg : Config)
    → (v : Text) × IsFirst (cfg.level ∷ getenv (codes "LOG_LEVEL") ∷ codes "info" ∷ []) v
      × Means (to_lower table (trim_space v)) (new_production_logger table getenv cfg).level
unfolding new_production_logger parse_level
new_production_logger-Means table getenv cfg = (
  first_non_empty (cfg.level ∷ getenv (codes "LOG_LEVEL") ∷ codes "info" ∷ []),
  first_non_empty-IsFirst (cfg.level ∷ getenv (codes "LOG_LEVEL") ∷ codes "info" ∷ []),
  level_of-Means _,
)
