-- ===== src/Base/Map.antt =====
-- Go maps with string keys, as association lists: a write replaces the entry or adds one at the
-- end. What ranges over a map takes the entries in the order of the list.
use gpuid.Base.Tests.{
  ◌≡◌, refl, sym, subst, Bool, List, [], ◌∷◌, arith, if◌then◌else◌, Option, none, some, is_some,
  Bool-cases, inl, inr,
}
use gpuid.Base.Lists.{All}
use gpuid.Base.Strings.{Text, text_eq, text_eq_iff}

module _ {ℓ} {V : Type ℓ} where
  -- v, ok := m[k]
  unfoldable pub lookup : Text → List (Text × V) → Option V
  lookup k [] = none
  lookup k ((j, v) ∷ m) = if text_eq j k then some v else lookup k m

  -- m[k] = v
  unfoldable pub set : Text → V → List (Text × V) → List (Text × V)
  set k v [] = (k, v) ∷ []
  set k v ((j, w) ∷ m) = if text_eq j k then (j, v) ∷ m else (j, w) ∷ set k v m

  abbrev pub has_key : Text → List (Text × V) → Bool
  has_key k m = is_some (lookup k m)

  pub lookup-set :
      (j k : Text) (v : V) (m : List (Text × V))
      → lookup j (set k v m) ≡ (if text_eq k j then some v else lookup j m)
  unfolding lookup set
  lookup-set j k v [] = refl
  lookup-set j k v ((i, w) ∷ m) =
      ground (arith, text_eq_iff i j, text_eq_iff i k, text_eq_iff k j, lookup-set j k v m)

  -- No key twice, as in every Go map.
  abbrev pub IsMap : List (Text × V) → Type ℓ
  IsMap [] = Unit
  IsMap ((k, v) ∷ m) = (lookup k m ≡ none) × IsMap m

  pub set-IsMap : (k : Text) (v : V) (m : List (Text × V)) → IsMap m → IsMap (set k v m)
  unfolding lookup set
  set-IsMap k v [] h = (refl, tt)
  set-IsMap k v ((j, w) ∷ m) (h, hs) =
      ground (arith, text_eq_iff j k, text_eq_iff k j, lookup-set j k v m, set-IsMap k v m hs)

-- What holds of every entry before a write, and of the new entry, holds of every entry after it.
pub set-All {ℓ κ} :
    {V : Type ℓ} (P : Text × V → Type κ) (k : Text) (v : V) (m : List (Text × V))
    → P (k, v)
    → All P m
    → All P (set k v m)
unfolding set
set-All P k v [] h _ = (h, tt)
set-All P k v ((j, w) ∷ m) h (hj, hm) = elim (Bool-cases (text_eq j k)) [
  | inl e ↦ rw e (subst (λ i. P (i, v)) (sym ((text_eq_iff j k).0 e)) h, hm)
  | inr e ↦ rw e (hj, set-All P k v m h hm)
]

-- An entry that is found is one of the entries.
pub lookup-All {ℓ κ} :
    {V : Type ℓ} (P : Text × V → Type κ) (k : Text) (v : V) (m : List (Text × V))
    → All P m
    → lookup k m ≡ some v
    → P (k, v)
unfolding lookup
lookup-All P k v [] _ h = cc
lookup-All P k v ((j, w) ∷ m) (hj, hm) h = elim (Bool-cases (text_eq j k)) [
  | inl e ↦
      let q : w ≡ v = ground arith in
      subst (λ x. P (k, x)) q (subst (λ i. P (i, w)) ((text_eq_iff j k).0 e) hj)
  | inr e ↦ lookup-All P k v m hm (ground arith)
]
