-- ===== src/Runner/Worker/Concurrent/Invariant.antt =====
-- What holds between the workers, the set and the exports in every reachable state.
use gpuid.Base.{
  ℕ, ◌-◌, ◌≤◌, ◌<◌, ◌≡◌, inl, inr, arith, Bool-cases, List, [], ltb, ◌∷◌, Option, some, Text,
  lookup, IsMap, Any,
}
use gpuid.Runner.Seen.{cache_ttl, sweep}
use gpuid.Runner.Seen.History.{lookup-sweep, sweep-IsMap}
use gpuid.Runner.Worker.Concurrent.{Place, looked, working, exported, uid_of, System, init}

-- The UID was exported at the time.
abbrev pub Exported : System → Text → ℕ → Type 0
Exported s u t = Any (λ x. x ≡ (u, t)) s.exports

-- An export that the set cannot forget in time: Add follows, or the set has a later time, or the TTL
-- is over.
pub data Covered (s : System) (u : Text) (t : ℕ) : Type 0 where
  pending : (i : ℕ) → s.at i ≡ exported u → Covered s u t
  marked : (m : ℕ) → lookup u s.processed ≡ some m → t ≤ m → Covered s u t
  old : cache_ttl < s.now - t → Covered s u t

-- An export of a UID, against the entry that Has has read for it.
pub data Known (now : ℕ) (e : Option ℕ) (t : ℕ) : Type 0 where
  by_entry : (m : ℕ) → e ≡ some m → t ≤ m → Known now e t
  by_age : cache_ttl < now - t → Known now e t

-- Of an export and the later ones, those of one UID are more than the TTL apart.
abbrev pub IsSpaced : List (Text × ℕ) → Type 0
IsSpaced [] = Unit
IsSpaced ((u, t) ∷ earlier) =
    ((t0 : ℕ) → Any (λ x. x ≡ (u, t0)) earlier → cache_ttl < t - t0) × IsSpaced earlier

-- Two workers never process pods with one key.
abbrev pub Unique : (Text → Text) → (ℕ → Place) → Type 0
Unique key_of at =
    (i j : ℕ) (u v : Text)
    → uid_of (at i) ≡ some u
    → uid_of (at j) ≡ some v
    → key_of u ≡ key_of v
    → i ≡ j

module _ (key_of : Text → Text) where
  pub record Inv (s : System) : Type 0 where
    pub is_map : IsMap s.processed
    pub unique : Unique key_of s.at
    pub past : (u : Text) (t : ℕ) → Exported s u t → t ≤ s.now
    pub covered : (u : Text) (t : ℕ) → Exported s u t → Covered s u t
    pub known :
        (i : ℕ) (u : Text) (e : Option ℕ) (t : ℕ)
        → s.at i ≡ looked u e
        → Exported s u t
        → Known s.now e t
    pub fresh :
        (i : ℕ) (u : Text) (t : ℕ) → s.at i ≡ working u → Exported s u t → cache_ttl < s.now - t
    pub spaced : IsSpaced s.exports

  pub Inv-init : Inv (init key_of)
  Inv-init = record {
    is_map = tt;
    unique = λ i j u v h k q. cc;
    past = λ u t h. absurd h;
    covered = λ u t h. absurd h;
    known = λ i u e t h k. absurd k;
    fresh = λ i u t h k. absurd k;
    spaced = tt;
  }

  Known-later : {e : Option ℕ} {t now now' : ℕ} → now ≤ now' → Known now e t → Known now' e t
  Known-later h (by_entry m q le) = by_entry m q le
  Known-later h (by_age lt) = by_age (omega arith)

  Covered-later :
      {s : System} {u : Text} {t now : ℕ}
      → s.now ≤ now
      → Covered s u t
      → Covered (record s { now = now }) u t
  Covered-later h (pending i q) = pending i q
  Covered-later h (marked m q le) = marked m q le
  Covered-later h (old lt) = old (omega arith)

  pub tick-Inv : {s : System} {now : ℕ} → s.now ≤ now → Inv s → Inv (record s { now = now })
  tick-Inv h v = record {
    is_map = v.is_map;
    unique = v.unique;
    past = λ u t x. omega (arith, v.past u t x);
    covered = λ u t x. Covered-later h (v.covered u t x);
    known = λ i u e t q x. Known-later h (v.known i u e t q x);
    fresh = λ i u t q x. omega (arith, v.fresh i u t q x);
    spaced = v.spaced;
  }

  Covered-sweep :
      {s : System} {u : Text} {t : ℕ}
      → IsMap s.processed
      → Covered s u t
      → Covered (record s { processed = sweep s.now s.processed }) u t
  Covered-sweep h (pending i q) = pending i q
  Covered-sweep {s} {u} {t} h (marked m q le) = elim (Bool-cases (ltb cache_ttl (s.now - m))) [
    | inl gone ↦ old (ground arith)
    | inr kept ↦ marked m (ground (arith, lookup-sweep u s.now s.processed h)) le
  ]
  Covered-sweep h (old lt) = old lt

  pub sweep-Inv : {s : System} → Inv s → Inv (record s { processed = sweep s.now s.processed })
  sweep-Inv {s} v = record {
    is_map = sweep-IsMap s.now s.processed v.is_map;
    unique = v.unique;
    past = v.past;
    covered = λ u t x. Covered-sweep v.is_map (v.covered u t x);
    known = v.known;
    fresh = v.fresh;
    spaced = v.spaced;
  }
