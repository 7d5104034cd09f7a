-- ===== src/Runner/Seen/History.antt =====
-- The set against the history of its calls: sweeping can be seen by no call of Has.
use gpuid.Base.{
  ℕ, ◌-◌, ◌≤◌, ◌<◌, ◌≡◌, refl, subst, Bool, true, false, List, [], ◌∷◌, arith, ltb, leb,
  if◌then◌else◌, Option, none, some, ◌⊎◌, inl, inr, Text, text_eq, text_eq_iff, lookup, lookup-set,
  set-IsMap, IsMap, All, Bool-cases,
}
use gpuid.Runner.Seen.{UidSet, cache_ttl, has, add, sweep}

pub data Event : Type 0 where
  added : Text → ℕ → Event
  swept : ℕ → Event

-- The calls in the order of the lock.
unfoldable pub run : List Event → UidSet → UidSet
run [] s = s
run (added uid t ∷ events) s = run events (add uid t s)
run (swept t ∷ events) s = run events (sweep t s)

-- The time of the last Add of a UID, after an earlier one.
unfoldable pub last_added : Text → List Event → Option ℕ → Option ℕ
last_added uid [] before = before
last_added uid (added u t ∷ events) before =
    last_added uid events (if text_eq u uid then some t else before)
last_added uid (swept t ∷ events) before = last_added uid events before

-- The specification of Has: added, and not longer ago than the TTL.
unfoldable pub is_recent : ℕ → Option ℕ → Bool
is_recent now none = false
is_recent now (some t) = leb (now - t) cache_ttl

-- The clock does not run backwards, from `start` to `now`.
abbrev pub InOrder : ℕ → List Event → ℕ → Type 0
InOrder start [] now = start ≤ now
InOrder start (added u t ∷ events) now = (start ≤ t) × InOrder t events now
InOrder start (swept t ∷ events) now = (start ≤ t) × InOrder t events now

pub lookup-sweep :
    (uid : Text) (now : ℕ) (s : UidSet)
    → IsMap s
    → lookup uid (sweep now s) ≡ elim (lookup uid s) [
      | none ↦ none
      | some t ↦ if ltb cache_ttl (now - t) then none else some t
    ]
unfolding lookup sweep
lookup-sweep uid now [] h = refl
lookup-sweep uid now ((j, t) ∷ s) (absent, h) =
    ground (arith, lookup-sweep uid now s h, text_eq_iff j uid, absent_after j uid s absent)
  where
    absent_after :
        (j uid : Text) (s : UidSet) → lookup j s ≡ none → text_eq j uid ≡ true → lookup uid s ≡ none
    absent_after j uid s a e = subst (λ k. lookup k s ≡ none) ((text_eq_iff j uid).0 e) a

pub sweep-IsMap : (now : ℕ) (s : UidSet) → IsMap s → IsMap (sweep now s)
unfolding sweep
sweep-IsMap now [] h = tt
sweep-IsMap now ((j, t) ∷ s) (absent, h) = elim (Bool-cases (ltb cache_ttl (now - t))) [
  | inl e ↦ rw e (sweep-IsMap now s h)
  | inr e ↦ rw e (ground (arith, lookup-sweep j now s h), sweep-IsMap now s h)
]

-- Added so long ago that Has answers no from `now` on.
abbrev IsExpired : ℕ → Option ℕ → Type 0
IsExpired now spec = (t : ℕ) × (spec ≡ some t) × (cache_ttl < now - t)

-- The set holds the last time of the UID, or has swept it after it expired.
abbrev Tracks : Text → ℕ → UidSet → Option ℕ → Type 0
Tracks uid now s spec = (lookup uid s ≡ spec) ⊎ ((lookup uid s ≡ none) × IsExpired now spec)

Tracks-later :
    (uid : Text) (t now : ℕ) (s : UidSet) (spec : Option ℕ)
    → t ≤ now
    → Tracks uid t s spec
    → Tracks uid now s spec
Tracks-later uid t now s spec h (inl e) = inl e
Tracks-later uid t now s spec h (inr (e, (t0, q, old))) = inr (e, (t0, q, omega arith))

Tracks-add :
    (uid u : Text) (now : ℕ) (s : UidSet) (spec : Option ℕ)
    → Tracks uid now s spec
    → Tracks uid now (add u now s) (if text_eq u uid then some now else spec)
unfolding add
Tracks-add uid u now s spec h = elim (Bool-cases (text_eq u uid)) [
  | inl e ↦ rw (lookup-set uid u now s, e) (inl refl)
  | inr e ↦ rw (lookup-set uid u now s, e) h
]

Tracks-sweep :
    (uid : Text) (now : ℕ) (s : UidSet) (spec : Option ℕ)
    → IsMap s
    → Tracks uid now s spec
    → Tracks uid now (sweep now s) spec
Tracks-sweep uid now s none m (inl e) = inl (ground (arith, lookup-sweep uid now s m))
Tracks-sweep uid now s (some t) m (inl e) = elim (Bool-cases (ltb cache_ttl (now - t))) [
  | inl old ↦ inr (ground (arith, lookup-sweep uid now s m), (t, refl, ground arith))
  | inr fresh ↦ inl (ground (arith, lookup-sweep uid now s m))
]
Tracks-sweep uid now s spec m (inr (e, x)) = inr (ground (arith, lookup-sweep uid now s m), x)

run-Tracks :
    (uid : Text) (events : List Event) (start now : ℕ) (s : UidSet) (spec : Option ℕ)
    → InOrder start events now
    → IsMap s
    → Tracks uid start s spec
    → Tracks uid now (run events s) (last_added uid events spec)
unfolding run last_added
run-Tracks uid [] start now s spec order m h = Tracks-later uid start now s spec order h
run-Tracks uid (added u t ∷ events) start now s spec (later, order) m h =
    run-Tracks uid events t now (add u t s) (if text_eq u uid then some t else spec) order
      (unfold add in set-IsMap u t s m)
      (Tracks-add uid u t s spec (Tracks-later uid start t s spec later h))
run-Tracks uid (swept t ∷ events) start now s spec (later, order) m h =
    run-Tracks uid events t now (sweep t s) spec order (sweep-IsMap t s m)
      (Tracks-sweep uid t s spec m (Tracks-later uid start t s spec later h))

has_of_Tracks :
    (uid : Text) (now : ℕ) (s : UidSet) (spec : Option ℕ)
    → Tracks uid now s spec
    → has uid now s ≡ is_recent now spec
unfolding has is_recent
has_of_Tracks uid now s none (inl e) = rw (e, has) refl
has_of_Tracks uid now s (some t) (inl e) = rw (e, has) refl
has_of_Tracks uid now s none (inr (e, (t, q, old))) = cc
has_of_Tracks uid now s (some t) (inr (e, (t0, q, old))) =
    let same : t ≡ t0 = ground arith in rw (e, has, same) (ground arith)

-- From the empty set, after any calls of Add and sweep on a clock that does not run backwards, Has
-- answers yes exactly if the last Add of the UID is not longer ago than the TTL, wherever the
-- sweeps fell.
pub has-run :
    (uid : Text) (events : List Event) (now : ℕ)
    → InOrder 0 events now
    → has uid now (run events []) ≡ is_recent now (last_added uid events none)
has-run uid events now order =
    has_of_Tracks uid now (run events []) (last_added uid events none)
      (run-Tracks uid events 0 now [] none order tt (inl (unfold lookup in refl)))

-- After a sweep the set holds no entry that is older than the TTL.
pub sweep_fresh :
    (now : ℕ) (s : UidSet) → All (λ (e : Text × ℕ). now - e.1 ≤ cache_ttl) (sweep now s)
unfolding sweep
sweep_fresh now [] = tt
sweep_fresh now ((uid, t) ∷ s) = elim (Bool-cases (ltb cache_ttl (now - t))) [
  | inl e ↦ rw e (sweep_fresh now s)
  | inr e ↦ rw e (ground arith, sweep_fresh now s)
]
