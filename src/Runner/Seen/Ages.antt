-- ===== src/Runner/Seen/Ages.antt =====
-- How old an entry of the set can be, with the sweeper of pkg/runner/setter.go.
use gpuid.Base.{
  ℕ, ◌+◌, ◌*◌, ◌≤◌, ◌≡◌, arith, List, [], ◌∷◌, ◌++◌, some, Text, text_eq, inl, inr, lookup,
  lookup-set, set-IsMap, IsMap, Bool-cases,
}
use gpuid.Runner.Seen.{UidSet, minute, cache_ttl, add, sweep}
use gpuid.Runner.Seen.History.{Event, added, swept, run, InOrder, lookup-sweep, sweep-IsMap}

-- cacheSweepInterval
abbrev pub cache_sweep_interval : ℕ
cache_sweep_interval = 5 * minute

-- No entry was older than the TTL at t.
abbrev AreFresh : ℕ → UidSet → Type 0
AreFresh t s = (uid : Text) (t0 : ℕ) → lookup uid s ≡ some t0 → t ≤ t0 + cache_ttl

add-AreFresh :
    (t : ℕ) (u : Text) (now : ℕ) (s : UidSet) → t ≤ now → AreFresh t s → AreFresh t (add u now s)
unfolding add
add-AreFresh t u now s le h uid t0 e = elim (Bool-cases (text_eq u uid)) [
  | inl same ↦ ground (arith, lookup-set uid u now s)
  | inr differ ↦ h uid t0 (ground (arith, lookup-set uid u now s))
]

sweep-AreFresh : (t now : ℕ) (s : UidSet) → IsMap s → AreFresh t s → AreFresh t (sweep now s)
sweep-AreFresh t now s m h uid t0 e = h uid t0 (ground (arith, lookup-sweep uid now s m))

swept-AreFresh : (t : ℕ) (s : UidSet) → IsMap s → AreFresh t (sweep t s)
swept-AreFresh t s m uid t0 e = ground (arith, lookup-sweep uid t s m)

run-AreFresh :
    (events : List Event) (t start now : ℕ) (s : UidSet)
    → InOrder start events now
    → t ≤ start
    → IsMap s
    → AreFresh t s
    → AreFresh t (run events s)
unfolding run
run-AreFresh [] t start now s order le m h = h
run-AreFresh (added u t' ∷ events) t start now s (later, order) le m h =
    run-AreFresh events t t' now (add u t' s) order (omega arith) (unfold add in set-IsMap u t' s m)
      (add-AreFresh t u t' s (omega arith) h)
run-AreFresh (swept t' ∷ events) t start now s (later, order) le m h =
    run-AreFresh events t t' now (sweep t' s) order (omega arith) (sweep-IsMap t' s m)
      (sweep-AreFresh t t' s m h)

-- From any set, after any calls of Add and sweep on a clock that does not run backwards, with a
-- sweep at t that is one interval ago at most: no entry is older than the TTL and the interval.
pub run-ages :
    (before after : List Event) (t start now : ℕ) (s : UidSet)
    → InOrder start (before ++ swept t ∷ after) now
    → IsMap s
    → now ≤ t + cache_sweep_interval
    → (uid : Text) (t0 : ℕ) → lookup uid (run (before ++ swept t ∷ after) s) ≡ some t0
    → now ≤ t0 + (cache_ttl + cache_sweep_interval)
unfolding run
run-ages [] after t start now s (later, order) m recent uid t0 e = omega (
  arith,
  run-AreFresh after t t now (sweep t s) order (omega arith) (sweep-IsMap t s m)
      (swept-AreFresh t s m) uid t0 e,
)
run-ages (added u t' ∷ before) after t start now s (later, order) m recent uid t0 e =
    run-ages before after t t' now (add u t' s) order (unfold add in set-IsMap u t' s m) recent uid
      t0 e
run-ages (swept t' ∷ before) after t start now s (later, order) m recent uid t0 e =
    run-ages before after t t' now (sweep t' s) order (sweep-IsMap t' s m) recent uid t0 e
