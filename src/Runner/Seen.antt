-- ===== src/Runner/Seen.antt =====
-- uidSet of pkg/runner/setter.go. Times are nanoseconds of the monotonic clock. Each operation holds
-- the lock, so it is one step.
pub mod History
pub mod Ages
use gpuid.Base.{
  ℕ, ◌-◌, ◌*◌, Bool, true, false, not, List, [], ◌∷◌, ltb, leb, if◌then◌else◌, Option, none, some,
  Text, lookup, set,
}

abbrev pub UidSet : Type 0
UidSet = List (Text × ℕ)

abbrev pub minute : ℕ
minute = 60 * 1_000_000_000

-- cacheTTL
abbrev pub cache_ttl : ℕ
cache_ttl = 30 * minute

-- Has, at the time `now`
unfoldable pub has : Text → ℕ → UidSet → Bool
has uid now s = elim (lookup uid s) [ none ↦ false | some t ↦ leb (now - t) cache_ttl ]

-- Add
unfoldable pub add : Text → ℕ → UidSet → UidSet
add uid now s = set uid now s

-- sweep
unfoldable pub sweep : ℕ → UidSet → UidSet
sweep now [] = []
sweep now ((uid, t) ∷ s) = if ltb cache_ttl (now - t) then sweep now s else (uid, t) ∷ sweep now s
