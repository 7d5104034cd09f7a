-- ===== src/Runner/Worker/Concurrent.antt =====
-- The workers of do over one work queue and one set of processed pods, interleaved in any order, with
-- the sweeper of pkg/runner/setter.go. A worker takes a step for each access to what they share: Get
-- and Done of the queue, the read of Has under its lock, its look at the clock after that, Add, and
-- the export. The queue is used as it is documented: a key is not handed out again before its Done.
pub mod Invariant
pub mod Moves
pub mod Spaced
pub mod Refines
pub mod Runs
use gpuid.Base.{
  ℕ, ◌-◌, ◌≤◌, ◌<◌, ◌≡◌, ◌≢◌, List, [], ◌∷◌, ◌++◌, ◌==◌, if◌then◌else◌, Option, none, some, Text,
  lookup,
}
use gpuid.Runner.Seen.{UidSet, cache_ttl, add, sweep}

abbrev pub update : {A : Type 0} → (ℕ → A) → ℕ → A → ℕ → A
update f i a j = if i == j then a else f j

-- Where a worker stands, with the UID of its pod: in Get; before Has; in Has, with the entry that it
-- read; from the jitter to the export; before Add; before Done.
pub data Place : Type 0 where
  idle : Place
  got : Text → Place
  looked : Text → Option ℕ → Place
  working : Text → Place
  exported : Text → Place
  ending : Text → Place

-- The UID of the pod that a worker processes.
abbrev pub uid_of : Place → Option Text
uid_of idle = none
uid_of (got u) = some u
uid_of (looked u e) = some u
uid_of (working u) = some u
uid_of (exported u) = some u
uid_of (ending u) = some u

pub record System : Type 0 where
  pub now : ℕ
  pub processed : UidSet
  -- the successful exports, the last one first: UID and time
  pub exports : List (Text × ℕ)
  pub at : ℕ → Place

-- What a worker does with what is shared.
pub data Move (now : ℕ) : UidSet → Place → UidSet → List (Text × ℕ) → Place → Type 0 where
  -- podReady fails, or what the key names is no pod
  pass_over : {s : UidSet} {u : Text} → Move now s (got u) s [] (ending u)
  -- Has: the read of the map
  look : {s : UidSet} {u : Text} → Move now s (got u) s [] (looked u (lookup u s))
  -- Has answers yes
  seen :
      {s : UidSet} {u : Text} {t : ℕ}
      → now - t ≤ cache_ttl
      → Move now s (looked u (some t)) s [] (ending u)
  -- Has answers no
  unknown : {s : UidSet} {u : Text} → Move now s (looked u none) s [] (working u)
  expired :
      {s : UidSet} {u : Text} {t : ℕ}
      → cache_ttl < now - t
      → Move now s (looked u (some t)) s [] (working u)
  -- canceled, or a transient error
  fail : {s : UidSet} {u : Text} → Move now s (working u) s [] (ending u)
  -- no GPUs: nothing is exported
  skip : {s : UidSet} {u : Text} → Move now s (working u) s [] (exported u)
  -- Export succeeds
  export : {s : UidSet} {u : Text} → Move now s (working u) s ((u, now) ∷ []) (exported u)
  -- Add
  mark : {s : UidSet} {u : Text} → Move now s (exported u) (add u now s) [] (ending u)
  -- Forget or AddRateLimited, and Done
  done : {s : UidSet} {u : Text} → Move now s (ending u) s [] idle

module _ (key_of : Text → Text) where
  pub data Step (s : System) : System → Type 0 where
    -- time passes
    tick : {t : ℕ} → s.now ≤ t → Step s (record s { now = t })
    sweep_now : Step s (record s { processed = sweep s.now s.processed })
    -- Get, and the look-up of the pod: no worker is at work on its key
    deliver :
        (i : ℕ) (u : Text)
        → s.at i ≡ idle
        → ((j : ℕ) (v : Text) → uid_of (s.at j) ≡ some v → key_of v ≢ key_of u)
        → Step s (record s { at = update s.at i (got u) })
    move :
        (i : ℕ) {p q : Place} {set : UidSet} {new : List (Text × ℕ)}
        → s.at i ≡ p
        → Move s.now s.processed p set new q
        → Step s (record s { processed = set; exports = new ++ s.exports; at = update s.at i q })

  abbrev pub init : System
  init = record { now = 0; processed = []; exports = []; at = λ _. idle }

  pub data Reach : System → Type 0 where
    start : Reach init
    later : {s t : System} → Reach s → Step s t → Reach t
