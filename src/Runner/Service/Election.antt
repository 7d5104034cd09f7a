-- ===== src/Runner/Service/Election.antt =====
-- runWithLeaderElection as a step relation. Its steps interleave those of the leader elector of
-- client-go, of the goroutine of OnStartedLeading, and of the function itself. The elector is used as
-- it is documented: Run ends only if the context is canceled or a lease that was held is lost, it
-- calls OnStartedLeading in a goroutine once it has the lease, cancels the context of that call when
-- it stops, and calls OnStoppedLeading before it returns, also if it never led.
pub mod Laws
pub mod Progress
use gpuid.Base.{Bool, true, false, Option, none, some, if◌then◌else◌, ◌≡◌}

-- leaderState
pub data LeaderState : Type 0 where
  leader_shutdown leader_lost : LeaderState

-- The goroutine that runs runController. `wrote` is between the assignment of runErr and the close of
-- runDone.
pub data Leading : Type 0 where
  not_started running wrote closed : Leading

-- Where the function stands: in le.Run (trying to get the lease, holding it, stopping), before the
-- select, before the return, and after it.
pub data Place (E : Type 0) : Type 0 where
  acquiring holding stopping selecting leaving : Place E
  returned : LeaderState → Option E → Place E

pub record Election (E : Type 0) : Type 0 where
  -- ctx.Err() != nil
  pub canceled : Bool
  -- the context of runController is canceled
  pub lease_canceled : Bool
  pub place : Place E
  pub leading : Leading
  pub run_err : Option E
  pub state : LeaderState

-- OnStoppedLeading: if ctx is still live the lease was lost.
unfoldable pub on_stopped_leading : Bool → LeaderState → LeaderState
on_stopped_leading canceled state = if canceled then state else leader_lost

-- runErr before runController returns, and the state before OnStoppedLeading.
abbrev pub init : {E : Type 0} → Election E
init = record {
  canceled = false;
  lease_canceled = false;
  place = acquiring;
  leading = not_started;
  run_err = none;
  state = leader_shutdown;
}

pub data Step {E : Type 0} (s : Election E) : Election E → Type 0 where
  -- a signal
  cancel : Step s (record s { canceled = true; lease_canceled = true })
  -- le.Run: the lease is acquired, and OnStartedLeading is called in a goroutine
  acquire : s.place ≡ acquiring → Step s (record s { place = holding; leading = running })
  -- le.Run: the context is canceled while the lease is not held
  give_up : s.place ≡ acquiring → s.canceled ≡ true → Step s (record s { place = stopping })
  -- le.Run: the lease is not renewed in time
  lose : s.place ≡ holding → Step s (record s { place = stopping; lease_canceled = true })
  -- le.Run: the context is canceled while the lease is held
  release :
      s.place ≡ holding
      → s.canceled ≡ true
      → Step s (record s { place = stopping; lease_canceled = true })
  -- OnStoppedLeading, and the return of le.Run
  stop :
      s.place ≡ stopping
      → Step s (record s { place = selecting; state = on_stopped_leading s.canceled s.state })
  -- runErr = runController(...), with whatever it returns
  finish : (e : Option E) → s.leading ≡ running → Step s (record s { leading = wrote; run_err = e })
  -- close(runDone)
  close : s.leading ≡ wrote → Step s (record s { leading = closed })
  -- case <-runDone
  select_done : s.place ≡ selecting → s.leading ≡ closed → Step s (record s { place = leaving })
  -- default: taken if runDone is not closed
  select_default :
      s.place ≡ selecting → (s.leading ≡ closed → ⊥) → Step s (record s { place = leaving })
  -- return state, runErr
  return : s.place ≡ leaving → Step s (record s { place = returned s.state s.run_err })

pub data Reach {E : Type 0} : Election E → Type 0 where
  start : Reach init
  later : {s t : Election E} → Reach s → Step s t → Reach t

-- What runWithLeaderElection can return, where s is the state at the end. NewLeaderElector, of
-- client-go, may refuse its configuration; the error is then returned before le.Run.
pub data Leads {E : Type 0} (refused : Option E) (s : Election E)
    : LeaderState → Option E → Type 0 where
  not_created : {e : E} → refused ≡ some e → Leads refused s leader_shutdown (some e)
  elected :
      {st : LeaderState} {e : Option E}
      → refused ≡ none
      → Reach s
      → s.place ≡ returned st e
      → Leads refused s st e
