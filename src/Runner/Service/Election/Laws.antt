-- ===== src/Runner/Service/Election/Laws.antt =====
-- What the result of runWithLeaderElection says about the lease and the controller.
use gpuid.Base.{◌≡◌, ◌≢◌, ◌⊎◌, inl, inr, refl, arith, true, false, Bool, Option, none, some}
use gpuid.Runner.Service.Election.{
  Election, Place, Leading, LeaderState, Step, Reach, acquiring, holding, stopping, returned,
  not_started, running, wrote, closed, leader_shutdown, leader_lost, on_stopped_leading, start,
  later, Leads, not_created, elected, cancel, acquire, give_up, lose, release, stop, finish, close,
  select_done, select_default, return,
}

-- le.Run has not returned.
abbrev pub in_run : {E : Type 0} → Place E → Bool
in_run acquiring = true
in_run holding = true
in_run stopping = true
in_run _ = false

-- le.Run has stopped, or never began, to hold the lease.
abbrev pub has_stopped : {E : Type 0} → Place E → Bool
has_stopped acquiring = false
has_stopped holding = false
has_stopped _ = true

-- What holds in every reachable state.
pub record Inv {E : Type 0} (s : Election E) : Type 0 where
  pub before : s.place ≡ acquiring → s.leading ≡ not_started
  pub held : s.place ≡ holding → s.leading ≢ not_started
  pub live : in_run s.place ≡ true → s.state ≡ leader_shutdown
  pub led : s.state ≡ leader_lost → s.leading ≢ not_started
  pub kept : in_run s.place ≡ false → s.state ≡ leader_shutdown → s.canceled ≡ true
  pub follower : has_stopped s.place ≡ true → s.leading ≡ not_started → s.canceled ≡ true
  pub unset : s.leading ≡ not_started → s.run_err ≡ none
  pub told : s.canceled ≡ true → s.lease_canceled ≡ true
  pub stopped : has_stopped s.place ≡ true → s.lease_canceled ≡ true
  pub result : (st : LeaderState) (e : Option E) → s.place ≡ returned st e → st ≡ s.state
  pub report : (st : LeaderState) (e : E) → s.place ≡ returned st (some e) → s.run_err ≡ some e
  pub early : s.leading ≡ running → s.run_err ≡ none

Step-Inv : {E : Type 0} {s t : Election E} → Inv s → Step s t → Inv t
unfolding on_stopped_leading
Step-Inv i cancel = grind arith
Step-Inv i (acquire h) = grind arith
Step-Inv i (give_up h c) = grind arith
Step-Inv i (lose h) = grind arith
Step-Inv i (release h c) = grind arith
Step-Inv i (stop h) = grind arith
Step-Inv i (finish e h) = grind arith
Step-Inv i (close h) = grind arith
Step-Inv i (select_done h c) = grind arith
Step-Inv i (select_default h c) = grind arith
Step-Inv i (return h) = grind arith

pub Reach-Inv : {E : Type 0} {s : Election E} → Reach s → Inv s
Reach-Inv start = grind arith
Reach-Inv (later r step) = Step-Inv (Reach-Inv r) step

-- What the returned state and error say in the state in which they are returned.
pub record IsVerdict {E : Type 0} (s : Election E) (st : LeaderState) (e : Option E) : Type 0 where
  pub about_lease :
      ((st ≡ leader_lost) × (s.leading ≢ not_started))
      ⊎ ((st ≡ leader_shutdown) × (s.canceled ≡ true))
  pub about_controller : (e ≡ none) ⊎ (s.run_err ≡ e)
  pub about_follower : (s.leading ≢ not_started) ⊎ ((st ≡ leader_shutdown) × (e ≡ none))
  pub controller_told : s.lease_canceled ≡ true

LeaderState-cases : (st : LeaderState) → (st ≡ leader_lost) ⊎ (st ≡ leader_shutdown)
LeaderState-cases leader_lost = inl refl
LeaderState-cases leader_shutdown = inr refl

Leading-cases : (l : Leading) → (l ≡ not_started) ⊎ (l ≢ not_started)
Leading-cases not_started = inl refl
Leading-cases running = inr (λ e. cc)
Leading-cases wrote = inr (λ e. cc)
Leading-cases closed = inr (λ e. cc)

-- Whenever le.Run was called and runWithLeaderElection has returned: leaderLost means that this replica had led, and
-- leaderShutdown that the context is canceled; an error is the one that runController returned; a
-- replica that never led reports leaderShutdown and no error; and the context of runController has
-- been canceled.
pub reached-IsVerdict :
    {E : Type 0} {s : Election E}
    → Reach s
    → (st : LeaderState) (e : Option E) → s.place ≡ returned st e
    → IsVerdict s st e
reached-IsVerdict {E} {s} r st e h = record {
  about_lease = elim (LeaderState-cases st) [
    | inl l ↦ inl (l, i.led (cc (i.result st e h)))
    | inr l ↦ inr (l, i.kept (rw h refl) (cc (i.result st e h)))
  ];
  about_controller = about e h;
  about_follower = elim (Leading-cases s.leading) [
    | inl n ↦ inr (
      elim (LeaderState-cases st) [ inl l ↦ absurd (i.led (cc (i.result st e h)) n) | inr l ↦ l ],
      unreported e h n,
    )
    | inr n ↦ inl n
  ];
  controller_told = i.stopped (rw h refl);
}
  where
    i : Inv s
    i = Reach-Inv r

    about : (e : Option E) → s.place ≡ returned st e → (e ≡ none) ⊎ (s.run_err ≡ e)
    about none h = inl refl
    about (some x) h = inr (i.report st x h)

    unreported : (e : Option E) → s.place ≡ returned st e → s.leading ≡ not_started → e ≡ none
    unreported none h n = refl
    unreported (some x) h n = cc (i.report st x h, i.unset n)

-- Whenever runWithLeaderElection has returned: if NewLeaderElector refused its configuration, with
-- leaderShutdown and the error of that. If not: leaderLost means that this replica had led, and
-- leaderShutdown that the context is canceled; an error is the one that runController returned; a
-- replica that never led reports leaderShutdown and no error; and the context of runController has
-- been canceled.
pub returned-IsVerdict :
    {E : Type 0} (refused : Option E) (s : Election E) (st : LeaderState) (e : Option E)
    → Leads refused s st e
    → ((x : E) × (refused ≡ some x) × (st ≡ leader_shutdown) × (e ≡ some x))
      ⊎ ((refused ≡ none) × IsVerdict s st e)
returned-IsVerdict refused s st e (not_created {e = x} h) = inl (x, h, refl, refl)
returned-IsVerdict refused s st e (elected h r p) = inr (h, reached-IsVerdict r st e p)
