-- ===== src/Runner/Service/Election/Progress.antt =====
-- That runWithLeaderElection comes to its end.
use gpuid.Base.{◌≡◌, ◌≢◌, ◌⊎◌, inl, inr, refl, true}
use gpuid.Runner.Service.Election.{
  Election, Place, Leading, LeaderState, Step, acquiring, holding, stopping, selecting, leaving,
  returned, not_started, running, wrote, closed, give_up, release, stop, select_done,
  select_default, return,
}
use gpuid.Runner.Service.Election.Laws.{in_run}

-- A run of steps.
pub data Steps {E : Type 0} : Election E → Election E → Type 0 where
  here : {s : Election E} → Steps s s
  next : {s t u : Election E} → Step s t → Steps t u → Steps s u

-- It has returned, and neither started nor finished the controller on the way.
pub record Returns {E : Type 0} (s : Election E) : Type 0 where
  pub last : Election E
  pub verdict : LeaderState
  pub steps : Steps s last
  pub done : last.place ≡ returned verdict s.run_err
  pub untouched : last.leading ≡ s.leading

before :
    {E : Type 0} {s t : Election E}
    → Step s t
    → t.leading ≡ s.leading
    → t.run_err ≡ s.run_err
    → Returns t
    → Returns s
before step l e r = record {
  last = r.last;
  verdict = r.verdict;
  steps = next step r.steps;
  done = cc (r.done);
  untouched = cc (r.untouched);
}

from_leaving : {E : Type 0} (s : Election E) → s.place ≡ leaving → Returns s
from_leaving s h = record {
  last = record s { place = returned s.state s.run_err };
  verdict = s.state;
  steps = next (return h) here;
  done = refl;
  untouched = refl;
}

Leading-closed : (l : Leading) → (l ≡ closed) ⊎ (l ≢ closed)
Leading-closed closed = inl refl
Leading-closed not_started = inr (λ e. cc)
Leading-closed running = inr (λ e. cc)
Leading-closed wrote = inr (λ e. cc)

from_selecting : {E : Type 0} (s : Election E) → s.place ≡ selecting → Returns s
from_selecting s h = elim (Leading-closed s.leading) [
  | inl c ↦ before (select_done h c) refl refl (from_leaving _ refl)
  | inr c ↦ before (select_default h c) refl refl (from_leaving _ refl)
]

from_stopping : {E : Type 0} (s : Election E) → s.place ≡ stopping → Returns s
from_stopping s h = before (stop h) refl refl (from_selecting _ refl)

from_place :
    {E : Type 0} (s : Election E) (p : Place E)
    → s.place ≡ p
    → in_run p ≡ true
    → s.canceled ≡ true
    → Returns s
from_place s acquiring h t c = before (give_up h c) refl refl (from_stopping _ refl)
from_place s holding h t c = before (release h c) refl refl (from_stopping _ refl)
from_place s stopping h t c = from_stopping s h
from_place s _ h t c = cc

-- Once the context is canceled, runWithLeaderElection can return from wherever it is in le.Run,
-- with the error that runController has returned so far, and with no step of runController: it does
-- not wait for a controller that is still running.
pub canceled-Returns :
    {E : Type 0} (s : Election E) → s.canceled ≡ true → in_run s.place ≡ true → Returns s
canceled-Returns s c t = from_place s s.place refl t c
