-- ===== src/Examples/Election.antt =====
-- A replica that leads and loses its lease while its controller runs.
use gpuid.Base.{ℕ, Option, ◌≡◌, ◌⊎◌, refl, true, false, none, some}
use gpuid.Runner.Service.Election.{
  Election, elected, holding, running, returned, leader_shutdown, leader_lost, on_stopped_leading,
  Reach, start, wrote, later, cancel, acquire, lose, release, stop, finish, select_default, return,
}
use gpuid.Runner.Service.Election.Laws.{IsVerdict, returned-IsVerdict}
use gpuid.Runner.Service.Election.Progress.{Returns, canceled-Returns}

-- The last state, with an error of the controller that is found later, if it is.
abbrev pub after_loss : Election ℕ
after_loss = record {
  canceled = false;
  lease_canceled = true;
  place = returned leader_lost none;
  leading = running;
  run_err = none;
  state = leader_lost;
}

pub loss : Reach after_loss
unfolding on_stopped_leading
loss =
    later
      (later (later (later (later start (acquire refl)) (lose refl)) (stop refl))
        (select_default refl (λ e. cc e)))
      (return refl)

returned-IsVerdict_example :
    ((x : ℕ) × (none ≡ some x) × (leader_lost ≡ leader_shutdown) × (none ≡ some x))
    ⊎ ((◌≡◌ {A = Option ℕ} none none) × IsVerdict after_loss leader_lost none)
returned-IsVerdict_example =
    returned-IsVerdict none after_loss leader_lost none (elected refl loss refl)

-- The signal comes while it leads.
abbrev leader : Election ℕ
leader = record {
  canceled = true;
  lease_canceled = true;
  place = holding;
  leading = running;
  run_err = none;
  state = leader_shutdown;
}

canceled-Returns_example : Returns leader
canceled-Returns_example = canceled-Returns leader refl refl

-- The state in which it has returned with no error, and the controller then fails.
abbrev after_signal : Election ℕ
after_signal = record {
  canceled = true;
  lease_canceled = true;
  place = returned leader_shutdown none;
  leading = running;
  run_err = none;
  state = leader_shutdown;
}

error_missed : Reach (record after_signal { leading = wrote; run_err = some 7 })
unfolding on_stopped_leading
error_missed =
    later
      (later
        (later
          (later (later (later (later start (acquire refl)) cancel) (release refl refl))
            (stop refl))
          (select_default refl (λ e. cc e)))
        (return refl))
      (finish (some 7) refl)
