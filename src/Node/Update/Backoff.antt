-- ===== src/Node/Update/Backoff.antt =====
-- The retry loop around a label update. wait.ExponentialBackoff is a parameter: it is documented to
-- check the condition at most Steps times, to stop at the first check that answers true or with an
-- error, and otherwise to report a timeout; and to make all Steps checks unless the delay, which
-- Factor multiplies after each, would exceed Cap.
use gpuid.Base.{
  ℕ, zero, suc, ◌*◌, ◌/◌, ◌≤◌, ◌<◌, ◌≡◌, Bool, true, false, Option, none, some, Result, ok, err,
}
use gpuid.Node.Update.{ApiError}

pub data WaitError : Type 0 where
  failed : ApiError → WaitError
  timed_out : WaitError

-- wait.Backoff; durations in milliseconds, factor and jitter in tenths.
pub record BackoffConfig : Type 0 where
  pub duration : ℕ
  pub factor : ℕ
  pub jitter : ℕ
  pub steps : ℕ
  pub limit : ℕ

-- maxRetries, retryBackoff, maxRetryBackoff
abbrev max_retries : ℕ
max_retries = 5

abbrev pub backoff_config : BackoffConfig
backoff_config = record {
  duration = 2000;
  factor = 20;
  jitter = 1;
  steps = max_retries;
  limit = 45000;
}

-- What follows a check: an end, or the rest of the loop.
unfoldable pub after_check :
    {W : Type 0} → (W → Option WaitError × W) → Result ApiError Bool × W → Option WaitError × W
after_check rest (ok true, w) = (none, w)
after_check rest (ok false, w) = rest w
after_check rest (err e, w) = (some (failed e), w)

-- The condition, checked at most n times.
unfoldable pub poll : {W : Type 0} → ℕ → (W → Result ApiError Bool × W) → W → Option WaitError × W
poll zero condition w = (some timed_out, w)
poll (suc n) condition w = after_check (poll n condition) (condition w)

-- The delay after k multiplications.
unfoldable pub grown : ℕ → ℕ → ℕ → ℕ
grown duration factor zero = duration
grown duration factor (suc k) = grown (duration * factor / 10) factor k

-- wait.ExponentialBackoff, with what its documentation says.
pub record Backoff (W : Type 0) : Type 0 where
  pub exponential_backoff :
      BackoffConfig → (W → Result ApiError Bool × W) → W → Option WaitError × W
  pub checks :
      (c : BackoffConfig) (condition : W → Result ApiError Bool × W) (w : W)
      → (n : ℕ) × (n ≤ c.steps)
        × (0 < c.steps → 0 < n)
        × (exponential_backoff c condition w ≡ poll n condition w)
  pub checks_all :
      (c : BackoffConfig) (condition : W → Result ApiError Bool × W) (w : W)
      → ((k : ℕ) → k < c.steps → grown c.duration c.factor k ≤ c.limit)
      → exponential_backoff c condition w ≡ poll c.steps condition w
