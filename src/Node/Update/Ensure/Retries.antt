-- ===== src/Node/Update/Ensure/Retries.antt =====
-- That EnsureLabels uses all its attempts.
use gpuid.Base.{
  ℕ, zero, suc, ◌≤◌, ◌<◌, ◌≡◌, refl, ◌∙◌, Bool, true, false, List, arith, Option, none, some,
  Result, ok, err, Text,
}
use gpuid.Gpu.Serials.{Serials}
use gpuid.Node.Labels.{calculate_gpu_labels}
use gpuid.Node.Update.{ApiError, Updater, try_update}
use gpuid.Node.Update.Backoff.{
  WaitError, timed_out, backoff_config, after_check, poll, grown, Backoff,
}
use gpuid.Node.Update.Ensure.{ensure_labels}
use gpuid.Node.Update.Ensure.Attempts.{poll-true}

module _ {W : Type 0} (condition : W → Result ApiError Bool × W) where
  -- The world after k checks.
  abbrev pub after : ℕ → W → W
  after zero w = w
  after (suc k) w = after k (condition w).1

  -- Each of the first k checks asks for another.
  abbrev pub AreRetried : ℕ → W → Type 0
  AreRetried zero w = Unit
  AreRetried (suc k) w = ((condition w).0 ≡ ok false) × AreRetried k (condition w).1

  after_check-retry :
      (rest : W → Option WaitError × W) (w : W)
      → (condition w).0 ≡ ok false
      → after_check rest (condition w) ≡ rest (condition w).1
  unfolding after_check
  after_check-retry rest w h = of_result (condition w) h
    where
      of_result : (r : Result ApiError Bool × W) → r.0 ≡ ok false → after_check rest r ≡ rest r.1
      of_result (ok false, w') h = refl
      of_result (ok true, w') h = cc
      of_result (err e, w') h = cc

  poll-after :
      (k n : ℕ) (w : W)
      → k < n
      → AreRetried k w
      → (condition (after k w)).0 ≡ ok true
      → poll n condition w ≡ (none, (condition (after k w)).1)
  unfolding poll
  poll-after zero n w lt h e = poll-true condition n w lt e
  poll-after (suc k) zero w lt h e = absurd (omega arith)
  poll-after (suc k) (suc n) w lt (again, h) e =
      after_check-retry (poll n condition) w again
      ∙ poll-after k n (condition w).1 (omega arith) h e

  poll-timed_out :
      (n : ℕ) (w : W) → AreRetried n w → poll n condition w ≡ (some timed_out, after n w)
  unfolding poll
  poll-timed_out zero w h = refl
  poll-timed_out (suc n) w (again, h) =
      after_check-retry (poll n condition) w again ∙ poll-timed_out n (condition w).1 h

-- The delays are 2, 4, 8, 16 and 32 seconds, each below the cap.
backoff_uncapped :
    (k : ℕ)
    → k < backoff_config.steps
    → grown backoff_config.duration backoff_config.factor k ≤ backoff_config.limit
unfolding grown
backoff_uncapped zero h = omega arith
backoff_uncapped (suc zero) h = omega arith
backoff_uncapped (suc (suc zero)) h = omega arith
backoff_uncapped (suc (suc (suc zero))) h = omega arith
backoff_uncapped (suc (suc (suc (suc zero)))) h = omega arith
backoff_uncapped (suc (suc (suc (suc (suc k))))) h = absurd (omega arith)

module _ {W : Type 0} (labeler : Updater W) (backoff : Backoff W) (node : Text)
    (serials : List (Option Serials)) (w : W) where
  abbrev pub attempt : W → Result ApiError Bool × W
  attempt = try_update labeler node (calculate_gpu_labels serials)

  -- If up to four attempts of EnsureLabels fail in a way that can pass, and the next one succeeds,
  -- EnsureLabels reports success after that attempt: it does not give up before the fifth. Assumed:
  -- the retry loop makes all its steps while the delay stays below its cap, as documented.
  pub ensure_labels_retries :
      (k : ℕ)
      → k < 5
      → AreRetried attempt k w
      → (attempt (after attempt k w)).0 ≡ ok true
      → ensure_labels labeler backoff node serials w ≡ (none, (attempt (after attempt k w)).1)
  unfolding ensure_labels
  ensure_labels_retries k lt h e =
      backoff.checks_all backoff_config attempt w backoff_uncapped ∙ poll-after attempt k 5 w lt h e

  -- If five attempts fail in a way that can pass, EnsureLabels reports a timeout and makes no sixth.
  pub ensure_labels_timed_out :
      AreRetried attempt 5 w
      → ensure_labels labeler backoff node serials w ≡ (some timed_out, after attempt 5 w)
  unfolding ensure_labels
  ensure_labels_timed_out h =
      backoff.checks_all backoff_config attempt w backoff_uncapped ∙ poll-timed_out attempt 5 w h
