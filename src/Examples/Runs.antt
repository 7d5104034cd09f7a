-- ===== src/Examples/Runs.antt =====
-- A run of processPod by one of two workers, while the other is at work on another pod.
use gpuid.Base.{
  ℕ, ◌≤◌, ◌≡◌, refl, subst, arith, [], Option, none, some, Text, codes, text_eq, text_eq_iff, ◌==◌,
  Bool-cases, inl, inr, false, ◌≢◌, ◌∙◌,
}
use gpuid.Runner.Export.{Backend}
use gpuid.Node.Provider.{Fetch}
use gpuid.Runner.Worker.Process.{process_pod}
use gpuid.Runner.Worker.Timed.{IsClock}
use gpuid.Runner.Worker.Concurrent.{uid_of, tick, deliver}
use gpuid.Runner.Worker.Concurrent.Runs.{Ends, process_pod-Ends}
use gpuid.Examples.Runner.{services, settings, pod, idle as at_rest}
use gpuid.Examples.Concurrent.{key_of, Run, then, started}

-- What holds of a value, as the only one of an option.
abbrev Holds : {A : Type 0} → (A → Type 0) → Option A → Type 0
Holds P (some a) = P a
Holds P none = Unit {0}

of_some : {u v : Text} → some u ≡ some v → u ≡ v
of_some {u} h = subst (Holds (λ (w : Text). u ≡ w)) h refl

clock : IsClock services
clock = record {
  time = λ w. w;
  now_reads = λ w. (omega arith, omega arith);
  jitter_later = λ w. omega arith;
  query_later = λ pod c w. omega arith;
  get_later = λ node w. omega arith;
  patch_later = λ node p w. omega arith;
  fetch_later = λ fetch e node w. subst (Holds (λ (f : Fetch ℕ). w ≤ (f node w).1)) e (omega arith);
  backend_now_later = λ b e w. subst (Holds (λ (b : Backend ℕ). w ≤ (b.now w).1)) e (omega arith);
  backend_write_later =
      λ b e r w. subst (Holds (λ (b : Backend ℕ). w ≤ (b.write r w).1)) e (omega arith);
}

abbrev other : Text
other = codes "u2"

other_at_work : Run
other_at_work =
    let r = then started (tick {t = 4} (omega arith)) in
    then r (deliver 1 other refl (λ j v e. cc e))

other_apart : text_eq other pod.uid ≡ false
unfolding text_eq
other_apart = refl

uid_apart : (j : ℕ) (v : Text) → uid_of (other_at_work.0.at j) ≡ some v → v ≢ pod.uid
unfolding other_at_work
uid_apart j v = elim (Bool-cases (1 == j)) [
  | inl e ↦ rw e (λ h same. cc (other_apart, (text_eq_iff other pod.uid).1 (of_some h ∙ same)))
  | inr e ↦ rw e (λ h. cc h)
]

two_at_work : Run
unfolding other_at_work
two_at_work = then other_at_work (deliver 0 pod.uid refl uid_apart)

process_pod-Ends_example :
    Ends key_of two_at_work.0 0 pod [] (process_pod services settings pod at_rest).1
unfolding two_at_work other_at_work clock
process_pod-Ends_example =
    process_pod-Ends services settings pod clock key_of two_at_work.0 0 at_rest two_at_work.1 refl
      refl (omega arith)
