-- ===== src/Examples/Counters.antt =====
-- The counters of the worker on a registry in memory.
use gpuid.Base.{
  ℕ, ◌+◌, ◌==◌, refl, arith, Bool, ◌&&◌, List, [], ◌∷◌, length, exists, if◌then◌else◌, none, some,
  Text, codes, text_eq,
}
use gpuid.Counter.{Prometheus}
use gpuid.Counter.Values.{IsPrometheus, same_values}
use gpuid.Runner.Worker.Counters.{Shows, counters-Shows}

-- A vector is its name and its labels; the registry is the names, and the increments so far.
abbrev Vector : Type 0
Vector = Text × List Text

abbrev Registry : Type 0
Registry = List Text × List Vector

abbrev is_registered : Registry → Text → Bool
is_registered w n = exists (λ m. text_eq m n) w.0

abbrev count : Text → List Text → List Vector → ℕ
count n values [] = 0
count n values ((m, v) ∷ incs) =
    (if text_eq m n && same_values v values then 1 else 0) + count n values incs

abbrev client : Prometheus Vector Registry
client = record {
  new_counter_vec = λ name help labels. (name, labels);
  must_register = λ v w. if is_registered w v.0 then none else some (v.0 ∷ w.0, w.1);
  inc = λ v values w. if length values == length v.1 then some (w.0, (v.0, values) ∷ w.1) else none;
}

client-IsPrometheus : IsPrometheus client
client-IsPrometheus = record {
  registered = is_registered;
  value = λ w n values. count n values w.1;
  name_of = λ v. v.0;
  arity = λ v. length v.1;
  named = λ name help labels. (refl, refl);
  registers = λ v w h. ((v.0 ∷ w.0, w.1), ground arith, λ n. refl, λ n values. refl);
  increments = λ v values w h. ((w.0, (v.0, values) ∷ w.1), ground arith, λ n others. refl);
}

counters-Shows_example :
    Shows client client-IsPrometheus
      ([], [])
      ((codes "n1", codes "p1") ∷ (codes "n1", codes "p1") ∷ [])
      ((codes "n2", codes "p2") ∷ [])
unfolding client-IsPrometheus
counters-Shows_example =
    counters-Shows client client-IsPrometheus ([], [])
      ((codes "n1", codes "p1") ∷ (codes "n1", codes "p1") ∷ []) ((codes "n2", codes "p2") ∷ [])
      refl refl
