-- ===== src/Runner/Worker/Counters.antt =====
-- The two counters of the worker as metrics: the lists of increments in its state are what
-- Prometheus shows.
use gpuid.Base.{
  ℕ, ◌&&◌, if◌then◌else◌, ◌+◌, ◌≡◌, refl, sym, arith, false, List, [], ◌∷◌, map, length, All,
  Option, none, some, Text, codes, text_eq, text_eq_refl, subst,
}
use gpuid.Counter.{Prometheus, Counter, new}
use gpuid.Counter.Values.{
  IsPrometheus, IsMade, new-IsMade, occurrences, increment_all, increment_all_lem,
}

abbrev success_total : Text
success_total = codes "gpuid_export_success_total"

abbrev failure_total : Text
failure_total = codes "gpuid_export_failure_total"

abbrev success_help : Text
success_help = codes "Total number of successful export executions"

abbrev failure_help : Text
failure_help = codes "Total number of failed export executions"

abbrev counter_names : List Text
counter_names = codes "node" ∷ codes "pod" ∷ []

-- counterSuccess and counterErr
module _ {V W : Type 0} (client : Prometheus V W) where
  unfoldable pub with_success : Option (Counter V × W) → Option ((Counter V × Counter V) × W)
  with_success none = none
  with_success (some (success, w)) = elim (new client failure_total failure_help counter_names w) [
    | none ↦ none
    | some (failure, w') ↦ some ((success, failure), w')
  ]

  unfoldable pub counters : W → Option ((Counter V × Counter V) × W)
  unfolding with_success
  counters w = with_success (new client success_total success_help counter_names w)

apart :
    (text_eq success_total failure_total ≡ false) × (text_eq failure_total success_total ≡ false)
unfolding text_eq
apart = (refl, refl)

-- The values of an increment.
abbrev pub label_values : Text × Text → List Text
label_values (node, pod) = node ∷ pod ∷ []

-- How often a list has the pair of a node and a pod.
abbrev pub times : Text → Text → List (Text × Text) → ℕ
times node pod [] = 0
times node pod ((n, p) ∷ l) = (if text_eq n node && text_eq p pod then 1 else 0) + times node pod l

occurrences-times :
    (node pod : Text) (l : List (Text × Text))
    → occurrences (node ∷ pod ∷ []) (map label_values l) ≡ times node pod l
occurrences-times node pod [] = refl
occurrences-times node pod ((n, p) ∷ l) = ground (arith, occurrences-times node pod l)

label_values-length : (l : List (Text × Text)) → All (λ v. length v ≡ 2) (map label_values l)
label_values-length [] = tt
label_values-length ((n, p) ∷ l) = (refl, label_values-length l)

module _ {V W : Type 0} (client : Prometheus V W) (law : IsPrometheus client) (w : W)
    (successes failures : List (Text × Text)) where
  open law use {registered, value}

  -- The counters are made, take all increments, and show them.
  pub record Shows : Type 0 where
    pub success : Counter V
    pub failure : Counter V
    pub start : W
    pub counted : W
    pub last : W
    pub made : counters client w ≡ some ((success, failure), start)
    pub takes_successes :
        increment_all client success (map label_values successes) start ≡ some counted
    pub takes_failures :
        increment_all client failure (map label_values failures) counted ≡ some last
    pub shows_successes :
        (node pod : Text)
        → value last success_total (node ∷ pod ∷ [])
          ≡ times node pod successes + value w success_total (node ∷ pod ∷ [])
    pub shows_failures :
        (node pod : Text)
        → value last failure_total (node ∷ pod ∷ [])
          ≡ times node pod failures + value w failure_total (node ∷ pod ∷ [])

  takes :
      (c : Counter V) (l : List (Text × Text))
      → law.arity c.vec ≡ 2
      → All (λ v. length v ≡ law.arity c.vec) (map label_values l)
  takes c l h =
      subst (λ k. All (λ v. length v ≡ k) (map label_values l)) (sym h) (label_values-length l)

  from_made :
      (s : IsMade client law success_total counter_names w
        (new client success_total success_help counter_names w))
      (f : IsMade client law failure_total counter_names s.world
        (new client failure_total failure_help counter_names s.world))
      → Shows
  unfolding counters with_success
  from_made s f =
      let (w1, grown, adds) =
        increment_all_lem client law s.counter success_total (map label_values successes) f.world
          s.has_name (takes s.counter successes s.has_arity) in
      let (w2, grown', adds') =
        increment_all_lem client law f.counter failure_total (map label_values failures) w1
          f.has_name (takes f.counter failures f.has_arity) in
      record {
        success = s.counter;
        failure = f.counter;
        start = f.world;
        counted = w1;
        last = w2;
        made = rw (s.made, with_success, f.made) refl;
        takes_successes = grown;
        takes_failures = grown';
        shows_successes = λ node pod. ground (
          arith,
          occurrences-times node pod successes,
          adds success_total (node ∷ pod ∷ []),
          adds' success_total (node ∷ pod ∷ []),
          s.keeps_values success_total (node ∷ pod ∷ []),
          f.keeps_values success_total (node ∷ pod ∷ []),
          apart,
          text_eq_refl success_total,
        );
        shows_failures = λ node pod. ground (
          arith,
          occurrences-times node pod failures,
          adds failure_total (node ∷ pod ∷ []),
          adds' failure_total (node ∷ pod ∷ []),
          s.keeps_values failure_total (node ∷ pod ∷ []),
          f.keeps_values failure_total (node ∷ pod ∷ []),
          apart,
          text_eq_refl failure_total,
        );
      }

  -- If the registry has neither name, the package makes its two counters without a panic; no
  -- increment of the worker panics, and for every node and pod the two metrics, at the values node
  -- and pod in this order, grow by how often the lists of increments of its state hold the pair.
  -- Assumed: the Prometheus client registers, and counts for each vector and its values, as
  -- documented.
  pub counters-Shows :
      registered w success_total ≡ false → registered w failure_total ≡ false → Shows
  counters-Shows hs hf =
      let s = new-IsMade client law success_total success_help counter_names w hs in
      from_made s (
        new-IsMade client law failure_total failure_help counter_names s.world
          (ground (arith, s.adds_name failure_total, apart)))
