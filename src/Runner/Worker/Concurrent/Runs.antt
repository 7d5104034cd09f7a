-- ===== src/Runner/Worker/Concurrent/Runs.antt =====
-- That a run of processPod is a stretch of an execution of the workers, on a clock that does not run
-- backwards: from where the worker has got the pod to where it is about to call Done.
use gpuid.Base.{
  ℕ, ◌-◌, ◌≤◌, ◌≡◌, ◌≢◌, refl, ap, sym, ◌∙◌, subst, arith, ◌⊎◌, inl, inr, Bool, true, false,
  Bool-cases, List, [], ◌∷◌, ◌++◌, append_assoc, leb, Option, none, some, Text, lookup,
}
use gpuid.Runner.Pod.{Pod, pod_ready}
use gpuid.Runner.Seen.{UidSet, cache_ttl, has}
use gpuid.Runner.Worker.Process.{
  Services, Settings, State, Outcome, finished, canceled, transient, counter_labels, ask_time,
  seen_before, after_seen, jitter_stage, process_pod,
}
use gpuid.Runner.Worker.Timed.{IsClock, Timed, jitter_stage-Timed}
use gpuid.Runner.Worker.Concurrent.{
  update, Place, got, looked, working, ending, System, Move, pass_over, look, seen, unknown,
  expired, fail, skip, export, mark, Reach, later, tick, move,
}
use gpuid.Runner.Worker.Concurrent.Moves.{update_cases, update_self}
use gpuid.Runner.Worker.Concurrent.Refines.{has-lookup}

-- A reachable system that differs from base by what worker i did up to a time: its place, the set, and
-- new exports.
pub record Here (key_of : Text → Text) (base : System) (i : ℕ) (p : Place) (set : UidSet)
    (new : List (Text × ℕ)) (now : ℕ) : Type 0 where
  pub sys : System
  pub reach : Reach key_of sys
  pub past : sys.now ≤ now
  pub processed_is : sys.processed ≡ set
  pub exports_are : sys.exports ≡ new ++ base.exports
  pub place : sys.at i ≡ p
  pub others : (j : ℕ) → i ≢ j → sys.at j ≡ base.at j

-- The exports of a run, one if it counts a success.
abbrev pub Counted : {W : Type 0} → Pod → List (Text × Text) → List (Text × ℕ) → State W → Type 0
Counted pod successes new st' =
    ((new ≡ []) × (st'.successes ≡ successes))
    ⊎ ((t : ℕ) × (new ≡ (pod.uid, t) ∷ []) × (st'.successes ≡ counter_labels pod ∷ successes))

-- A stretch that ends as a run did.
pub record Ends {W : Type 0} (key_of : Text → Text) (base : System) (i : ℕ) (pod : Pod)
    (successes : List (Text × Text)) (st' : State W) : Type 0 where
  pub new : List (Text × ℕ)
  pub now : ℕ
  pub here : Here key_of base i (ending pod.uid) st'.processed new now
  pub counted : Counted pod successes new st'

module _ {key_of : Text → Text} {base : System} {i : ℕ} where
  -- Time passes, and the worker moves.
  advance :
      {p q : Place} {set set' : UidSet} {new more : List (Text × ℕ)} {n : ℕ} (t : ℕ)
      → n ≤ t
      → Move t set p set' more q
      → Here key_of base i p set new n
      → Here key_of base i q set' (more ++ new) t
  advance {p} {q} {set} {set'} {new} {more} t le m h = record {
    sys = record {
      now = t;
      processed = set';
      exports = more ++ h.sys.exports;
      at = update h.sys.at i q;
    };
    reach =
        later (later h.reach (tick (omega (arith, le, h.past))))
          (move i h.place (subst (λ s. Move t s p set' more q) (sym h.processed_is) m));
    past = omega arith;
    processed_is = refl;
    exports_are =
        ap (λ (xs : List (Text × ℕ)). more ++ xs) h.exports_are
        ∙ sym (append_assoc more new base.exports);
    place = update_self h.sys.at i q;
    others = λ j other. elim (update_cases h.sys.at i q j) [
      | inl (same, is) ↦ absurd (other same)
      | inr (differ, is) ↦ is ∙ h.others j other
    ];
  }

  ended :
      {W : Type 0} {pod : Pod} {set : UidSet} {n : ℕ} (st st' : State W)
      → Here key_of base i (ending pod.uid) set [] n
      → st'.processed ≡ set
      → st'.successes ≡ st.successes
      → Ends key_of base i pod st.successes st'
  ended {W} {pod} {set} {n} st st' h p q = record {
    new = [];
    now = n;
    here = subst (λ s. Here key_of base i (ending pod.uid) s [] n) (sym p) h;
    counted = inl (refl, q);
  }

  -- From the jitter on, by the outcome.
  working-Ends :
      {W : Type 0} (pod : Pod) {n : ℕ} (st st' : State W) (o : Outcome)
      → Here key_of base i (working pod.uid) st.processed [] n
      → Timed pod n st o st'
      → Ends key_of base i pod st.successes st'
  working-Ends pod {n} st st' canceled h (p, q) = ended st st' (advance n (omega arith) fail h) p q
  working-Ends pod {n} st st' (transient e) h (p, q) =
      ended st st' (advance n (omega arith) fail h) p q
  working-Ends pod {n} st st' finished h (t, le, m, inl q) = record {
    new = [];
    now = t;
    here =
        subst (λ s. Here key_of base i (ending pod.uid) s [] t) (sym m)
          (advance t (omega arith) mark (advance t le skip h));
    counted = inl (refl, q);
  }
  working-Ends pod {n} st st' finished h (t, le, m, inr q) = record {
    new = (pod.uid, t) ∷ [];
    now = t;
    here =
        subst (λ s. Here key_of base i (ending pod.uid) s ((pod.uid, t) ∷ []) t) (sym m)
          (advance t (omega arith) mark (advance t le export h));
    counted = inr (t, refl, q);
  }

module _ {W : Type 0} (s : Services W) (cmd : Settings) (pod : Pod) (c : IsClock s)
    (key_of : Text → Text) (base : System) (i : ℕ) where
  jitter_stage-Ends :
      {n : ℕ} (st : State W)
      → Here key_of base i (working pod.uid) st.processed [] n
      → n ≤ c.time st.world
      → Ends key_of base i pod st.successes (jitter_stage s cmd pod st).1
  jitter_stage-Ends {n} st h le =
      working-Ends pod st (jitter_stage s cmd pod st).1 (jitter_stage s cmd pod st).0 h
        (jitter_stage-Timed s cmd pod c n st le)

  -- Has found an entry, and looks at the clock at t.
  answer-Ends :
      {n : ℕ} (st : State W) (t0 t : ℕ) (w : W) (answer : Bool)
      → n ≤ t
      → t ≤ c.time w
      → leb (t - t0) cache_ttl ≡ answer
      → Here key_of base i (looked pod.uid (some t0)) st.processed [] n
      → Ends key_of base i pod st.successes
          (after_seen s cmd pod (answer, record st { world = w })).1
  unfolding after_seen
  answer-Ends st t0 t w true le le' e h =
      ended st (record st { world = w }) (advance t le (seen (ground arith)) h) refl refl
  answer-Ends st t0 t w false le le' e h =
      jitter_stage-Ends (record st { world = w }) (advance t le (expired (ground arith)) h) le'

  looked-Ends :
      {n : ℕ} (st : State W) (o : Option ℕ)
      → lookup pod.uid st.processed ≡ o
      → n ≤ c.time st.world
      → Here key_of base i (looked pod.uid o) st.processed [] n
      → Ends key_of base i pod st.successes (after_seen s cmd pod (ask_time s cmd pod o st)).1
  unfolding after_seen ask_time
  looked-Ends {n} st none found le h = jitter_stage-Ends st (advance n (omega arith) unknown h) le
  looked-Ends {n} st (some t0) found le h =
      let reads = c.now_reads st.world in
      let (t, w) = s.now st.world in
      answer-Ends st t0 t w (has pod.uid t st.processed) (omega (arith, le, reads.0)) reads.1
        (has-lookup pod.uid t t0 st.processed found) h

  -- From a reachable state of the workers and the sweeper in which worker i has got the pod, with
  -- the set of st and at a time that is not after that of its world, the run of processPod from st
  -- is an execution on: there is a reachable state with the set that the run leaves, worker i
  -- before Done, the other workers where they were, and one new export, of the UID, if the run
  -- counts a success, none if not. Assumed: the clock does not run backwards.
  pub process_pod-Ends :
      (st : State W)
      → Reach key_of base
      → base.at i ≡ got pod.uid
      → base.processed ≡ st.processed
      → base.now ≤ c.time st.world
      → Ends key_of base i pod st.successes (process_pod s cmd pod st).1
  unfolding process_pod seen_before
  process_pod-Ends st reach at_got same le =
      let h : Here key_of base i (got pod.uid) st.processed [] base.now = record {
        sys = base;
        reach = reach;
        past = omega arith;
        processed_is = same;
        exports_are = refl;
        place = at_got;
        others = λ j other. refl;
      } in
      elim (Bool-cases (pod_ready pod)) [
        | inr e ↦ rw e (ended st st (advance base.now (omega arith) pass_over h) refl refl)
        | inl e ↦ rw e (
            looked-Ends st (lookup pod.uid st.processed) refl le
              (advance base.now (omega arith) look h))
      ]
