-- ===== src/Runner/Worker/Concurrent/Refines.antt =====
-- That a run of processPod is made of the moves of a worker.
use gpuid.Base.{
  ℕ, ◌+◌, ◌-◌, ◌≡◌, refl, ap, sym, ◌∙◌, subst, arith, Bool, true, false, Bool-cases, inl, inr, List,
  [], length, leb, Option, none, some, Text, lookup,
}
use gpuid.Runner.Pod.{Pod, pod_ready}
use gpuid.Runner.Seen.{UidSet, cache_ttl, has}
use gpuid.Runner.Worker.Process.{
  Services, Settings, State, Outcome, finished, canceled, transient, ask_time, seen_before,
  after_seen, jitter_stage, process_pod,
}
use gpuid.Runner.Worker.Accounts.{Accounts, jitter_stage-Accounts}
use gpuid.Runner.Worker.Concurrent.{
  Place, got, looked, working, ending, Move, pass_over, look, seen, unknown, expired, fail, skip,
  export, mark,
}

-- Moves of one worker, at any times, with the number of exports among them.
pub data MovePath : UidSet → Place → UidSet → Place → ℕ → Type 0 where
  here : {s : UidSet} {p : Place} → MovePath s p s p 0
  next :
      {s s' s'' : UidSet} {p q r : Place} {new : List (Text × ℕ)} {n : ℕ} (now : ℕ)
      → Move now s p s' new q
      → MovePath s' q s'' r n
      → MovePath s p s'' r (length new + n)

-- From a set and the successes so far, moves lead to the set at the end, with an export for each
-- success that is counted.
pub record Follows {W : Type 0} (pod : Pod) (set : UidSet) (successes : List (Text × Text))
    (p : Place) (st' : State W) : Type 0 where
  pub exports : ℕ
  pub path : MovePath set p st'.processed (ending pod.uid) exports
  pub counted : length st'.successes ≡ exports + length successes

module _ {W : Type 0} (pod : Pod) (set : UidSet) (successes : List (Text × Text)) where
  prepend :
      {p q : Place} {st' : State W} (now : ℕ)
      → Move now set p set [] q
      → Follows pod set successes q st'
      → Follows pod set successes p st'
  prepend now m f = record {
    exports = 0 + f.exports;
    path = next now m f.path;
    counted = omega (arith, f.counted);
  }

  ended :
      (st' : State W)
      → st'.processed ≡ set
      → st'.successes ≡ successes
      → Follows pod set successes (ending pod.uid) st'
  ended st' p q = record {
    exports = 0;
    path = subst (λ s. MovePath set (ending pod.uid) s (ending pod.uid) 0) (sym p) here;
    counted = ap length q ∙ omega arith;
  }

module _ {W : Type 0} (pod : Pod) where
  -- From the jitter on, by the outcome.
  working-Follows :
      (st st' : State W) (o : Outcome)
      → Accounts pod st o st'
      → Follows pod st.processed st.successes (working pod.uid) st'
  working-Follows st st' canceled (p, q, f) = prepend pod _ _ 0 fail (ended pod _ _ st' p q)
  working-Follows st st' (transient e) (p, q, f) = prepend pod _ _ 0 fail (ended pod _ _ st' p q)
  working-Follows st st' finished (inl (p, q, f)) = prepend pod _ _ 0 fail (ended pod _ _ st' p q)
  working-Follows st st' finished (inr ((t, m), f, inl q)) = record {
    exports = 0 + (0 + 0);
    path =
        subst (λ s. MovePath st.processed (working pod.uid) s (ending pod.uid) (0 + (0 + 0)))
          (sym m) (next t skip (next t mark here));
    counted = ap length q ∙ omega arith;
  }
  working-Follows st st' finished (inr ((t, m), f, inr q)) = record {
    exports = 1 + (0 + 0);
    path =
        subst (λ s. MovePath st.processed (working pod.uid) s (ending pod.uid) (1 + (0 + 0)))
          (sym m) (next t export (next t mark here));
    counted = ap length q ∙ omega arith;
  }

pub has-lookup :
    (u : Text) (t t0 : ℕ) (set : UidSet)
    → lookup u set ≡ some t0
    → leb (t - t0) cache_ttl ≡ has u t set
unfolding has
has-lookup u t t0 set h = rw (h, has) refl

module _ {W : Type 0} (s : Services W) (cmd : Settings) (pod : Pod) where
  jitter_stage-Follows :
      (st : State W)
      → Follows pod st.processed st.successes (working pod.uid) (jitter_stage s cmd pod st).1
  jitter_stage-Follows st =
      working-Follows pod st (jitter_stage s cmd pod st).1 (jitter_stage s cmd pod st).0
        (jitter_stage-Accounts s cmd pod st)

  answer-Follows :
      (st : State W) (t0 t : ℕ) (w : W) (answer : Bool)
      → leb (t - t0) cache_ttl ≡ answer
      → Follows pod st.processed st.successes
          (looked pod.uid (some t0))
          (after_seen s cmd pod (answer, record st { world = w })).1
  unfolding after_seen
  answer-Follows st t0 t w true e =
      prepend pod _ _ t (seen (ground arith)) (ended pod _ _ (record st { world = w }) refl refl)
  answer-Follows st t0 t w false e =
      prepend pod _ _ t (expired (ground arith)) (jitter_stage-Follows (record st { world = w }))

  looked-Follows :
      (st : State W) (o : Option ℕ)
      → lookup pod.uid st.processed ≡ o
      → Follows pod st.processed st.successes
          (looked pod.uid o)
          (after_seen s cmd pod (ask_time s cmd pod o st)).1
  unfolding after_seen ask_time
  looked-Follows st none h = prepend pod _ _ 0 unknown (jitter_stage-Follows st)
  looked-Follows st (some t0) h =
      let (t, w) = s.now st.world in
      answer-Follows st t0 t w (has pod.uid t st.processed) (has-lookup pod.uid t t0 st.processed h)

  -- Every run of processPod is made of moves of a worker that has got the pod, to the place before
  -- Done: with their effect on the set, and with as many exports as successes are counted.
  pub process_pod-Follows :
      (st : State W)
      → Follows pod st.processed st.successes (got pod.uid) (process_pod s cmd pod st).1
  unfolding process_pod seen_before
  process_pod-Follows st = elim (Bool-cases (pod_ready pod)) [
    | inr e ↦ rw e (prepend pod _ _ 0 pass_over (ended pod _ _ st refl refl))
    | inl e ↦ rw e (prepend pod _ _ 0 look (looked-Follows st (lookup pod.uid st.processed) refl))
  ]
