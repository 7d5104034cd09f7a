-- ===== src/Runner/Worker/Once.antt =====
-- A pod that is marked as processed is left alone until its entry expires.
use gpuid.Base.{
  lookup, some, ℕ, ◌-◌, ◌≤◌, ◌≡◌, refl, true, arith, Text, text_eq_refl, ◌⊎◌, inl, inr, Bool-cases,
  lookup-set,
}
use gpuid.Runner.Pod.{Pod, pod_ready}
use gpuid.Runner.Seen.{UidSet, cache_ttl, has, add}
use gpuid.Runner.Worker.Process.{
  Services, Settings, State, finished, ask_time, seen_before, after_seen, process_pod,
}
use gpuid.Runner.Worker.Accounts.{Marked}

has_entry :
    (uid : Text) (t now : ℕ) (s : UidSet)
    → lookup uid s ≡ some t
    → now - t ≤ cache_ttl
    → has uid now s ≡ true
unfolding has
has_entry uid t now s e h = rw (e, has) (ground arith)

-- While the set holds a time for the pod that is not longer ago than the TTL, processPod ends
-- without an error and reads the clock at most: it calls neither the pod, nor the node, nor the
-- exporter, and counts nothing.
pub process_pod-once :
    {W : Type 0} (s : Services W) (cmd : Settings) (pod : Pod) (st : State W) (t : ℕ)
    → lookup pod.uid st.processed ≡ some t
    → (s.now st.world).0 - t ≤ cache_ttl
    → (process_pod s cmd pod st ≡ (finished, st))
      ⊎ (process_pod s cmd pod st ≡ (finished, record st { world = (s.now st.world).1 }))
unfolding process_pod seen_before ask_time after_seen
process_pod-once s cmd pod st t e h = elim (Bool-cases (pod_ready pod)) [
  | inr q ↦ inl (rw q refl)
  | inl q ↦
      let seen = has_entry pod.uid t (s.now st.world).0 st.processed e h in
      inr (rw (q, e, ask_time, seen) refl)
]

-- A run of processPod that marks its pod is the last before the TTL is over: a second run, however
-- the world changed since, ends without an error and reads the clock at most.
pub process_pod-twice :
    {W : Type 0} (s : Services W) (cmd : Settings) (pod : Pod) (st st' : State W) (w : W)
    → (m : Marked pod st st') → (s.now w).0 - m.0 ≤ cache_ttl
    → (process_pod s cmd pod (record st' { world = w }) ≡ (finished, record st' { world = w }))
      ⊎ (process_pod s cmd pod (record st' { world = w })
          ≡ (finished, record st' { world = (s.now w).1 }))
unfolding add
process_pod-twice s cmd pod st st' w (t, e) h =
    process_pod-once s cmd pod (record st' { world = w }) t
      (rw (e, lookup-set pod.uid pod.uid t st.processed, text_eq_refl pod.uid) refl) h
