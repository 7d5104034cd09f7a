-- ===== src/Runner/Worker/Accounts.antt =====
-- What processPod does to the counters and to the set of processed pods, on every path.
use gpuid.Base.{
  Bool, lookup, true, false, ap, ◌∙◌, ℕ, ◌≡◌, refl, true, List, [], ◌∷◌, Option, none, some, Result,
  ok, err, Text, is_empty, is_blank, trim_space, ◌⊎◌, inl, inr, Bool-cases,
}
use gpuid.Gpu.Serials.{Serials, Gpu}
use gpuid.Node.Update.Backoff.{WaitError}
use gpuid.Node.Provider.{Info, NodeError}
use gpuid.Runner.Pod.{Pod, pod_ready}
use gpuid.Runner.Seen.{add}
use gpuid.Runner.Export.{
  Backend as ExporterBackend, ExportError, export, not_initialized, cluster_required, node_required,
}
use gpuid.Runner.Worker.Process.{
  Services, Settings, State, Outcome, finished, canceled, transient, TransientError, export_failed,
  counter_labels, count_failure, count_success, mark, after_export, export_stage, after_provider,
  after_labels, label_stage, after_query, query_stage, jitter_stage, ask_time, seen_before,
  after_seen, process_pod,
}

-- The pod was added to the processed ones.
abbrev pub Marked : {W : Type 0} → Pod → State W → State W → Type 0
Marked pod st st' = (t : ℕ) × (st'.processed ≡ add pod.uid t st.processed)

-- The set and both counters are as before.
abbrev pub Untouched : {W : Type 0} → State W → State W → Type 0
Untouched st st' =
    (st'.processed ≡ st.processed) × (st'.successes ≡ st.successes) × (st'.failures ≡ st.failures)

-- What a run of processPod accounts for, by its outcome.
abbrev pub Accounts : {W : Type 0} → Pod → State W → Outcome → State W → Type 0
Accounts pod st finished st' =
    Untouched st st'
    ⊎ (Marked pod st st'
        × (st'.failures ≡ st.failures)
        × ((st'.successes ≡ st.successes) ⊎ (st'.successes ≡ counter_labels pod ∷ st.successes)))
Accounts pod st canceled st' = Untouched st st'
Accounts pod st (transient e) st' =
    (st'.processed ≡ st.processed)
    × (st'.successes ≡ st.successes)
    × ((st'.failures ≡ counter_labels pod ∷ st.failures)
        ⊎ (st'.failures ≡ counter_labels pod ∷ counter_labels pod ∷ st.failures))

-- Without a machine name Export fails, whatever else it is given.
export-no_machine :
    {W : Type 0} (exporter : Option (ExporterBackend W)) (cluster : Text) (pod : Pod)
    (u : Option Serials) (units : List (Option Serials)) (w : W)
    → (e : ExportError) × (export exporter cluster (some pod) [] (u ∷ units) w ≡ (some e, w))
unfolding export is_blank trim_space
export-no_machine none cluster pod u units w = (not_initialized, refl)
export-no_machine (some b) cluster pod u units w = elim (Bool-cases (is_blank cluster)) [
  | inl e ↦ (cluster_required, rw e refl)
  | inr e ↦ (node_required, rw e refl)
]

pub is_empty-nil : (s : Text) → is_empty s ≡ true → s ≡ []
is_empty-nil [] h = refl
is_empty-nil (c ∷ s) h = cc

module _ {W : Type 0} (s : Services W) (cmd : Settings) (pod : Pod) where
  after_export-Accounts :
      (e : Option ExportError) (st : State W)
      → Accounts pod st (after_export s cmd pod e st).0 (after_export s cmd pod e st).1
  unfolding after_export count_failure count_success mark
  after_export-Accounts (some e) st = (refl, refl, inl refl)
  after_export-Accounts none st = inr ((_, refl), refl, inr refl)

  -- If the provider ID gave no identifier, the export of any units fails, and the failure is counted
  -- twice.
  pub export_stage-no_identifier :
      (u : Option Serials) (units : List (Option Serials)) (info : Info) (st : State W)
      → info.identifier ≡ []
      → (e : TransientError) × ((export_stage s cmd pod (u ∷ units) info st).0 ≡ transient e)
        × ((export_stage s cmd pod (u ∷ units) info st).1
            ≡ record st { failures = counter_labels pod ∷ counter_labels pod ∷ st.failures })
  unfolding export_stage after_export count_failure
  export_stage-no_identifier u units info st h =
      let (e, q) = export-no_machine s.exporter cmd.cluster pod u units st.world in
      (export_failed e, rw (h, q) refl, rw (h, q) refl)

  export_stage-Accounts :
      (u : Option Serials) (units : List (Option Serials)) (info : Info) (st : State W)
      → Accounts pod st
          (export_stage s cmd pod (u ∷ units) info st).0
          (export_stage s cmd pod (u ∷ units) info st).1
  export_stage-Accounts u units info st = elim (Bool-cases (is_empty info.identifier)) [
    | inl e ↦
        let (x, o, st') =
          export_stage-no_identifier u units info st (is_empty-nil info.identifier e) in
        rw (o, st') (refl, refl, inr refl)
    | inr e ↦ unfold export_stage in rw e (after_export-Accounts _ _)
  ]

  after_provider-Accounts :
      (u : Option Serials) (units : List (Option Serials)) (r : Result NodeError Info)
      (st : State W)
      → Accounts pod st
          (after_provider s cmd pod (u ∷ units) r st).0
          (after_provider s cmd pod (u ∷ units) r st).1
  unfolding after_provider count_failure
  after_provider-Accounts u units (err e) st = (refl, refl, inl refl)
  after_provider-Accounts u units (ok info) st = export_stage-Accounts u units info st

  after_labels-Accounts :
      (u : Option Serials) (units : List (Option Serials)) (e : Option WaitError) (st : State W)
      → Accounts pod st
          (after_labels s cmd pod (u ∷ units) e st).0
          (after_labels s cmd pod (u ∷ units) e st).1
  unfolding after_labels count_failure
  after_labels-Accounts u units (some e) st = (refl, refl, inl refl)
  after_labels-Accounts u units none st = after_provider-Accounts u units _ _

  label_stage-Accounts :
      (units : List (Option Serials)) (st : State W)
      → Accounts pod st (label_stage s cmd pod units st).0 (label_stage s cmd pod units st).1
  unfolding label_stage mark
  label_stage-Accounts [] st = inr ((_, refl), refl, inl refl)
  label_stage-Accounts (u ∷ units) st = after_labels-Accounts u units _ _

  after_query-Accounts :
      (r : Option (List Gpu)) (st : State W)
      → Accounts pod st (after_query s cmd pod r st).0 (after_query s cmd pod r st).1
  unfolding after_query count_failure
  after_query-Accounts none st = (refl, refl, inl refl)
  after_query-Accounts (some gpus) st = label_stage-Accounts _ st

  pub jitter_stage-Accounts :
      (st : State W) → Accounts pod st (jitter_stage s cmd pod st).0 (jitter_stage s cmd pod st).1
  unfolding jitter_stage query_stage
  jitter_stage-Accounts st = elim (Bool-cases (s.wait_jitter st.world).0) [
    | inl e ↦ rw e (refl, refl, refl)
    | inr e ↦ rw e (after_query-Accounts _ _)
  ]

  ask_time-Untouched : (o : Option ℕ) (st : State W) → Untouched st (ask_time s cmd pod o st).1
  unfolding ask_time
  ask_time-Untouched none st = (refl, refl, refl)
  ask_time-Untouched (some t) st = (refl, refl, refl)

  pub seen_before-Untouched : (st : State W) → Untouched st (seen_before s cmd pod st).1
  unfolding seen_before
  seen_before-Untouched st = ask_time-Untouched (lookup pod.uid st.processed) st

  -- What is accounted for from a state is so from every state that differs in the world alone.
  Accounts-Untouched :
      (o : Outcome) (st st' st'' : State W)
      → Untouched st st'
      → Accounts pod st' o st''
      → Accounts pod st o st''
  Accounts-Untouched finished st st' st'' (p, q, f) (inl (p', q', f')) =
      inl (p' ∙ p, q' ∙ q, f' ∙ f)
  Accounts-Untouched finished st st' st'' (p, q, f) (inr ((t, m), f', inl q')) =
      inr ((t, m ∙ ap (add pod.uid t) p), f' ∙ f, inl (q' ∙ q))
  Accounts-Untouched finished st st' st'' (p, q, f) (inr ((t, m), f', inr q')) =
      inr ((t, m ∙ ap (add pod.uid t) p), f' ∙ f, inr (q' ∙ ap (λ l. counter_labels pod ∷ l) q))
  Accounts-Untouched canceled st st' st'' (p, q, f) (p', q', f') = (p' ∙ p, q' ∙ q, f' ∙ f)
  Accounts-Untouched (transient e) st st' st'' (p, q, f) (p', q', inl f') =
      (p' ∙ p, q' ∙ q, inl (f' ∙ ap (λ l. counter_labels pod ∷ l) f))
  Accounts-Untouched (transient e) st st' st'' (p, q, f) (p', q', inr f') =
      (p' ∙ p, q' ∙ q, inr (f' ∙ ap (λ l. counter_labels pod ∷ counter_labels pod ∷ l) f))

  after_seen-Accounts :
      (st : State W) (r : Bool × State W)
      → Untouched st r.1
      → Accounts pod st (after_seen s cmd pod r).0 (after_seen s cmd pod r).1
  unfolding after_seen
  after_seen-Accounts st (true, st') h = inl h
  after_seen-Accounts st (false, st') h =
      Accounts-Untouched (jitter_stage s cmd pod st').0 st st' (jitter_stage s cmd pod st').1 h
        (jitter_stage-Accounts st')

  -- On every path of processPod: a canceled pod leaves the set of processed pods and both counters
  -- alone; a transient error counts one failure or two, no success, and does not mark the pod; a
  -- finished pod counts no failure, and either leaves all alone or is marked, with one success
  -- counted or none.
  pub process_pod-Accounts :
      (st : State W) → Accounts pod st (process_pod s cmd pod st).0 (process_pod s cmd pod st).1
  unfolding process_pod
  process_pod-Accounts st = elim (Bool-cases (pod_ready pod)) [
    | inr e ↦ rw e (inl (refl, refl, refl))
    | inl e ↦ rw e (after_seen-Accounts st (seen_before s cmd pod st) (seen_before-Untouched st))
  ]
