-- ===== src/Runner/Worker/Exported/Inverse.antt =====
-- That only an exported pod counts a success.
use gpuid.Base.{
  ℕ, ◌≡◌, ◌↔◌, refl, ap, sym, ◌∙◌, arith, Bool, true, false, List, [], ◌∷◌, map, length, Option,
  none, some, Result, ok, err, Text, is_empty, lookup, inl, inr, Bool-cases, Option-cases,
}
use gpuid.Gpu.Serials.{Serials, Gpu}
use gpuid.Gpu.Grouping.{get_serial_numbers}
use gpuid.Node.Update.Backoff.{WaitError}
use gpuid.Node.Update.Ensure.{ensure_labels}
use gpuid.Node.Provider.{Info, NodeError, get_node_provider_id}
use gpuid.Runner.Pod.{Pod, pod_ready}
use gpuid.Runner.Seen.{has}
use gpuid.Runner.Export.{ExportError, export}
use gpuid.Runner.Worker.Process.{
  Services, Settings, State, counter_labels, count_failure, mark, after_export, export_stage,
  after_provider, after_labels, label_stage, after_query, query_stage, jitter_stage, ask_time,
  seen_before, after_seen, process_pod,
}
use gpuid.Runner.Worker.Accounts.{is_empty-nil, export_stage-no_identifier}
use gpuid.Runner.Worker.Exported.{IsExported, process_pod-exported}

module _ {W : Type 0} (s : Services W) (cmd : Settings) (pod : Pod) where
  -- One more success is counted.
  abbrev pub Gains : State W → State W → Type 0
  Gains st st' = st'.successes ≡ counter_labels pod ∷ st.successes

  none-gained : {ℓ : List (Text × Text)} → ℓ ≡ counter_labels pod ∷ ℓ → ⊥
  none-gained h = absurd (omega (arith, ap length h))

  after_export-gained :
      (e : Option ExportError) (st : State W) → Gains st (after_export s cmd pod e st).1 → e ≡ none
  unfolding after_export count_failure
  after_export-gained none st h = refl
  after_export-gained (some e) st h = absurd (none-gained h)

  export_stage-gained :
      (u : Option Serials) (units : List (Option Serials)) (info : Info) (st : State W)
      → Gains st (export_stage s cmd pod (u ∷ units) info st).1
      → (is_empty info.identifier ≡ false)
        × ((export s.exporter cmd.cluster (some pod) info.identifier (u ∷ units) st.world).0 ≡ none)
  export_stage-gained u units info st h = elim (Bool-cases (is_empty info.identifier)) [
    | inl e ↦
        let (x, o, same) =
          export_stage-no_identifier s cmd pod u units info st (is_empty-nil info.identifier e) in
        absurd (none-gained (sym (ap (λ (t : State W). t.successes) same) ∙ h))
    | inr e ↦ (e, of_named e)
  ]
    where
      of_named :
          is_empty info.identifier ≡ false
          → (export s.exporter cmd.cluster (some pod) info.identifier (u ∷ units) st.world).0 ≡ none
      of_named e =
          let r = export s.exporter cmd.cluster (some pod) info.identifier (u ∷ units) st.world in
          after_export-gained r.0 (record st { world = r.1 }) (unfold export_stage in rw e at h)

  after_provider-gained :
      (u : Option Serials) (units : List (Option Serials)) (r : Result NodeError Info)
      (st : State W)
      → Gains st (after_provider s cmd pod (u ∷ units) r st).1
      → (info : Info) × (r ≡ ok info) × Gains st (export_stage s cmd pod (u ∷ units) info st).1
  unfolding after_provider count_failure
  after_provider-gained u units (err e) st h = absurd (none-gained h)
  after_provider-gained u units (ok info) st h = (info, refl, h)

  after_labels-gained :
      (u : Option Serials) (units : List (Option Serials)) (e : Option WaitError) (st : State W)
      → Gains st (after_labels s cmd pod (u ∷ units) e st).1
      → (e ≡ none) × Gains st (after_labels s cmd pod (u ∷ units) none st).1
  unfolding after_labels count_failure
  after_labels-gained u units none st h = (refl, h)
  after_labels-gained u units (some e) st h = absurd (none-gained h)

  label_stage-gained :
      (units : List (Option Serials)) (st : State W)
      → Gains st (label_stage s cmd pod units st).1
      → (u : Option Serials) × (rest : List (Option Serials)) × (units ≡ u ∷ rest)
  unfolding label_stage mark
  label_stage-gained [] st h = absurd (none-gained h)
  label_stage-gained (u ∷ units) st h = (u, units, refl)

  after_query-gained :
      (r : Option (List Gpu)) (st : State W)
      → Gains st (after_query s cmd pod r st).1
      → (gpus : List Gpu) × (r ≡ some gpus)
        × Gains st (label_stage s cmd pod (map some (get_serial_numbers s.iteration gpus)) st).1
  unfolding after_query count_failure
  after_query-gained none st h = absurd (none-gained h)
  after_query-gained (some gpus) st h = (gpus, refl, h)

  jitter_stage-gained :
      (st : State W)
      → Gains st (jitter_stage s cmd pod st).1
      → ((s.wait_jitter st.world).0 ≡ false)
        × Gains st (query_stage s cmd pod (record st { world = (s.wait_jitter st.world).1 })).1
  unfolding jitter_stage
  jitter_stage-gained st h = elim (Bool-cases (s.wait_jitter st.world).0) [
    | inl e ↦ absurd (none-gained (rw e at h))
    | inr e ↦ (e, rw e at h)
  ]

  -- The answers of a run that has exported the pod.
  pub record HasExported (st : State W) : Type 0 where
    pub gpus : List Gpu
    pub unit : Option Serials
    pub units : List (Option Serials)
    pub info : Info
    pub marked_at : ℕ
    pub last : W
    pub exported : IsExported s cmd pod st gpus unit units info marked_at last

  from_units :
      (st : State W) (w1 w2 w3 : W) (gpus : List Gpu) (u : Option Serials)
      (units : List (Option Serials))
      → pod_ready pod ≡ true
      → seen_before s cmd pod st ≡ (false, record st { world = w1 })
      → s.wait_jitter w1 ≡ (false, w2)
      → s.query_smi pod cmd.container w2 ≡ (some gpus, w3)
      → map some (get_serial_numbers s.iteration gpus) ≡ u ∷ units
      → Gains st (label_stage s cmd pod (u ∷ units) (record st { world = w3 })).1
      → HasExported st
  unfolding label_stage after_labels
  from_units st w1 w2 w3 gpus u units ready fresh jitter query grouped h =
      let r4 = ensure_labels s.labeler s.backoff pod.node_name (u ∷ units) w3 in
      let (labelled, h4) = after_labels-gained u units r4.0 (record st { world = r4.1 }) h in
      let r5 = get_node_provider_id s.lower_table s.clientset pod.node_name r4.1 in
      let (info, located, h5) =
        after_provider-gained u units r5.0 (record st { world = r5.1 }) h4 in
      let (identified, written) =
        export_stage-gained u units info (record st { world = r5.1 }) h5 in
      let r6 = export s.exporter cmd.cluster (some pod) info.identifier (u ∷ units) r5.1 in
      record {
        gpus = gpus;
        unit = u;
        units = units;
        info = info;
        marked_at = (s.now r6.1).0;
        last = (s.now r6.1).1;
        exported = record {
          w1 = w1;
          w2 = w2;
          w3 = w3;
          w4 = r4.1;
          w5 = r5.1;
          w6 = r6.1;
          is_ready = ready;
          not_seen = fresh;
          jitter = jitter;
          query = query;
          grouped = grouped;
          labelled = ap (λ e. (e, r4.1)) labelled;
          located = ap (λ e. (e, r5.1)) located;
          identified = identified;
          written = ap (λ e. (e, r6.1)) written;
          marked = refl;
        };
      }

  from_jitter :
      (st : State W) (w1 : W)
      → pod_ready pod ≡ true
      → seen_before s cmd pod st ≡ (false, record st { world = w1 })
      → Gains st (jitter_stage s cmd pod (record st { world = w1 })).1
      → HasExported st
  unfolding query_stage
  from_jitter st w1 ready fresh h =
      let r2 = s.wait_jitter w1 in
      let (jitter, h2) = jitter_stage-gained (record st { world = w1 }) h in
      let r3 = s.query_smi pod cmd.container r2.1 in
      let (gpus, query, h3) = after_query-gained r3.0 (record st { world = r3.1 }) h2 in
      let (u, units, grouped) = label_stage-gained _ (record st { world = r3.1 }) h3 in
      from_units st w1 r2.1 r3.1 gpus u units ready fresh (ap (λ b. (b, r2.1)) jitter)
        (ap (λ g. (g, r3.1)) query) grouped (rw grouped at h3)

  from_seen :
      (st : State W) (w1 : W) (b : Bool)
      → pod_ready pod ≡ true
      → seen_before s cmd pod st ≡ (b, record st { world = w1 })
      → Gains st (after_seen s cmd pod (b, record st { world = w1 })).1
      → HasExported st
  unfolding after_seen
  from_seen st w1 true ready fresh h = absurd (none-gained h)
  from_seen st w1 false ready fresh h = from_jitter st w1 ready fresh h

  from_ready :
      (st : State W)
      → pod_ready pod ≡ true
      → Gains st (after_seen s cmd pod (seen_before s cmd pod st)).1
      → HasExported st
  from_ready st ready h = elim (Option-cases (lookup pod.uid st.processed)) [
    | inl e ↦
        let q : seen_before s cmd pod st ≡ (false, st) = unfold seen_before ask_time in rw e refl in
        from_seen st st.world false ready q (rw q at h)
    | inr (t0, e) ↦
        let r = s.now st.world in
        let b = has pod.uid r.0 st.processed in
        let q : seen_before s cmd pod st ≡ (b, record st { world = r.1 }) =
          unfold seen_before ask_time in rw e refl in
        from_seen st r.1 b ready q (rw q at h)
  ]

  -- If processPod counts a success, the pod was ready and not yet seen, and every service on the way
  -- has answered without an error.
  pub gained-HasExported : (st : State W) → Gains st (process_pod s cmd pod st).1 → HasExported st
  unfolding process_pod
  gained-HasExported st h = elim (Bool-cases (pod_ready pod)) [
    | inl e ↦ from_ready st e (rw e at h)
    | inr e ↦ absurd (none-gained (rw e at h))
  ]

  -- processPod counts a success exactly if the pod is ready and not yet seen, the wait is not
  -- canceled, and the report, the labels, the provider and the export go without an error, each in
  -- the world that the call before has left: the report has a unit and the provider ID an
  -- identifier.
  pub success_iff : (st : State W) → Gains st (process_pod s cmd pod st).1 ↔ HasExported st
  success_iff st = (
    gained-HasExported st,
    λ h.
        rw
          (process_pod-exported s cmd pod st h.gpus h.unit h.units h.info h.marked_at h.last
            h.exported)
          refl,
  )
