-- ===== src/Runner/Worker/Rows/Stages.antt =====
-- What each stage of processPod leaves in the table of the postgres exporter.
use gpuid.Base.{
  ℕ, ◌≡◌, ◌⊎◌, inl, inr, refl, sym, ◌∙◌, subst, true, false, Bool-cases, List, [], ◌∷◌, map, Option,
  none, some, Result, ok, err, Text, is_empty, is_blank, Bool, lookup,
}
use gpuid.Gpu.Serials.{Serials, Gpu}
use gpuid.Gpu.Grouping.{get_serial_numbers}
use gpuid.Node.Update.Backoff.{WaitError}
use gpuid.Node.Update.Ensure.{ensure_labels}
use gpuid.Node.Update.Ensure.Keeps.{ensure_labels-keeps}
use gpuid.Node.Provider.{Info, NodeError, get_node_provider_id}
use gpuid.Node.Provider.Keeps.{get_node_provider_id-keeps}
use gpuid.Exporters.Postgres.{Row, Database}
use gpuid.Exporters.Postgres.Atomic.{rows_of, IsTransactional}
use gpuid.Runner.Pod.{Pod, pod_ready}
use gpuid.Runner.Export.{ExportError, cluster_required, node_required, export}
use gpuid.Runner.Export.Stored.{postgres_backend, AllOrNone, export-AllOrNone}
use gpuid.Runner.Worker.Process.{
  Services, Settings, State, ask_time, seen_before, after_seen, count_failure, count_success, mark,
  after_export, export_stage, after_provider, after_labels, label_stage, after_query, query_stage,
  jitter_stage, process_pod,
}
use gpuid.Runner.Worker.Accounts.{is_empty-nil, export_stage-no_identifier}
use gpuid.Runner.Worker.Rows.{Exports, IsBatch, Leaves, kept, added}

module _ {W : Type 0} (s : Services W) (cmd : Settings) (db : Database W) (law : IsTransactional db)
    (table : Text) (x : Exports s db law table) (pod : Pod)
    (has_node : is_empty pod.node_name ≡ false) where
  open law use {stored}

  -- A run on from st leaves the table as Leaves says.
  abbrev From : State W → State W → Type 0
  From st st' = Leaves s cmd stored pod (stored st.world) st.successes st'

  -- The units are those of what a query of the pod has answered.
  abbrev Reported : List Gpu → List (Option Serials) → Type 0
  Reported gpus units =
      (map some (get_serial_numbers s.iteration gpus) ≡ units)
      × (w : W) × ((s.query_smi pod cmd.container w).0 ≡ some gpus)

  -- A read of the node of the pod has given this.
  abbrev Located : Result NodeError Info → Type 0
  Located r = (w : W) × ((get_node_provider_id s.lower_table s.clientset pod.node_name w).0 ≡ r)

  -- A call before the rest of the run has left the table.
  after_call :
      (l : List Row) (successes : List (Text × Text)) (st st' : State W)
      → stored st.world ≡ l
      → st.successes ≡ successes
      → From st st'
      → Leaves s cmd stored pod l successes st'
  after_call l successes st st' p q h =
      subst (λ m. Leaves s cmd stored pod l m st') q
        (subst (λ m. Leaves s cmd stored pod m st.successes st') p h)

  after_export-From :
      (e : Option ExportError) (st : State W) (w : W) {rows : List Row}
      → IsBatch s cmd pod rows
      → AllOrNone db law table st.world rows (e, w)
      → From st (after_export s cmd pod e (record st { world = w })).1
  unfolding after_export count_failure count_success mark
  after_export-From none st w b h = added b (x.clock_keeps w ∙ h) (inr refl)
  after_export-From (some e) st w b (inl h) = kept h refl
  after_export-From (some e) st w b (inr h) = added b h (inl refl)

  -- Export refuses what it is given, and calls nothing; or it stores a batch, or none of it.
  Exported : List Gpu → List (Option Serials) → W → Option ExportError × W → Type 0
  Exported gpus units w r =
      ((e : ExportError) × (r ≡ (some e, w)))
      ⊎ ((rows : List Row) × IsBatch s cmd pod rows × AllOrNone db law table w rows r)

  export-Exported :
      (gpus : List Gpu) (u : Option Serials) (units : List (Option Serials)) (info : Info) (w : W)
      → Reported gpus (u ∷ units)
      → Located (ok info)
      → Exported gpus (u ∷ units) w (
          export
            (some (postgres_backend db table))
            cmd.cluster
            (some pod)
            info.identifier
            (u ∷ units)
            w)
  unfolding Exported
  export-Exported gpus u units info w grouped located = elim (Bool-cases (is_blank cmd.cluster)) [
    | inl e ↦ inl (cluster_required, unfold export in rw e refl)
    | inr e ↦ elim (Bool-cases (is_blank info.identifier)) [
      | inl m ↦ inl (node_required, unfold export in rw (e, m) refl)
      | inr m ↦
          let (records, now, readings, complete, stored_all) =
            export-AllOrNone db law table cmd.cluster pod info.identifier (u ∷ units) w x.ticks e m
              has_node in
          inr (
            rows_of now (map some records),
            record {
              gpus = gpus;
              asked = grouped.1;
              answered = grouped.2;
              located_in = located.0;
              info = info;
              located = located.1;
              records = records;
              now = now;
              readings = rw (grouped.0) readings;
              complete = complete;
              rows_are = refl;
            },
            stored_all,
          )
    ]
  ]

  of_export :
      (gpus : List Gpu) (units : List (Option Serials)) (st : State W) (r : Option ExportError × W)
      → Exported gpus units st.world r
      → From st (after_export s cmd pod r.0 (record st { world = r.1 })).1
  unfolding Exported
  of_export gpus units st r (inl (e, h)) =
      rw h (unfold after_export in unfold count_failure in kept refl refl)
  of_export gpus units st r (inr (rows, b, h)) = after_export-From r.0 st r.1 b h

  export_stage-From :
      (gpus : List Gpu) (u : Option Serials) (units : List (Option Serials)) (info : Info)
      (st : State W)
      → Reported gpus (u ∷ units)
      → Located (ok info)
      → From st (export_stage s cmd pod (u ∷ units) info st).1
  export_stage-From gpus u units info st grouped located =
      elim (Bool-cases (is_empty info.identifier)) [
        | inl e ↦
            let (y, o, same) =
              export_stage-no_identifier s cmd pod u units info st
                (is_empty-nil info.identifier e) in
            rw same (kept refl refl)
        | inr e ↦
            unfold export_stage in
            rw e (
              of_export gpus (u ∷ units) st
                (export s.exporter cmd.cluster (some pod) info.identifier (u ∷ units) st.world)
                (subst
                  (λ o.
                    Exported gpus (u ∷ units) st.world
                      (export o cmd.cluster (some pod) info.identifier (u ∷ units) st.world))
                  (sym x.exporter_is) (export-Exported gpus u units info st.world grouped located)))
      ]

  after_provider-From :
      (gpus : List Gpu) (u : Option Serials) (units : List (Option Serials))
      (r : Result NodeError Info) (st : State W)
      → Reported gpus (u ∷ units)
      → Located r
      → From st (after_provider s cmd pod (u ∷ units) r st).1
  unfolding after_provider count_failure
  after_provider-From gpus u units (err e) st grouped located = kept refl refl
  after_provider-From gpus u units (ok info) st grouped located =
      export_stage-From gpus u units info st grouped located

  after_labels-From :
      (gpus : List Gpu) (u : Option Serials) (units : List (Option Serials)) (e : Option WaitError)
      (st : State W)
      → Reported gpus (u ∷ units)
      → From st (after_labels s cmd pod (u ∷ units) e st).1
  unfolding after_labels count_failure
  after_labels-From gpus u units (some e) st grouped = kept refl refl
  after_labels-From gpus u units none st grouped =
      let r = get_node_provider_id s.lower_table s.clientset pod.node_name st.world in
      after_call (stored st.world) st.successes (record st { world = r.1 }) _
        (get_node_provider_id-keeps (λ v. stored v ≡ stored st.world) s.lower_table s.clientset
          pod.node_name st.world (λ fetch e v p. x.fetch_keeps fetch e pod.node_name v ∙ p) refl)
        refl
        (after_provider-From gpus u units r.0 (record st { world = r.1 }) grouped (st.world, refl))

  label_stage-From :
      (gpus : List Gpu) (units : List (Option Serials)) (st : State W)
      → Reported gpus units
      → From st (label_stage s cmd pod units st).1
  unfolding label_stage mark
  label_stage-From gpus [] st grouped = kept (x.clock_keeps st.world) refl
  label_stage-From gpus (u ∷ units) st grouped =
      let r = ensure_labels s.labeler s.backoff pod.node_name (u ∷ units) st.world in
      after_call (stored st.world) st.successes (record st { world = r.1 }) _
        (ensure_labels-keeps (λ v. stored v ≡ stored st.world) s.labeler
          (λ node v p. x.get_keeps node v ∙ p) (λ node q v p. x.patch_keeps node q v ∙ p)
          pod.node_name s.backoff (u ∷ units) st.world refl)
        refl (after_labels-From gpus u units r.0 (record st { world = r.1 }) grouped)

  after_query-From :
      (r : Option (List Gpu)) (st : State W) (w : W)
      → (s.query_smi pod cmd.container w).0 ≡ r
      → From st (after_query s cmd pod r st).1
  unfolding after_query count_failure
  after_query-From none st w h = kept refl refl
  after_query-From (some gpus) st w h = label_stage-From gpus _ st (refl, w, h)

  jitter_stage-From : (st : State W) → From st (jitter_stage s cmd pod st).1
  unfolding jitter_stage query_stage
  jitter_stage-From st =
      let r = s.wait_jitter st.world in
      let q = s.query_smi pod cmd.container r.1 in
      elim (Bool-cases r.0) [
        | inl e ↦ rw e (kept (x.jitter_keeps st.world) refl)
        | inr e ↦ rw e (
            after_call (stored st.world) st.successes (record st { world = q.1 }) _
              (x.query_keeps pod cmd.container r.1 ∙ x.jitter_keeps st.world) refl
              (after_query-From q.0 (record st { world = q.1 }) r.1 refl))
      ]

  after_seen-From :
      (r : Bool × State W) (st : State W)
      → stored r.1.world ≡ stored st.world
      → r.1.successes ≡ st.successes
      → From st (after_seen s cmd pod r).1
  unfolding after_seen
  after_seen-From (true, st') st p q = kept p q
  after_seen-From (false, st') st p q =
      after_call (stored st.world) st.successes st' _ p q (jitter_stage-From st')

  ask_time-keeps :
      (o : Option ℕ) (st : State W)
      → (stored (ask_time s cmd pod o st).1.world ≡ stored st.world)
        × ((ask_time s cmd pod o st).1.successes ≡ st.successes)
  unfolding ask_time
  ask_time-keeps none st = (refl, refl)
  ask_time-keeps (some t) st = (x.clock_keeps st.world, refl)

  -- Every run of processPod on the postgres exporter leaves the table as it was and counts no success,
  -- or adds the rows of one report of the pod, all of them, and counts a success or fails.
  pub process_pod-Leaves :
      (st : State W)
      → Leaves s cmd stored pod (stored st.world) st.successes (process_pod s cmd pod st).1
  unfolding process_pod seen_before
  process_pod-Leaves st = elim (Bool-cases (pod_ready pod)) [
    | inr e ↦ rw e (kept refl refl)
    | inl e ↦
        let asked = ask_time-keeps (lookup pod.uid st.processed) st in
        rw e
          (after_seen-From (ask_time s cmd pod (lookup pod.uid st.processed) st) st asked.0 asked.1)
  ]
