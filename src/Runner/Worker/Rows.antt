-- ===== src/Runner/Worker/Rows.antt =====
-- What processPod leaves in the table of the postgres exporter.
pub mod Stages
pub mod Fleet
use gpuid.Base.{
  ℕ, ◌≡◌, ◌≢◌, ◌⊎◌, inl, inr, refl, ap, sym, ◌∙◌, subst, true, false, Bool-cases, List, [], ◌∷◌,
  ◌++◌, map, Option, none, some, Result, ok, err, Text, is_empty, is_blank, All, Bool, lookup,
}
use gpuid.Gpu.Serials.{Serials, Gpu}
use gpuid.Gpu.Reading.{SerialNumberReading, IsComplete}
use gpuid.Gpu.Grouping.{get_serial_numbers}
use gpuid.Node.Update.{Patch}
use gpuid.Node.Update.Backoff.{WaitError}
use gpuid.Node.Update.Ensure.{ensure_labels}
use gpuid.Node.Update.Ensure.Keeps.{ensure_labels-keeps}
use gpuid.Node.Provider.{Fetch, Info, NodeError, get_node_provider_id}
use gpuid.Node.Provider.Keeps.{get_node_provider_id-keeps}
use gpuid.Exporters.Postgres.{Row, Database}
use gpuid.Exporters.Postgres.Atomic.{rows_of, IsTransactional}
use gpuid.Runner.Pod.{Pod, pod_ready}
use gpuid.Runner.Export.{ExportError, cluster_required, node_required, export}
use gpuid.Runner.Export.Readings.{untimed, unit_readings}
use gpuid.Runner.Export.Stored.{postgres_backend, AllOrNone, export-AllOrNone}
use gpuid.Runner.Worker.Process.{
  Services, Settings, State, counter_labels, ask_time, seen_before, after_seen, count_failure,
  count_success, mark, after_export, export_stage, after_provider, after_labels, label_stage,
  after_query, query_stage, jitter_stage, process_pod,
}
use gpuid.Runner.Worker.Accounts.{is_empty-nil, export_stage-no_identifier}

-- The exporter is the postgres exporter, on a clock past the zero time, and no other call changes the
-- table.
pub record Exports {W : Type 0} (s : Services W) (db : Database W) (law : IsTransactional db)
    (table : Text) : Type 0 where
  pub exporter_is : s.exporter ≡ some (postgres_backend db table)
  pub ticks : (w : W) → (db.now w).0 ≢ 0
  pub clock_keeps : (w : W) → law.stored (s.now w).1 ≡ law.stored w
  pub jitter_keeps : (w : W) → law.stored (s.wait_jitter w).1 ≡ law.stored w
  pub query_keeps :
      (pod : Pod) (c : Text) (w : W) → law.stored (s.query_smi pod c w).1 ≡ law.stored w
  pub get_keeps : (node : Text) (w : W) → law.stored (s.labeler.get_node node w).1 ≡ law.stored w
  pub patch_keeps :
      (node : Text) (p : Patch) (w : W)
      → law.stored (s.labeler.patch_node_labels node p w).1 ≡ law.stored w
  pub fetch_keeps :
      (fetch : Fetch W)
      → s.clientset ≡ some fetch
      → (node : Text) (w : W) → law.stored (fetch node w).1 ≡ law.stored w

-- The rows of what a query of the pod has answered: one for each non-empty serial under a chassis,
-- complete, with the identifier that was read of the node of the pod, and all of one time.
pub record IsBatch {W : Type 0} (s : Services W) (cmd : Settings) (pod : Pod) (rows : List Row)
    : Type 0 where
  pub asked : W
  pub gpus : List Gpu
  pub answered : (s.query_smi pod cmd.container asked).0 ≡ some gpus
  pub located_in : W
  pub info : Info
  pub located :
      (get_node_provider_id s.lower_table s.clientset pod.node_name located_in).0 ≡ ok info
  pub records : List SerialNumberReading
  pub now : ℕ
  pub readings :
      map untimed records
      ≡ unit_readings cmd.cluster pod info.identifier
          (map some (get_serial_numbers s.iteration gpus))
  pub complete : All IsComplete records
  pub rows_are : rows ≡ rows_of now (map some records)

-- From a table and the successes so far: the run has left the table, and counts no success, or it has
-- added a batch.
pub data Leaves {W : Type 0} (s : Services W) (cmd : Settings) (stored : W → List Row) (pod : Pod)
    (l : List Row) (successes : List (Text × Text)) (st' : State W) : Type 0 where
  kept : stored st'.world ≡ l → st'.successes ≡ successes → Leaves s cmd stored pod l successes st'
  added :
      {rows : List Row}
      → IsBatch s cmd pod rows
      → stored st'.world ≡ l ++ rows
      → (st'.successes ≡ successes) ⊎ (st'.successes ≡ counter_labels pod ∷ successes)
      → Leaves s cmd stored pod l successes st'
