-- ===== src/Runner/Worker/Process.antt =====
-- processPod, a function for each part between two calls that can fail.
use gpuid.Base.{
  lookup, true, false, ℕ, Bool, not, List, [], ◌∷◌, map, if◌then◌else◌, Option, none, some, Result,
  ok, err, Text, is_empty,
}
use gpuid.Gpu.Serials.{Serials, Gpu}
use gpuid.Gpu.Grouping.{Iteration, get_serial_numbers}
use gpuid.Node.Update.{Updater}
use gpuid.Node.Update.Backoff.{WaitError, Backoff}
use gpuid.Node.Update.Ensure.{ensure_labels}
use gpuid.Node.Provider.{Info, NodeError, Fetch, get_node_provider_id}
use gpuid.Runner.Pod.{Pod, pod_ready}
use gpuid.Runner.Seen.{UidSet, has, add}
use gpuid.Runner.Export.{Backend as ExporterBackend, ExportError, export}

-- What the worker calls, over the state W of the world.
pub record Services (W : Type 0) : Type 0 where
  pub now : W → ℕ × W
  -- the wait for the jitter; true if the context is canceled first
  pub wait_jitter : W → Bool × W
  -- execShell and parseSMIDevice; `none` is an error
  pub query_smi : Pod → Text → W → Option (List Gpu) × W
  pub iteration : Iteration
  pub labeler : Updater W
  pub backoff : Backoff W
  pub clientset : Option (Fetch W)
  pub lower_table : ℕ → ℕ
  pub exporter : Option (ExporterBackend W)

-- The fields of Command that the worker reads.
pub record Settings : Type 0 where
  pub cluster : Text
  pub container : Text

-- The state of the runner. A counter is the list of the label values (node, pod) that it was
-- incremented with.
pub record State (W : Type 0) : Type 0 where
  pub processed : UidSet
  pub successes : List (Text × Text)
  pub failures : List (Text × Text)
  pub world : W

pub data TransientError : Type 0 where
  serials_failed : TransientError
  labels_failed : WaitError → TransientError
  provider_failed : NodeError → TransientError
  export_failed : ExportError → TransientError

-- nil, ctx.Err(), or an error that is marked as transient
pub data Outcome : Type 0 where
  finished canceled : Outcome
  transient : TransientError → Outcome

abbrev pub counter_labels : Pod → Text × Text
counter_labels pod = (pod.node_name, pod.name)

module _ {W : Type 0} (s : Services W) (cmd : Settings) (pod : Pod) where
  -- counterErr.Increment
  unfoldable pub count_failure : State W → State W
  count_failure st = record st { failures = counter_labels pod ∷ st.failures }

  -- counterSuccess.Increment
  unfoldable pub count_success : State W → State W
  count_success st = record st { successes = counter_labels pod ∷ st.successes }

  -- processed.Add
  unfoldable pub mark : State W → State W
  mark st =
      let (t, w) = s.now st.world in record st { processed = add pod.uid t st.processed; world = w }

  -- what follows the export
  unfoldable pub after_export : Option ExportError → State W → Outcome × State W
  after_export (some e) st = (transient (export_failed e), count_failure st)
  after_export none st = (finished, mark (count_success st))

  unfoldable pub export_stage : List (Option Serials) → Info → State W → Outcome × State W
  export_stage units info st =
      let counted = if is_empty info.identifier then count_failure st else st in
      let (e, w) = export s.exporter cmd.cluster (some pod) info.identifier units counted.world in
      after_export e (record counted { world = w })

  -- what follows the read of the provider ID
  unfoldable pub after_provider :
      List (Option Serials) → Result NodeError Info → State W → Outcome × State W
  after_provider units (err e) st = (transient (provider_failed e), count_failure st)
  after_provider units (ok info) st = export_stage units info st

  -- what follows EnsureLabels
  unfoldable pub after_labels :
      List (Option Serials) → Option WaitError → State W → Outcome × State W
  after_labels units (some e) st = (transient (labels_failed e), count_failure st)
  after_labels units none st =
      let (r, w) = get_node_provider_id s.lower_table s.clientset pod.node_name st.world in
      after_provider units r (record st { world = w })

  unfoldable pub label_stage : List (Option Serials) → State W → Outcome × State W
  label_stage [] st = (finished, mark st)
  label_stage (u ∷ units) st =
      let (e, w) = ensure_labels s.labeler s.backoff pod.node_name (u ∷ units) st.world in
      after_labels (u ∷ units) e (record st { world = w })

  -- what follows GetSerialNumbers
  unfoldable pub after_query : Option (List Gpu) → State W → Outcome × State W
  after_query none st = (transient serials_failed, count_failure st)
  after_query (some gpus) st = label_stage (map some (get_serial_numbers s.iteration gpus)) st

  unfoldable pub query_stage : State W → Outcome × State W
  query_stage st =
      let (r, w) = s.query_smi pod cmd.container st.world in after_query r (record st { world = w })

  -- what follows processed.Has: the jitter
  unfoldable pub jitter_stage : State W → Outcome × State W
  jitter_stage st =
      let (stop, w) = s.wait_jitter st.world in
      if stop then (canceled, record st { world = w }) else query_stage (record st { world = w })

  -- processed.Has, given the entry of the UID: only if there is one is the time asked for
  unfoldable pub ask_time : Option ℕ → State W → Bool × State W
  ask_time none st = (false, st)
  ask_time (some t0) st =
      let (t, w) = s.now st.world in (has pod.uid t st.processed, record st { world = w })

  unfoldable pub seen_before : State W → Bool × State W
  unfolding ask_time
  seen_before st = ask_time (lookup pod.uid st.processed) st

  unfoldable pub after_seen : Bool × State W → Outcome × State W
  after_seen (true, st) = (finished, st)
  after_seen (false, st) = jitter_stage st

  unfoldable pub process_pod : State W → Outcome × State W
  process_pod st = if not (pod_ready pod) then (finished, st) else after_seen (seen_before st)
