-- ===== src/Runner/Worker/Delivered.antt =====
-- What a counted success says of the node and of the backend, from the report on.
use gpuid.Base.{
  [], ◌≡◌, ◌≢◌, refl, ap, sym, ◌∙◌, subst, true, false, List, ◌∷◌, map, Option, none, some, Text,
  is_empty, has_prefix, lookup, All,
}
use gpuid.Gpu.Serials.{Serials}
use gpuid.Gpu.Reading.{SerialNumberReading, IsComplete}
use gpuid.Gpu.Grouping.{get_serial_numbers}
use gpuid.Node.Labels.{label_ns, calculate_gpu_labels}
use gpuid.Node.Update.Ensure.{IsApiServer}
use gpuid.Node.Update.Ensure.Effect.{ensure_labels-desired}
use gpuid.Node.Provider.{Fetch, get_node_provider_id}
use gpuid.Node.Provider.Keeps.{get_node_provider_id-keeps}
use gpuid.Runner.Pod.{Pod}
use gpuid.Runner.Export.{Backend, export, read_units}
use gpuid.Runner.Export.Keeps.{export-needs, export-keeps}
use gpuid.Runner.Export.Readings.{
  untimed, unit_readings, export-read_units, IsHandedOver, write_records-IsHandedOver,
}
use gpuid.Runner.Worker.Process.{Services, Settings, State, process_pod}
use gpuid.Runner.Worker.Exported.{process_pod-exported}
use gpuid.Runner.Worker.Exported.Inverse.{Gains, HasExported, gained-HasExported}

-- Reading the provider, the clocks, and the writes of the exporter leave the labels of nodes alone.
pub record LeavesLabels {W : Type 0} (s : Services W) (server : IsApiServer s.labeler)
    : Type 0 where
  pub fetch_keeps :
      (fetch : Fetch W)
      → s.clientset ≡ some fetch
      → (node : Text) (w : W) (n k : Text)
      → server.labels (fetch node w).1 n k ≡ server.labels w n k
  pub clock_keeps : (w : W) (n k : Text) → server.labels (s.now w).1 n k ≡ server.labels w n k
  pub backend_now_keeps :
      (b : Backend W)
      → s.exporter ≡ some b
      → (w : W) (n k : Text) → server.labels (b.now w).1 n k ≡ server.labels w n k
  pub backend_write_keeps :
      (b : Backend W)
      → s.exporter ≡ some b
      → (r : List SerialNumberReading) (w : W) (n k : Text)
      → server.labels (b.write r w).1 n k ≡ server.labels w n k

-- The backend has taken the records without an error, or was not called as there are none.
abbrev pub Taken : {W : Type 0} → Backend W → List SerialNumberReading → W → W → Type 0
Taken backend [] w w' = w' ≡ w
Taken backend (r ∷ records) w w' = backend.write (r ∷ records) w ≡ (false, w')

handed-Taken :
    {W : Type 0} (backend : Backend W) (records : List SerialNumberReading) (w w' : W)
    → IsHandedOver backend records w (none, w')
    → Taken backend records w w'
handed-Taken backend [] w w' h = ap (λ r. r.1) h
handed-Taken backend (r ∷ records) w w' (world, succeeds) = cc (world, succeeds.0 refl)

-- The answers of the run, the labels at its end, and the readings that Export has read from them and
-- handed over.
pub record Delivers {W : Type 0} (s : Services W) (cmd : Settings) (pod : Pod)
    (server : IsApiServer s.labeler) (st st' : State W) : Type 0 where
  pub answers : HasExported s cmd pod st
  pub labelled :
      (k : Text)
      → has_prefix k label_ns ≡ true
      → server.labels st'.world pod.node_name k
        ≡ lookup k (calculate_gpu_labels (map some (get_serial_numbers s.iteration answers.gpus)))
  pub backend : Backend W
  pub exporter : s.exporter ≡ some backend
  pub records : List SerialNumberReading
  pub before : W
  pub read :
      read_units backend cmd.cluster pod answers.info.identifier
        (answers.unit ∷ answers.units)
        []
        answers.exported.w5
      ≡ (records, before)
  pub written : Taken backend records before answers.exported.w6
  pub readings :
      map untimed records
      ≡ unit_readings cmd.cluster pod answers.info.identifier
          (map some (get_serial_numbers s.iteration answers.gpus))
  pub complete : All IsComplete records

module _ {W : Type 0} (s : Services W) (cmd : Settings) (pod : Pod) (server : IsApiServer s.labeler)
    (quiet : LeavesLabels s server)
    (ticks : (b : Backend W) → s.exporter ≡ some b → (w : W) → (b.now w).0 ≢ 0)
    (has_node : is_empty pod.node_name ≡ false) where
  -- The labels of the node are those of the world w.
  abbrev SameLabels : W → W → Type 0
  SameLabels w w' = (k : Text) → server.labels w' pod.node_name k ≡ server.labels w pod.node_name k

  provider-SameLabels :
      (w : W) → SameLabels w (get_node_provider_id s.lower_table s.clientset pod.node_name w).1
  provider-SameLabels w =
      get_node_provider_id-keeps (SameLabels w) s.lower_table s.clientset pod.node_name w
        (λ fetch h v same k. quiet.fetch_keeps fetch h pod.node_name v pod.node_name k ∙ same k)
        (λ k. refl)

  export-SameLabels :
      (b : Backend W) (machine : Text) (units : List (Option Serials)) (w : W)
      → s.exporter ≡ some b
      → SameLabels w (export (some b) cmd.cluster (some pod) machine units w).1
  export-SameLabels b machine units w h =
      export-keeps (SameLabels w) b
        (λ v same k. quiet.backend_now_keeps b h v pod.node_name k ∙ same k) cmd.cluster pod machine
        (λ r v same k. quiet.backend_write_keeps b h r v pod.node_name k ∙ same k) units w
        (λ k. refl)

  -- From EnsureLabels to the end the labels stay.
  labels_at_end :
      (st : State W) (h : HasExported s cmd pod st) (b : Backend W)
      → s.exporter ≡ some b
      → (k : Text) → has_prefix k label_ns ≡ true
      → server.labels (process_pod s cmd pod st).1.world pod.node_name k
        ≡ lookup k (calculate_gpu_labels (map some (get_serial_numbers s.iteration h.gpus)))
  labels_at_end st h b exporter k own =
      let a = h.exported in
      let all = h.unit ∷ h.units in
      let label : W → Option Text = λ w. server.labels w pod.node_name k in
      let run =
        process_pod-exported s cmd pod st h.gpus h.unit h.units h.info h.marked_at h.last a in
      ap (λ r. label r.1.world) run
      ∙ (sym (ap (λ r. label r.1) a.marked)
          ∙ (quiet.clock_keeps a.w6 pod.node_name k
              ∙ (sym (ap (λ r. label r.1) (rw exporter at a.written))
                  ∙ (export-SameLabels b h.info.identifier all a.w5 exporter k
                      ∙ (sym (ap (λ r. label r.1) a.located)
                          ∙ (provider-SameLabels a.w4 k
                              ∙ (sym (ap (λ r. label r.1) a.labelled)
                                  ∙ (ensure_labels-desired s.labeler server s.backoff pod.node_name
                                        all a.w3 (ap (λ r. r.0) a.labelled) k own
                                      ∙ sym (
                                          ap (λ l. lookup k (calculate_gpu_labels l))
                                            a.grouped)))))))))

  from_answers :
      (st : State W)
      → HasExported s cmd pod st
      → Delivers s cmd pod server st (process_pod s cmd pod st).1
  from_answers st h =
      let a = h.exported in
      let all = h.unit ∷ h.units in
      let (backend, exporter, named, placed) =
        export-needs s.exporter cmd.cluster pod h.info.identifier h.unit h.units a.w5
          (ap (λ r. r.0) a.written) in
      let (run, readings, complete) =
        export-read_units backend cmd.cluster pod h.info.identifier all a.w5
          (ticks backend exporter) named placed has_node in
      let r = read_units backend cmd.cluster pod h.info.identifier all [] a.w5 in
      record {
        answers = h;
        labelled = labels_at_end st h backend exporter;
        backend = backend;
        exporter = exporter;
        records = r.0;
        before = r.1;
        read = refl;
        written = handed-Taken backend r.0 r.1 a.w6 (
            subst (IsHandedOver backend r.0 r.1) (sym run ∙ (rw exporter at a.written))
              (write_records-IsHandedOver backend r.0 r.1));
        readings = rw a.grouped readings;
        complete = complete;
      }

  -- If processPod counts a success: at the end the labels of the node whose keys begin with
  -- gpuid.github.com are exactly those calculated from what nvidia-smi has reported, and one call
  -- of the backend's Write, which ended without an error, was given exactly one complete reading
  -- for each non-empty serial of that report under a chassis, stamped with the pod and the instance
  -- of the node; if there is none, Write was not called. Assumed: the API server and the retry loop
  -- are as documented, nobody else writes, no other call changes labels, the clock is past the zero
  -- time, and the pod names a node.
  pub process_pod-Delivers :
      (st : State W)
      → Gains s cmd pod st (process_pod s cmd pod st).1
      → Delivers s cmd pod server st (process_pod s cmd pod st).1
  process_pod-Delivers st h = from_answers st (gained-HasExported s cmd pod st h)
