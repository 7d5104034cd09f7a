-- ===== src/Runner/Worker/Exported.antt =====
-- The way of a pod whose serials are exported.
pub mod Inverse
use gpuid.Base.{ℕ, ◌≡◌, refl, true, false, List, ◌∷◌, map, Option, none, some, ok, is_empty}
use gpuid.Gpu.Serials.{Serials, Gpu}
use gpuid.Gpu.Grouping.{get_serial_numbers}
use gpuid.Node.Update.Ensure.{ensure_labels}
use gpuid.Node.Provider.{Info, get_node_provider_id}
use gpuid.Runner.Pod.{Pod, pod_ready}
use gpuid.Runner.Seen.{add}
use gpuid.Runner.Export.{export}
use gpuid.Runner.Worker.Process.{
  seen_before, after_seen, Services, Settings, State, finished, counter_labels, count_success, mark,
  after_export, export_stage, after_provider, after_labels, label_stage, after_query, query_stage,
  jitter_stage, process_pod,
}

-- The answers of the services, each in the world that the one before it left: the set with its clock,
-- the jitter, the query of the pod, the labels of the node, its provider, the export, and the clock
-- again.
pub record IsExported {W : Type 0} (s : Services W) (cmd : Settings) (pod : Pod) (st : State W)
    (gpus : List Gpu) (u : Option Serials) (units : List (Option Serials)) (info : Info) (t : ℕ)
    (w : W) : Type 0 where
  pub w1 : W
  pub w2 : W
  pub w3 : W
  pub w4 : W
  pub w5 : W
  pub w6 : W
  pub is_ready : pod_ready pod ≡ true
  pub not_seen : seen_before s cmd pod st ≡ (false, record st { world = w1 })
  pub jitter : s.wait_jitter w1 ≡ (false, w2)
  pub query : s.query_smi pod cmd.container w2 ≡ (some gpus, w3)
  pub grouped : map some (get_serial_numbers s.iteration gpus) ≡ u ∷ units
  pub labelled : ensure_labels s.labeler s.backoff pod.node_name (u ∷ units) w3 ≡ (none, w4)
  pub located : get_node_provider_id s.lower_table s.clientset pod.node_name w4 ≡ (ok info, w5)
  pub identified : is_empty info.identifier ≡ false
  pub written : export s.exporter cmd.cluster (some pod) info.identifier (u ∷ units) w5 ≡ (none, w6)
  pub marked : s.now w6 ≡ (t, w)

module _ {W : Type 0} (s : Services W) (cmd : Settings) (pod : Pod) (st : State W) (gpus : List Gpu)
    (u : Option Serials) (units : List (Option Serials)) (info : Info) (t : ℕ) (w : W)
    (h : IsExported s cmd pod st gpus u units info t w) where
  -- If the pod is ready and not yet seen, it reports GPUs, the labels of its node are ensured, its
  -- provider is known, and the export succeeds, the pod is finished: one success is counted, no
  -- failure, and the pod is marked with the time of the end.
  pub process_pod-exported : process_pod s cmd pod st ≡ (
    finished,
    record {
      processed = add pod.uid t st.processed;
      successes = counter_labels pod ∷ st.successes;
      failures = st.failures;
      world = w;
    },
  )
  unfolding process_pod after_seen jitter_stage query_stage after_query label_stage after_labels
      after_provider export_stage after_export mark count_success
  process_pod-exported =
      rw
        (
          h.is_ready, h.not_seen, h.jitter, h.query, h.grouped, h.labelled, h.located, h.identified,
          h.written, h.marked,
        )
        refl
