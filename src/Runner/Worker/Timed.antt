-- ===== src/Runner/Worker/Timed.antt =====
-- The time at which processPod marks a pod, on a clock that does not run backwards.
use gpuid.Base.{
  ℕ, ◌≤◌, ◌≡◌, refl, arith, List, [], ◌∷◌, Option, none, some, Result, ok, err, Text, is_empty, ◌⊎◌,
  inl, inr, Bool-cases,
}
use gpuid.Gpu.Serials.{Serials, Gpu}
use gpuid.Gpu.Reading.{SerialNumberReading}
use gpuid.Node.Update.{Patch}
use gpuid.Node.Update.Backoff.{WaitError}
use gpuid.Node.Update.Ensure.Keeps.{ensure_labels-keeps}
use gpuid.Node.Provider.{Fetch, Info, NodeError}
use gpuid.Node.Provider.Keeps.{get_node_provider_id-keeps}
use gpuid.Runner.Pod.{Pod}
use gpuid.Runner.Seen.{add}
use gpuid.Runner.Export.{Backend, ExportError, export}
use gpuid.Runner.Export.Keeps.{export-keeps}
use gpuid.Runner.Worker.Process.{
  Services, Settings, State, Outcome, finished, canceled, transient, counter_labels, count_failure,
  count_success, mark, after_export, export_stage, after_provider, after_labels, label_stage,
  after_query, query_stage, jitter_stage,
}

-- Each world has a time. The clock answers with a time between those of the worlds around the call,
-- and no call goes back in time.
pub record IsClock {W : Type 0} (s : Services W) : Type 0 where
  pub time : W → ℕ
  pub now_reads : (w : W) → (time w ≤ (s.now w).0) × ((s.now w).0 ≤ time (s.now w).1)
  pub jitter_later : (w : W) → time w ≤ time (s.wait_jitter w).1
  pub query_later : (pod : Pod) (c : Text) (w : W) → time w ≤ time (s.query_smi pod c w).1
  pub get_later : (node : Text) (w : W) → time w ≤ time (s.labeler.get_node node w).1
  pub patch_later :
      (node : Text) (p : Patch) (w : W) → time w ≤ time (s.labeler.patch_node_labels node p w).1
  pub fetch_later :
      (fetch : Fetch W)
      → s.clientset ≡ some fetch
      → (node : Text) (w : W) → time w ≤ time (fetch node w).1
  pub backend_now_later :
      (b : Backend W) → s.exporter ≡ some b → (w : W) → time w ≤ time (b.now w).1
  pub backend_write_later :
      (b : Backend W)
      → s.exporter ≡ some b
      → (r : List SerialNumberReading) (w : W) → time w ≤ time (b.write r w).1

-- What a run leaves in the set and counts as successes, with the time of a mark after n.
abbrev pub Timed : {W : Type 0} → Pod → ℕ → State W → Outcome → State W → Type 0
Timed pod n st finished st' =
    ((t : ℕ) × (n ≤ t)
      × (st'.processed ≡ add pod.uid t st.processed)
      × ((st'.successes ≡ st.successes) ⊎ (st'.successes ≡ counter_labels pod ∷ st.successes)))
Timed pod n st canceled st' = (st'.processed ≡ st.processed) × (st'.successes ≡ st.successes)
Timed pod n st (transient e) st' = (st'.processed ≡ st.processed) × (st'.successes ≡ st.successes)

module _ {W : Type 0} (s : Services W) (cmd : Settings) (pod : Pod) (c : IsClock s) (n : ℕ) where
  -- n is past in the world.
  abbrev Past : W → Type 0
  Past w = n ≤ c.time w

  after_export-Timed :
      (e : Option ExportError) (st : State W)
      → Past st.world
      → Timed pod n st (after_export s cmd pod e st).0 (after_export s cmd pod e st).1
  unfolding after_export count_failure count_success mark
  after_export-Timed (some e) st h = (refl, refl)
  after_export-Timed none st h =
      ((s.now st.world).0, omega (arith, (c.now_reads st.world).0), refl, inr refl)

  export-Past :
      (b : Option (Backend W)) (machine : Text) (units : List (Option Serials)) (w : W)
      → s.exporter ≡ b
      → Past w
      → Past (export b cmd.cluster (some pod) machine units w).1
  unfolding export
  export-Past none machine [] w e h = h
  export-Past none machine (u ∷ units) w e h = h
  export-Past (some b) machine units w e h =
      export-keeps Past b (λ v p. omega (arith, p, c.backend_now_later b e v)) cmd.cluster pod
        machine (λ r v p. omega (arith, p, c.backend_write_later b e r v)) units w h

  export_stage-Timed :
      (units : List (Option Serials)) (info : Info) (st : State W)
      → Past st.world
      → Timed pod n st
          (export_stage s cmd pod units info st).0
          (export_stage s cmd pod units info st).1
  unfolding export_stage count_failure
  export_stage-Timed units info st h =
      let past = export-Past s.exporter info.identifier units st.world refl h in
      elim (Bool-cases (is_empty info.identifier)) [
        | inl e ↦ rw e (after_export-Timed _ _ past)
        | inr e ↦ rw e (after_export-Timed _ _ past)
      ]

  after_provider-Timed :
      (units : List (Option Serials)) (r : Result NodeError Info) (st : State W)
      → Past st.world
      → Timed pod n st
          (after_provider s cmd pod units r st).0
          (after_provider s cmd pod units r st).1
  unfolding after_provider count_failure
  after_provider-Timed units (err e) st h = (refl, refl)
  after_provider-Timed units (ok info) st h = export_stage-Timed units info st h

  after_labels-Timed :
      (units : List (Option Serials)) (e : Option WaitError) (st : State W)
      → Past st.world
      → Timed pod n st (after_labels s cmd pod units e st).0 (after_labels s cmd pod units e st).1
  unfolding after_labels count_failure
  after_labels-Timed units (some e) st h = (refl, refl)
  after_labels-Timed units none st h = after_provider-Timed units _ _ (
      get_node_provider_id-keeps Past s.lower_table s.clientset pod.node_name st.world
        (λ fetch e v p. omega (arith, p, c.fetch_later fetch e pod.node_name v)) h)

  label_stage-Timed :
      (units : List (Option Serials)) (st : State W)
      → Past st.world
      → Timed pod n st (label_stage s cmd pod units st).0 (label_stage s cmd pod units st).1
  unfolding label_stage mark
  label_stage-Timed [] st h =
      ((s.now st.world).0, omega (arith, (c.now_reads st.world).0), refl, inl refl)
  label_stage-Timed (u ∷ units) st h = after_labels-Timed (u ∷ units) _ _ (
      ensure_labels-keeps Past s.labeler (λ node v p. omega (arith, p, c.get_later node v))
        (λ node q v p. omega (arith, p, c.patch_later node q v)) pod.node_name s.backoff (u ∷ units)
        st.world h)

  after_query-Timed :
      (r : Option (List Gpu)) (st : State W)
      → Past st.world
      → Timed pod n st (after_query s cmd pod r st).0 (after_query s cmd pod r st).1
  unfolding after_query count_failure
  after_query-Timed none st h = (refl, refl)
  after_query-Timed (some gpus) st h = label_stage-Timed _ st h

  pub jitter_stage-Timed :
      (st : State W)
      → Past st.world
      → Timed pod n st (jitter_stage s cmd pod st).0 (jitter_stage s cmd pod st).1
  unfolding jitter_stage query_stage
  jitter_stage-Timed st h =
      let later = c.jitter_later st.world in
      elim (Bool-cases (s.wait_jitter st.world).0) [
        | inl e ↦ rw e (refl, refl)
        | inr e ↦ rw e (
            after_query-Timed _ _
              (omega (arith, h, later, c.query_later pod cmd.container (s.wait_jitter st.world).1)))
      ]
