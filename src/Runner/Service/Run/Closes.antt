-- ===== src/Runner/Service/Run/Closes.antt =====
-- How often Run closes the exporter.
use gpuid.Base.{
  ℕ, ◌+◌, ◌≡◌, refl, ap, ◌∙◌, arith, Bool, true, false, Option, none, some, Result, ℤ, ok, err,
  Text, Bool-cases, inl, inr,
}
use gpuid.Runner.Config.{Float32, Command, ConfigError, validate}
use gpuid.Runner.Config.Env.{Environment, Parsers, LoadError, new_command_from_env_vars}
use gpuid.Runner.Export.Select.{Selected, close}
use gpuid.Runner.Client.{RestConfig, ClientError, build_rest_config}
use gpuid.Runner.Service.Election.{LeaderState, leader_shutdown, leader_lost}
use gpuid.Runner.Service.Run.{
  Runtime, InitError, init, drain, after_lead, reconcile, serve, close_exporter, with_client,
  with_exporter, with_command, run,
}

-- How often the backend was closed in a world: only its Close counts.
pub record Counted {B C K E W : Type 0} (float : Float32) (r : Runtime float.F B C K E W)
    (closed : W → ℕ) : Type 0 where
  pub close_counts : (b : B) (w : W) → closed (r.close_backend b w).1 ≡ closed w + 1
  pub init_keeps : (c : Command float.F) (w : W) → closed (init r.makers c w).1 ≡ closed w
  pub client_keeps :
      (kubeconfig : Text) (qps : float.F) (burst : ℤ) (w : W)
      → closed (build_rest_config r.kubernetes kubeconfig qps burst w).1 ≡ closed w
  pub server_keeps : (c : Command float.F) (w : W) → closed (r.start_server c w) ≡ closed w
  pub lead_keeps :
      (c : Command float.F) (k : K) (config : RestConfig float.F C) (e : Selected B) (w : W)
      → closed (r.lead c k config e w).1 ≡ closed w
  pub control_keeps :
      (c : Command float.F) (k : K) (config : RestConfig float.F C) (e : Selected B) (w : W)
      → closed (r.control c k config e w).1 ≡ closed w
  pub drain_keeps : (w : W) → closed (r.drain_server w).1 ≡ closed w

-- One if Init has made an exporter.
abbrev made_by : {B : Type 0} → Result InitError (Selected B) → ℕ
made_by (ok exporter) = 1
made_by (err e) = 0

module _ {B C K E W : Type 0} (float : Float32) (r : Runtime float.F B C K E W) where
  -- Of the command that is loaded, if it is valid, whether Init makes an exporter.
  abbrev pub made : Result LoadError (Command float.F) → W → ℕ
  made (err e) w = 0
  made (ok c) w = elim (validate float c) [ some e ↦ 0 | none ↦ made_by (init r.makers c w).0 ]

module _ {B C K E W : Type 0} (float : Float32) (r : Runtime float.F B C K E W) (closed : W → ℕ)
    (laws : Counted float r closed) (parsers : Parsers) (env : Environment) where
  open laws use {
    close_counts, init_keeps, client_keeps, server_keeps, lead_keeps, control_keeps, drain_keeps,
  }

  drain-keeps : (e : Option E) (w : W) → closed (drain float r e w).1 ≡ closed w
  unfolding drain
  drain-keeps e w = drain_keeps w

  after_lead-keeps :
      (x : (LeaderState × Option E) × W) → closed (after_lead float r x).1 ≡ closed x.1
  unfolding after_lead
  after_lead-keeps ((leader_lost, e), w) = refl
  after_lead-keeps ((leader_shutdown, e), w) = drain-keeps e w

  reconcile-keeps :
      (b : Bool) (c : Command float.F) (k : K) (config : RestConfig float.F C) (e : Selected B)
      → (w : W) → closed (reconcile float r b c k config e w).1 ≡ closed w
  unfolding reconcile
  reconcile-keeps true c k config e w = after_lead-keeps _ ∙ lead_keeps c k config e w
  reconcile-keeps false c k config e w =
      drain-keeps (r.control c k config e w).0 _ ∙ control_keeps c k config e w

  with_client-keeps :
      (c : Command float.F) (e : Selected B)
      → (x : Result ClientError (K × RestConfig float.F C) × W)
      → closed (with_client float r c e x).1 ≡ closed x.1
  unfolding with_client serve
  with_client-keeps c e (err x, w) = refl
  with_client-keeps c e (ok (k, config), w) =
      elim (Bool-cases (r.is_bad_selector c.pod_label_selector)) [
        | inl bad ↦ rw bad refl
        | inr good ↦ rw good (reconcile-keeps c.leader_election c k config e _ ∙ server_keeps c w)
      ]

  with_exporter-closes :
      (c : Command float.F) (x : Result InitError (Selected B) × W)
      → closed (with_exporter float r c x).1 ≡ closed x.1 + made_by x.0
  unfolding with_exporter close_exporter close
  with_exporter-closes c (err e, w) = omega arith
  with_exporter-closes c (ok exporter, w) =
      close_counts exporter.backend _
      ∙ ap (λ n. n + 1)
          (with_client-keeps c exporter
              (build_rest_config r.kubernetes c.kubeconfig c.qps c.burst w)
            ∙ client_keeps c.kubeconfig c.qps c.burst w)

  with_command-closes :
      (x : Result LoadError (Command float.F)) (w : W)
      → closed (with_command float r x w).1 ≡ closed w + made float r x w
  unfolding with_command
  with_command-closes (err e) w = omega arith
  with_command-closes (ok c) w = of_validate (validate float c)
    where
      of_validate :
          (v : Option ConfigError)
          → closed
              (elim v as (λ _. ℕ × W) [
                | some e ↦ (2, w)
                | none ↦ with_exporter float r c (init r.makers c w)
              ]).1
            ≡ closed w + (elim v as (λ _. ℕ) [ some e ↦ 0 | none ↦ made_by (init r.makers c w).0 ])
      of_validate (some e) = omega arith
      of_validate none =
          with_exporter-closes c (init r.makers c w)
          ∙ ap (λ n. n + made_by (init r.makers c w).0) (init_keeps c w)

  -- Run closes the exporter exactly once if Init has made it, whatever fails afterwards and also if
  -- the lease is lost, and not at all if not.
  pub run-closes :
      (w : W)
      → closed (run float r parsers env w).1
        ≡ closed w + made float r (new_command_from_env_vars float parsers env) w
  unfolding run
  run-closes w = with_command-closes (new_command_from_env_vars float parsers env) w
