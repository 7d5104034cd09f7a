-- ===== src/Runner/Service/Run.antt =====
-- Run: the exit code, stage after stage. What it calls is an argument, over the state W of the
-- world; runWithLeaderElection is modelled in Election, runController in Controller.
pub mod Exits
pub mod Closes
pub mod Lease
use gpuid.Base.{
  ℕ, ◌≡◌, Bool, true, false, if◌then◌else◌, Option, none, some, Result, ok, err, Text, is_empty,
  pos,
}
use gpuid.Runner.Config.{Float32, Command, validate}
use gpuid.Runner.Config.Env.{Environment, Parsers, LoadError, new_command_from_env_vars}
use gpuid.Runner.Export.Select.{Makers, Selected, SelectError, get_exporter, close}
use gpuid.Runner.Client.{Kubernetes, RestConfig, ClientError, build_rest_config}
use gpuid.Runner.Service.Election.{LeaderState, leader_shutdown, leader_lost}

pub data InitError : Type 0 where
  invalid_exporter : InitError
  exporter_failed : SelectError → InitError

unfoldable pub init_made :
    {B W : Type 0} → Result SelectError (Selected B) × W → Result InitError (Selected B) × W
init_made (err e, w) = (err (exporter_failed e), w)
init_made (ok exporter, w) = (ok exporter, w)

-- Init: the exporter that the command keeps
unfoldable pub init :
    {F B W : Type 0} → Makers B W → Command F → W → Result InitError (Selected B) × W
unfolding init_made
init makers c w =
    if is_empty c.exporter_type
    then (err invalid_exporter, w)
    else init_made (
        get_exporter makers
          (record {
            kind = c.exporter_type;
            batch_size = pos 0;
            retry_count = pos 0;
            timeout = pos 0;
          })
          w)

-- What the select on the server gives: its result, or the end of the budget.
pub data Drained (E : Type 0) : Type 0 where
  ended : Option E → Drained E
  out_of_time : Drained E

pub record Runtime (F B C K E W : Type 0) : Type 0 where
  pub makers : Makers B W
  pub close_backend : B → W → Bool × W
  pub kubernetes : Kubernetes F C K W
  -- labels.Parse fails
  pub is_bad_selector : Text → Bool
  -- the goroutine with srv.Serve
  pub start_server : Command F → W → W
  pub lead : Command F → K → RestConfig F C → Selected B → W → (LeaderState × Option E) × W
  pub control : Command F → K → RestConfig F C → Selected B → W → Option E × W
  pub drain_server : W → Drained E × W

module _ {B C K E W : Type 0} (float : Float32) (r : Runtime float.F B C K E W) where
  -- the code that follows the select
  unfoldable pub exit_code : Option E → Drained E → ℕ
  exit_code none (ended (some e)) = 2
  exit_code none _ = 0
  exit_code (some e) _ = 2

  unfoldable pub drain : Option E → W → ℕ × W
  unfolding exit_code
  drain reconcile_err w = let (d, w') = r.drain_server w in (exit_code reconcile_err d, w')

  unfoldable pub after_lead : (LeaderState × Option E) × W → ℕ × W
  after_lead ((leader_lost, reconcile_err), w) = (1, w)
  after_lead ((leader_shutdown, reconcile_err), w) = drain reconcile_err w

  -- if cmd.LeaderElection, with the test passed on
  unfoldable pub reconcile :
      Bool → Command float.F → K → RestConfig float.F C → Selected B → W → ℕ × W
  unfolding drain after_lead
  reconcile true c clientset config exporter w = after_lead (r.lead c clientset config exporter w)
  reconcile false c clientset config exporter w =
      let (reconcile_err, w') = r.control c clientset config exporter w in drain reconcile_err w'

  -- from the start of the server on
  unfoldable pub serve : Command float.F → Selected B → K × RestConfig float.F C → W → ℕ × W
  serve c exporter (clientset, config) w =
      reconcile c.leader_election c clientset config exporter (r.start_server c w)

  unfoldable pub with_client :
      Command float.F → Selected B → Result ClientError (K × RestConfig float.F C) × W → ℕ × W
  with_client c exporter (err e, w) = (2, w)
  with_client c exporter (ok client, w) =
      if r.is_bad_selector c.pod_label_selector then (2, w) else serve c exporter client w

  -- the deferred call of Close
  unfoldable pub close_exporter : Selected B → ℕ × W → ℕ × W
  close_exporter exporter (code, w) = (code, (close r.close_backend (some exporter) w).1)

  unfoldable pub with_exporter : Command float.F → Result InitError (Selected B) × W → ℕ × W
  unfolding close_exporter
  with_exporter c (err e, w) = (2, w)
  with_exporter c (ok exporter, w) =
      close_exporter exporter
        (with_client c exporter (build_rest_config r.kubernetes c.kubeconfig c.qps c.burst w))

  unfoldable pub with_command : Result LoadError (Command float.F) → W → ℕ × W
  unfolding with_exporter
  with_command (err e) w = (2, w)
  with_command (ok c) w = elim (validate float c) [
    | some e ↦ (2, w)
    | none ↦ with_exporter c (init r.makers c w)
  ]

  -- Run
  unfoldable pub run : Parsers → Environment → W → ℕ × W
  unfolding with_command
  run parsers env w = with_command (new_command_from_env_vars float parsers env) w
