-- ===== src/Runner/Service/Run/Lease.antt =====
-- Run as a replica of several: what its exit code says of the lease.
use gpuid.Base.{ℕ, ◌≡◌, ◌≢◌, inl, inr, true, Option, none, ok}
use gpuid.Runner.Config.{Float32, Command}
use gpuid.Runner.Config.Env.{Environment, Parsers, new_command_from_env_vars}
use gpuid.Runner.Export.Select.{Selected}
use gpuid.Runner.Client.{RestConfig}
use gpuid.Runner.Service.Election.{
  Election, Leads, elected, not_started, LeaderState, leader_shutdown, leader_lost,
}
use gpuid.Runner.Service.Election.Laws.{reached-IsVerdict}
use gpuid.Runner.Service.Run.{Runtime, run}
use gpuid.Runner.Service.Run.Exits.{
  IsReady, Reconciles, led, alone, Exits, lost, stopped, stopped_late, run-Exits,
}

module _ {B C K E W : Type 0} (float : Float32) (r : Runtime float.F B C K E W) where
  -- The call in Run is runWithLeaderElection: in each world the answer of NewLeaderElector, and the
  -- state of the election at the end.
  pub record IsElected (refused : Command float.F → W → Option E)
      (last : Command float.F → W → Election E) : Type 0 where
    pub leads :
        (c : Command float.F) (clientset : K) (config : RestConfig float.F C)
        → (exporter : Selected B) (w w' : W) (st : LeaderState) (e : Option E)
        → r.lead c clientset config exporter w ≡ ((st, e), w')
        → Leads (refused c w) (last c w) st e

  module _ (parsers : Parsers) (env : Environment) (start : W)
      (refused : Command float.F → W → Option E) (last : Command float.F → W → Election E) where
    -- What an exit code says of the election, which begins in the world w.
    pub data Leaves : ℕ → Type 0 where
      -- this replica had led
      by_loss :
          {c : Command float.F} {clientset : K} {config : RestConfig float.F C}
          {exporter : Selected B} (w : W)
          → IsReady float r parsers env start c clientset config exporter w
          → refused c w ≡ none
          → (last c w).leading ≢ not_started
          → Leaves 1
      -- the context is canceled
      by_signal :
          {c : Command float.F} {clientset : K} {config : RestConfig float.F C}
          {exporter : Selected B} (w : W)
          → IsReady float r parsers env start c clientset config exporter w
          → refused c w ≡ none
          → (last c w).canceled ≡ true
          → Leaves 0
      by_failure : Leaves 2

    module _ (l : IsElected refused last) (c : Command float.F)
        (ok_c : new_command_from_env_vars float parsers env ≡ ok c)
        (on : c.leader_election ≡ true) where
      lost-Leaves :
          {c' : Command float.F} {clientset : K} {config : RestConfig float.F C}
          → {exporter : Selected B} {w : W} {e : Option E}
          → IsReady float r parsers env start c' clientset config exporter w
          → Leads (refused c' w) (last c' w) leader_lost e
          → Leaves 1
      lost-Leaves a (elected h reach p) =
          elim ((reached-IsVerdict reach leader_lost _ p).about_lease) [
            | inl (e, held) ↦ by_loss _ a h held
            | inr (e, told) ↦ cc e
          ]

      shutdown-Leaves :
          {c' : Command float.F} {clientset : K} {config : RestConfig float.F C}
          → {exporter : Selected B} {w : W}
          → IsReady float r parsers env start c' clientset config exporter w
          → Leads (refused c' w) (last c' w) leader_shutdown none
          → Leaves 0
      shutdown-Leaves a (elected h reach p) =
          elim ((reached-IsVerdict reach leader_shutdown none p).about_lease) [
            | inl (e, held) ↦ cc e
            | inr (e, told) ↦ by_signal _ a h told
          ]

      clean-Leaves :
          {c' : Command float.F} {w' : W}
          → Reconciles float r parsers env start c' none w'
          → Leaves 0
      clean-Leaves (led a t h) = shutdown-Leaves a (l.leads _ _ _ _ _ _ _ _ h)
      clean-Leaves (alone a t h) = cc (a.accepted.loaded, ok_c, on, t)

      Exits-Leaves : {code : ℕ} → Exits float r parsers env start code → Leaves code
      Exits-Leaves (lost a t h) = lost-Leaves a (l.leads _ _ _ _ _ _ _ _ h)
      Exits-Leaves (stopped h d) = clean-Leaves h
      Exits-Leaves (stopped_late h d) = clean-Leaves h
      Exits-Leaves _ = by_failure

      -- With leader election on, Run exits with 1 only if this replica had led when
      -- runWithLeaderElection returned, and with 0 only if its context was canceled then; the only
      -- other exit code is 2, also if NewLeaderElector refuses its configuration. Assumed: in each
      -- world, the call of runWithLeaderElection returns what NewLeaderElector or a run of the
      -- election returns.
      pub run-Leaves : Leaves (run float r parsers env start).0
      run-Leaves = Exits-Leaves (run-Exits float r parsers env start)
