-- ===== src/Runner/Service/Run/Exits.antt =====
-- What the exit codes of Run mean.
use gpuid.Base.{
  ℕ, ◌≡◌, refl, Bool, true, false, Bool-cases, inl, inr, Option, none, some, Result, ok, err,
}
use gpuid.Runner.Config.{Float32, Command, ConfigError, validate}
use gpuid.Runner.Config.Env.{Environment, Parsers, LoadError, new_command_from_env_vars}
use gpuid.Runner.Export.Select.{Selected}
use gpuid.Runner.Client.{RestConfig, ClientError, build_rest_config}
use gpuid.Runner.Service.Election.{LeaderState, leader_shutdown, leader_lost}
use gpuid.Runner.Service.Run.{
  Runtime, Drained, ended, out_of_time, InitError, init, exit_code, drain, after_lead, serve,
  reconcile, close_exporter, with_client, with_exporter, with_command, run,
}

module _ {B C K E W : Type 0} (float : Float32) (r : Runtime float.F B C K E W) (parsers : Parsers)
    (env : Environment) (start : W) where
  -- The command is loaded and valid.
  pub record IsAccepted (c : Command float.F) : Type 0 where
    pub loaded : new_command_from_env_vars float parsers env ≡ ok c
    pub valid : validate float c ≡ none

  -- The exporter and the client are made from the world at the start, and the server is started in
  -- the world w.
  pub record IsReady (c : Command float.F) (clientset : K) (config : RestConfig float.F C)
      (exporter : Selected B) (w : W) : Type 0 where
    pub accepted : IsAccepted c
    pub made_world : W
    pub made : init r.makers c start ≡ (ok exporter, made_world)
    pub client_world : W
    pub connected :
        build_rest_config r.kubernetes c.kubeconfig c.qps c.burst made_world
        ≡ (ok (clientset, config), client_world)
    pub good_selector : r.is_bad_selector c.pod_label_selector ≡ false
    pub started : r.start_server c client_world ≡ w

  -- The error of the reconciliation, on its own or as a leader, if the lease was not lost, and the
  -- world that it leaves.
  pub data Reconciles (c : Command float.F) (e : Option E) (w' : W) : Type 0 where
    led :
        {clientset : K} {config : RestConfig float.F C} {exporter : Selected B} {w : W}
        → IsReady c clientset config exporter w
        → c.leader_election ≡ true
        → r.lead c clientset config exporter w ≡ ((leader_shutdown, e), w')
        → Reconciles c e w'
    alone :
        {clientset : K} {config : RestConfig float.F C} {exporter : Selected B} {w : W}
        → IsReady c clientset config exporter w
        → c.leader_election ≡ false
        → r.control c clientset config exporter w ≡ (e, w')
        → Reconciles c e w'

  -- What has led to an exit code.
  pub data Exits : ℕ → Type 0 where
    not_loaded : {e : LoadError} → new_command_from_env_vars float parsers env ≡ err e → Exits 2
    not_valid :
        {c : Command float.F} {e : ConfigError}
        → new_command_from_env_vars float parsers env ≡ ok c
        → validate float c ≡ some e
        → Exits 2
    no_exporter :
        {c : Command float.F} {e : InitError} {w : W}
        → IsAccepted c
        → init r.makers c start ≡ (err e, w)
        → Exits 2
    no_client :
        {c : Command float.F} {exporter : Selected B} {e : ClientError} {w w' : W}
        → IsAccepted c
        → init r.makers c start ≡ (ok exporter, w)
        → build_rest_config r.kubernetes c.kubeconfig c.qps c.burst w ≡ (err e, w')
        → Exits 2
    bad_selector :
        {c : Command float.F}
        → IsAccepted c
        → r.is_bad_selector c.pod_label_selector ≡ true
        → Exits 2
    lost :
        {c : Command float.F} {e : Option E} {clientset : K} {config : RestConfig float.F C}
        → {exporter : Selected B} {w w' : W} → IsReady c clientset config exporter w
        → c.leader_election ≡ true
        → r.lead c clientset config exporter w ≡ ((leader_lost, e), w')
        → Exits 1
    controller_failed : {c : Command float.F} {e : E} {w : W} → Reconciles c (some e) w → Exits 2
    server_failed :
        {c : Command float.F} {e : E} {w : W}
        → Reconciles c none w
        → (r.drain_server w).0 ≡ ended (some e)
        → Exits 2
    stopped :
        {c : Command float.F} {w : W}
        → Reconciles c none w
        → (r.drain_server w).0 ≡ ended none
        → Exits 0
    stopped_late :
        {c : Command float.F} {w : W}
        → Reconciles c none w
        → (r.drain_server w).0 ≡ out_of_time
        → Exits 0

  drain-Exits :
      (c : Command float.F) (e : Option E) (w : W) → Reconciles c e w → Exits (drain float r e w).0
  unfolding drain exit_code
  drain-Exits c (some e) w h = controller_failed h
  drain-Exits c none w h = of_drained (r.drain_server w).0 refl
    where
      of_drained : (d : Drained E) → (r.drain_server w).0 ≡ d → Exits (exit_code float r none d)
      of_drained (ended none) q = stopped h q
      of_drained (ended (some e)) q = server_failed h q
      of_drained out_of_time q = stopped_late h q

  after_lead-Exits :
      (c : Command float.F) (clientset : K) (config : RestConfig float.F C) (exporter : Selected B)
      → (w : W) (x : (LeaderState × Option E) × W) → IsReady c clientset config exporter w
      → c.leader_election ≡ true
      → r.lead c clientset config exporter w ≡ x
      → Exits (after_lead float r x).0
  unfolding after_lead
  after_lead-Exits c clientset config exporter w ((leader_lost, e), w') a t h = lost a t h
  after_lead-Exits c clientset config exporter w ((leader_shutdown, e), w') a t h =
      drain-Exits c e w' (led a t h)

  reconcile-Exits :
      (b : Bool) (c : Command float.F) (clientset : K) (config : RestConfig float.F C)
      → (exporter : Selected B) (w : W) → c.leader_election ≡ b
      → IsReady c clientset config exporter w
      → Exits (reconcile float r b c clientset config exporter w).0
  unfolding reconcile
  reconcile-Exits true c clientset config exporter w h a =
      after_lead-Exits c clientset config exporter w (r.lead c clientset config exporter w) a h refl
  reconcile-Exits false c clientset config exporter w h a = drain-Exits c _ _ (alone a h refl)

  with_client-Exits :
      (c : Command float.F) (exporter : Selected B) (w : W)
      → (x : Result ClientError (K × RestConfig float.F C) × W) → IsAccepted c
      → init r.makers c start ≡ (ok exporter, w)
      → build_rest_config r.kubernetes c.kubeconfig c.qps c.burst w ≡ x
      → Exits (with_client float r c exporter x).0
  unfolding with_client serve
  with_client-Exits c exporter w (err e, w') a m h = no_client a m h
  with_client-Exits c exporter w (ok (clientset, config), w') a m h =
      elim (Bool-cases (r.is_bad_selector c.pod_label_selector)) [
        | inl bad ↦ rw bad (bad_selector a bad)
        | inr good ↦ rw good (
            reconcile-Exits c.leader_election c clientset config exporter (r.start_server c w') refl
              (record {
                accepted = a;
                made_world = w;
                made = m;
                client_world = w';
                connected = h;
                good_selector = good;
                started = refl;
              }))
      ]

  with_exporter-Exits :
      (c : Command float.F) (x : Result InitError (Selected B) × W)
      → IsAccepted c
      → init r.makers c start ≡ x
      → Exits (with_exporter float r c x).0
  unfolding with_exporter close_exporter
  with_exporter-Exits c (err e, w') a h = no_exporter a h
  with_exporter-Exits c (ok exporter, w') a h = with_client-Exits c exporter w' _ a h refl

  with_command-Exits :
      (x : Result LoadError (Command float.F))
      → new_command_from_env_vars float parsers env ≡ x
      → Exits (with_command float r x start).0
  unfolding with_command
  with_command-Exits (err e) h = not_loaded h
  with_command-Exits (ok c) h = of_validate (validate float c) refl
    where
      of_validate :
          (x : Option ConfigError)
          → validate float c ≡ x
          → Exits
              (elim x as (λ _. ℕ × W) [
                | some e ↦ (2, start)
                | none ↦ with_exporter float r c (init r.makers c start)
              ]).0
      of_validate (some e) v = not_valid h v
      of_validate none v = with_exporter-Exits c _ (record { loaded = h; valid = v }) refl

  -- Run exits with 1 only if leader election is on and reports a lost lease; with 0 only if a valid
  -- command was loaded, the reconciliation ended without an error, and the server did too or did
  -- not end in its budget; and with 2 for one of the failures on the way: there is no other exit
  -- code.
  pub run-Exits : Exits (run float r parsers env start).0
  unfolding run
  run-Exits = with_command-Exits _ refl
