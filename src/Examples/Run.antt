-- ===== src/Examples/Run.antt =====
-- A process that loads its configuration, controls without leader election, and stops in time.
use gpuid.Base.{ℕ, suc, ◌+◌, ◌≡◌, refl, arith, [], pos, true, false, none, some}
use gpuid.Runner.Config.{Command}
use gpuid.Runner.Config.Env.{new_command_from_env_vars}
use gpuid.Runner.Export.Select.{Makers, select_made, select_backend, get_exporter}
use gpuid.Runner.Client.{Kubernetes, RestConfig, build_rest_config, from_cluster, new_client}
use gpuid.Runner.Service.Election.{leader_shutdown}
use gpuid.Runner.Service.Run.{Runtime, ended, init, init_made, run}
use gpuid.Runner.Service.Run.Exits.{Exits, run-Exits}
use gpuid.Runner.Service.Run.Closes.{Counted, made, run-closes}
use gpuid.Examples.Config.{float, parsers, env}

-- The world is the number of times that a backend was closed; there is one of everything.
abbrev pub makers : Makers (Unit {0}) ℕ
makers = record {
  new_stdout = tt;
  new_s3 = λ w. (some tt, w);
  new_postgres = λ w. (some tt, w);
  new_http = λ w. (some tt, w);
}

abbrev base : RestConfig ℕ (Unit {0})
base = record { qps = 0; burst = pos 0; timeout = pos 0; other = tt }

abbrev pub kubernetes : Kubernetes ℕ (Unit {0}) (Unit {0}) ℕ
kubernetes = record {
  getenv = λ k. [];
  user_home_dir = none;
  join = λ parts. [];
  is_not_exist = λ path w. (true, w);
  in_cluster_config = λ w. (some base, w);
  build_config_from_flags = λ path w. (none, w);
  new_for_config = λ c w. (some tt, w);
}

abbrev runtime : Runtime ℕ (Unit {0}) (Unit {0}) (Unit {0}) (Unit {0}) ℕ
runtime = record {
  makers = makers;
  close_backend = λ b w. (false, suc w);
  kubernetes = kubernetes;
  is_bad_selector = λ s. false;
  start_server = λ c w. w;
  lead = λ c k config e w. ((leader_shutdown, none), w);
  control = λ c k config e w. (none, w);
  drain_server = λ w. (ended none, w);
}

run-Exits_example : Exits float runtime parsers env 3 (run float runtime parsers env 3).0
run-Exits_example = run-Exits float runtime parsers env 3

init-world : (c : Command ℕ) (w : ℕ) → (init makers c w).1 ≡ w
unfolding init init_made get_exporter select_backend select_made
init-world c w = ground arith

counted : Counted float runtime (λ w. w)
counted = record {
  close_counts = λ b w. omega arith;
  init_keeps = init-world;
  client_keeps = λ kubeconfig qps burst w. unfold build_rest_config from_cluster new_client in refl;
  server_keeps = λ c w. refl;
  lead_keeps = λ c k config e w. refl;
  control_keeps = λ c k config e w. refl;
  drain_keeps = λ w. refl;
}

run-closes_example :
    (run float runtime parsers env 3).1
    ≡ 3 + made float runtime (new_command_from_env_vars float parsers env) 3
run-closes_example = run-closes float runtime (λ w. w) counted parsers env 3
