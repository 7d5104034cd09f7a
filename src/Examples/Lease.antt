-- ===== src/Examples/Lease.antt =====
-- A replica that leads, and exits when it loses its lease.
use gpuid.Base.{
  ℕ, ◌≡◌, refl, if◌then◌else◌, true, false, none, some, ok, codes, text_eq, pos, is_blank,
  trim_space, trim_start, trim_end, is_space,
}
use gpuid.Runner.Config.{Command}
use gpuid.Runner.Config.Env.{
  Parsers, Environment, apply_option, apply_options, default_command, new_command, get_env,
  get_env_as, env_options, new_command_from_env_vars,
}
use gpuid.Runner.Service.Election.{elected, leader_lost}
use gpuid.Runner.Service.Run.{
  Runtime, ended, run, with_command, with_exporter, with_client, serve, reconcile, after_lead,
  close_exporter, init, init_made,
}
use gpuid.Runner.Config.{validate, validate_limits, validate_lease}
use gpuid.Runner.Export.Select.{
  get_exporter, with_defaults, select_backend, select_made, name_of, close,
}
use gpuid.Runner.Client.{build_rest_config, from_cluster, new_client}
use gpuid.Runner.Service.Run.Lease.{Leaves, IsElected, run-Leaves}
use gpuid.Examples.Config.{float, parsers, env}
use gpuid.Examples.Election.{after_loss, loss}
use gpuid.Examples.Run.{makers, kubernetes}

abbrev replica_parsers : Parsers
replica_parsers = record parsers {
  parse_bool = λ s. if text_eq s (codes "true") then some true else none;
}

abbrev replica_env : Environment
replica_env name =
    if text_eq name (codes "LEADER_ELECTION")
    then some (codes "true")
    else if text_eq name (codes "POD_NAME")
    then some (codes "gpuid-0")
    else env name

abbrev replica : Command ℕ
replica = record (default_command float) {
  workers = pos 4;
  cluster = codes "lab";
  leader_election = true;
  pod_name = codes "gpuid-0";
}

replica_test : new_command_from_env_vars float replica_parsers replica_env ≡ ok replica
unfolding new_command_from_env_vars new_command env_options get_env_as get_env apply_options
    apply_option text_eq
replica_test = refl

abbrev losing : Runtime ℕ (Unit {0}) (Unit {0}) (Unit {0}) ℕ ℕ
losing = record {
  makers = makers;
  close_backend = λ b w. (false, w);
  kubernetes = kubernetes;
  is_bad_selector = λ s. false;
  start_server = λ c w. w;
  lead = λ c k config e w. ((leader_lost, none), w);
  control = λ c k config e w. (none, w);
  drain_server = λ w. (ended none, w);
}

losing-IsElected : IsElected float losing (λ c w. none) (λ c w. after_loss)
losing-IsElected = record { leads = λ c k config x w w' st e h. elected refl loss cc }

run-Leaves_example :
    Leaves float losing replica_parsers replica_env 0
      (λ c w. none)
      (λ c w. after_loss)
      (run float losing replica_parsers replica_env 0).0
run-Leaves_example =
    run-Leaves float losing replica_parsers replica_env 0 (λ c w. none) (λ c w. after_loss)
      losing-IsElected replica replica_test refl

losing_exit : (run float losing replica_parsers replica_env 0).0 ≡ 1
unfolding run with_command with_exporter with_client serve reconcile after_lead close_exporter
    new_command_from_env_vars new_command env_options get_env_as get_env apply_options apply_option
    text_eq is_blank trim_space trim_start trim_end is_space validate validate_limits validate_lease
    init init_made get_exporter with_defaults select_backend select_made name_of build_rest_config
    from_cluster new_client close
losing_exit = refl
