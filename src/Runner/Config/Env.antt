-- ===== src/Runner/Config/Env.antt =====
-- The options of pkg/runner/option.go, NewCommand and NewCommandFromEnvVars. The environment is a
-- function; the parsers of package strconv and of package time are parameters.
pub mod Laws
pub mod Listed
use gpuid.Base.{
  ℕ, ◌*◌, Bool, true, false, List, [], ◌∷◌, if◌then◌else◌, Option, none, some, Result, ok, err,
  Text, codes, is_empty, ℤ, pos,
}
use gpuid.Runner.Config.{Float32, Command, second}

-- The options: each sets one field.
pub data Setting (F : Type 0) : Type 0 where
  with_exporter_type with_cluster_name with_namespace with_pod_label_selector : Text → Setting F
  with_container with_kubeconfig with_log_level : Text → Setting F
  with_lease_namespace with_lease_name with_pod_name with_pod_namespace : Text → Setting F
  with_workers with_timeout with_resync with_burst with_server_port : ℤ → Setting F
  with_lease_duration with_lease_renew with_lease_retry : ℤ → Setting F
  with_leader_election : Bool → Setting F
  with_qps : F → Setting F

module _ {F : Type 0} where
  -- opt(cmd)
  unfoldable pub apply_option : Setting F → Command F → Command F
  apply_option (with_exporter_type v) c = record c { exporter_type = v }
  apply_option (with_cluster_name v) c = record c { cluster = v }
  apply_option (with_namespace v) c = record c { namespace = v }
  apply_option (with_pod_label_selector v) c = record c { pod_label_selector = v }
  apply_option (with_container v) c = record c { container = v }
  apply_option (with_kubeconfig v) c = record c { kubeconfig = v }
  apply_option (with_log_level v) c = record c { log_level = v }
  apply_option (with_lease_namespace v) c = record c { lease_namespace = v }
  apply_option (with_lease_name v) c = record c { lease_name = v }
  apply_option (with_pod_name v) c = record c { pod_name = v }
  apply_option (with_pod_namespace v) c = record c { pod_namespace = v }
  apply_option (with_workers v) c = record c { workers = v }
  apply_option (with_timeout v) c = record c { timeout = v }
  apply_option (with_resync v) c = record c { resync = v }
  apply_option (with_burst v) c = record c { burst = v }
  apply_option (with_server_port v) c = record c { server_port = v }
  apply_option (with_lease_duration v) c = record c { lease_duration = v }
  apply_option (with_lease_renew v) c = record c { lease_renew = v }
  apply_option (with_lease_retry v) c = record c { lease_retry = v }
  apply_option (with_leader_election v) c = record c { leader_election = v }
  apply_option (with_qps v) c = record c { qps = v }

  unfoldable pub apply_options : List (Setting F) → Command F → Command F
  unfolding apply_option
  apply_options [] c = c
  apply_options (o ∷ opts) c = apply_options opts (apply_option o c)

module _ (float : Float32) where
  open float use {F, of_int}

  -- The Default constants.
  abbrev pub default_command : Command F
  default_command = record {
    exporter_type = codes "stdout";
    cluster = codes "";
    namespace = codes "gpu-operator";
    pod_label_selector = codes "app=nvidia-device-plugin-daemonset";
    container = codes "nvidia-device-plugin";
    workers = pos 16;
    timeout = pos (30 * second);
    resync = pos 0;
    qps = of_int (pos 50);
    burst = pos 100;
    kubeconfig = codes "";
    log_level = codes "info";
    server_port = pos 8080;
    leader_election = false;
    lease_namespace = codes "gpuid";
    lease_name = codes "gpuid-leader";
    lease_duration = pos (15 * second);
    lease_renew = pos (10 * second);
    lease_retry = pos (2 * second);
    pod_name = codes "";
    pod_namespace = codes "";
  }

  -- NewCommand
  unfoldable pub new_command : List (Setting F) → Command F
  unfolding apply_options
  new_command opts = apply_options opts default_command

-- strconv.Atoi, strconv.ParseBool, time.ParseDuration; `none` is an error
pub record Parsers : Type 0 where
  pub parse_int : Text → Option ℤ
  pub parse_bool : Text → Option Bool
  pub parse_duration : Text → Option ℤ

-- The variable that could not be parsed.
pub data LoadError : Type 0 where
  invalid_variable : Text → LoadError

-- os.LookupEnv
abbrev pub Environment : Type 0
Environment = Text → Option Text

-- getEnv
unfoldable pub get_env : Environment → Text → Text → Text
get_env env name default = elim (env name) [ none ↦ default | some v ↦ v ]

-- getEnvAsBool, getEnvAsDuration, getEnvAsInt and getEnvAsFloat32: the same but for the parser.
unfoldable pub get_env_as {ℓ} :
    {A : Type ℓ} → (Text → Option A) → Environment → Text → A → Result LoadError A
unfolding get_env
get_env_as parse env name default =
    if is_empty (get_env env name [])
    then ok default
    else elim (parse (get_env env name [])) [ none ↦ err (invalid_variable name) | some v ↦ ok v ]

-- if err != nil { return nil, err }
infixl 5 ◌>>=◌
abbrev pub ◌>>=◌ :
    {A B : Type 0} → Result LoadError A → (A → Result LoadError B) → Result LoadError B
first >>= next = elim first [ ok a ↦ next a | err e ↦ err e ]

module _ (float : Float32) (parsers : Parsers) (env : Environment) where
  open float use {F, of_int, parse}
  open parsers use {parse_int, parse_bool, parse_duration}

  abbrev env_int : Text → ℤ → Result LoadError ℤ
  env_int = get_env_as parse_int env

  abbrev env_duration : Text → ℤ → Result LoadError ℤ
  env_duration = get_env_as parse_duration env

  -- The options, with the parsed values.
  unfoldable pub env_options : ℤ → ℤ → ℤ → F → ℤ → ℤ → Bool → ℤ → ℤ → ℤ → List (Setting F)
  unfolding get_env
  env_options workers timeout resync qps burst port leader_election duration renew retry =
      with_exporter_type (get_env env (codes "EXPORTER_TYPE") (codes "stdout"))
      ∷ with_cluster_name (get_env env (codes "CLUSTER_NAME") (codes ""))
      ∷ with_namespace (get_env env (codes "NAMESPACE") (codes "gpu-operator"))
      ∷ with_pod_label_selector
          (get_env env (codes "LABEL_SELECTOR") (codes "app=nvidia-device-plugin-daemonset"))
      ∷ with_container (get_env env (codes "CONTAINER") (codes "nvidia-device-plugin"))
      ∷ with_workers workers
      ∷ with_timeout timeout
      ∷ with_resync resync
      ∷ with_qps qps
      ∷ with_burst burst
      ∷ with_kubeconfig (get_env env (codes "KUBECONFIG") (codes ""))
      ∷ with_log_level (get_env env (codes "LOG_LEVEL") (codes "info"))
      ∷ with_server_port port
      ∷ with_leader_election leader_election
      ∷ with_lease_namespace (get_env env (codes "LEASE_NAMESPACE") (codes "gpuid"))
      ∷ with_lease_name (get_env env (codes "LEASE_NAME") (codes "gpuid-leader"))
      ∷ with_lease_duration duration
      ∷ with_lease_renew renew
      ∷ with_lease_retry retry
      ∷ with_pod_name (get_env env (codes "POD_NAME") (codes ""))
      ∷ with_pod_namespace (get_env env (codes "POD_NAMESPACE") (codes ""))
      ∷ []

  -- NewCommandFromEnvVars
  unfoldable pub new_command_from_env_vars : Result LoadError (Command F)
  new_command_from_env_vars = do
    workers ← env_int (codes "WORKERS") (pos 16)
    timeout ← env_duration (codes "TIMEOUT") (pos (30 * second))
    resync ← env_duration (codes "RESYNC") (pos 0)
    qps ← get_env_as parse env (codes "QPS") (of_int (pos 50))
    burst ← env_int (codes "BURST") (pos 100)
    port ← env_int (codes "SERVER_PORT") (pos 8080)
    leader_election ← get_env_as parse_bool env (codes "LEADER_ELECTION") false
    duration ← env_duration (codes "LEASE_DURATION") (pos (15 * second))
    renew ← env_duration (codes "LEASE_RENEW_DEADLINE") (pos (10 * second))
    retry ← env_duration (codes "LEASE_RETRY_PERIOD") (pos (2 * second))
    ok (
        new_command float
          (env_options workers timeout resync qps burst port leader_election duration renew retry))

-- ListEnvVars
unfoldable pub list_env_vars : List Text
list_env_vars =
    codes "EXPORTER_TYPE"
    ∷ codes "CLUSTER_NAME"
    ∷ codes "NAMESPACE"
    ∷ codes "LABEL_SELECTOR"
    ∷ codes "CONTAINER"
    ∷ codes "WORKERS"
    ∷ codes "TIMEOUT"
    ∷ codes "RESYNC"
    ∷ codes "QPS"
    ∷ codes "BURST"
    ∷ codes "KUBECONFIG"
    ∷ codes "LOG_LEVEL"
    ∷ codes "SERVER_PORT"
    ∷ codes "LEADER_ELECTION"
    ∷ codes "LEASE_NAMESPACE"
    ∷ codes "LEASE_NAME"
    ∷ codes "LEASE_DURATION"
    ∷ codes "LEASE_RENEW_DEADLINE"
    ∷ codes "LEASE_RETRY_PERIOD"
    ∷ codes "POD_NAME"
    ∷ codes "POD_NAMESPACE"
    ∷ []
