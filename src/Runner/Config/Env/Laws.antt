-- ===== src/Runner/Config/Env/Laws.antt =====
-- What NewCommandFromEnvVars loads.
use gpuid.Base.{
  ◌*◌, ◌≡◌, refl, subst, true, false, [], ◌∷◌, arith, Option, none, some, Result, ok, err, Text,
  codes, is_empty, is_blank, pos, Bool-cases, Option-cases, inl, inr, ◌⊎◌,
}
use gpuid.Runner.Config.{Float32, Command, second, validate, no_cluster_name}
use gpuid.Runner.Config.Env.{
  Environment, Parsers, LoadError, get_env, get_env_as, default_command, new_command, env_options,
  new_command_from_env_vars, ◌>>=◌,
}

-- A chain that ends well has read its first value.
first_read :
    {A B : Type 0} {c : B} (next : A → Result LoadError B) (first : Result LoadError A)
    → (first >>= next) ≡ ok c
    → (a : A) × (first ≡ ok a) × (next a ≡ ok c)
first_read next (err e) h = cc
first_read next (ok a) h = (a, refl, h)

ok-injective : {A : Type 0} {a b : A} → ◌≡◌ {A = Result LoadError A} (ok a) (ok b) → a ≡ b
ok-injective h = cc

-- A text is that of its variable, also if that is empty, or the default if the variable is missing.
abbrev pub Gives : Environment → Text → Text → Text → Type 0
Gives env name a default = ((env name ≡ none) × (a ≡ default)) ⊎ (env name ≡ some a)

-- A typed variable is missing or empty and has its default, or it is read by its parser.
abbrev pub Reads : {A : Type 0} → (Text → Option A) → Environment → Text → A → A → Type 0
Reads parse env name default a =
    (((env name ≡ none) ⊎ (env name ≡ some [])) × (a ≡ default))
    ⊎ ((v : Text) × (env name ≡ some v) × (is_empty v ≡ false) × (parse v ≡ some a))

get_env-Gives :
    (env : Environment) (name default : Text) → Gives env name (get_env env name default) default
unfolding get_env
get_env-Gives env name default = elim (Option-cases (env name)) [
  | inl e ↦ inl (e, rw (e, get_env) refl)
  | inr (v, e) ↦ inr (rw (e, get_env) refl)
]

nil_of_empty : (s : Text) → is_empty s ≡ true → s ≡ []
nil_of_empty [] h = refl
nil_of_empty (c ∷ s) h = cc

get_env_as-Reads :
    {A : Type 0} (parse : Text → Option A) (env : Environment) (name : Text) (default a : A)
    → get_env_as parse env name default ≡ ok a
    → Reads parse env name default a
unfolding get_env_as get_env
get_env_as-Reads parse env name default a h = elim (Option-cases (env name)) [
  | inl e ↦ inl (inl e, ground arith)
  | inr (v, e) ↦ elim (Bool-cases (is_empty v)) [
    | inl z ↦ inl (inr (cc (e, nil_of_empty v z)), ground arith)
    | inr z ↦ inr (v, e, z, ground arith)
  ]
]

module _ (float : Float32) (parsers : Parsers) (env : Environment) where
  open float use {F, of_int, parse}
  open parsers use {parse_int, parse_bool, parse_duration}

  -- Each field has what its variable says.
  pub record IsLoaded (c : Command F) : Type 0 where
    pub exporter_type_read : Gives env (codes "EXPORTER_TYPE") c.exporter_type (codes "stdout")
    pub cluster_read : Gives env (codes "CLUSTER_NAME") c.cluster (codes "")
    pub namespace_read : Gives env (codes "NAMESPACE") c.namespace (codes "gpu-operator")
    pub selector_read :
        Gives env
          (codes "LABEL_SELECTOR")
          c.pod_label_selector
          (codes "app=nvidia-device-plugin-daemonset")
    pub container_read : Gives env (codes "CONTAINER") c.container (codes "nvidia-device-plugin")
    pub workers_read : Reads parse_int env (codes "WORKERS") (pos 16) c.workers
    pub timeout_read : Reads parse_duration env (codes "TIMEOUT") (pos (30 * second)) c.timeout
    pub resync_read : Reads parse_duration env (codes "RESYNC") (pos 0) c.resync
    pub qps_read : Reads parse env (codes "QPS") (of_int (pos 50)) c.qps
    pub burst_read : Reads parse_int env (codes "BURST") (pos 100) c.burst
    pub kubeconfig_read : Gives env (codes "KUBECONFIG") c.kubeconfig (codes "")
    pub log_level_read : Gives env (codes "LOG_LEVEL") c.log_level (codes "info")
    pub port_read : Reads parse_int env (codes "SERVER_PORT") (pos 8080) c.server_port
    pub election_read : Reads parse_bool env (codes "LEADER_ELECTION") false c.leader_election
    pub lease_namespace_read : Gives env (codes "LEASE_NAMESPACE") c.lease_namespace (codes "gpuid")
    pub lease_name_read : Gives env (codes "LEASE_NAME") c.lease_name (codes "gpuid-leader")
    pub duration_read :
        Reads parse_duration env (codes "LEASE_DURATION") (pos (15 * second)) c.lease_duration
    pub renew_read :
        Reads parse_duration env (codes "LEASE_RENEW_DEADLINE") (pos (10 * second)) c.lease_renew
    pub retry_read :
        Reads parse_duration env (codes "LEASE_RETRY_PERIOD") (pos (2 * second)) c.lease_retry
    pub pod_name_read : Gives env (codes "POD_NAME") c.pod_name (codes "")
    pub pod_namespace_read : Gives env (codes "POD_NAMESPACE") c.pod_namespace (codes "")

  -- A command that is loaded from the environment has in each field what its variable says, or the
  -- default of that field if the variable is missing, or empty and typed; a text is that of its
  -- variable also if that is empty. No text that does not parse is passed over.
  pub new_command_from_env_vars-IsLoaded :
      (c : Command F) → new_command_from_env_vars float parsers env ≡ ok c → IsLoaded c
  unfolding new_command_from_env_vars new_command env_options
  new_command_from_env_vars-IsLoaded c h =
      let (workers, p1, h1) = first_read _ _ h in
      let (timeout, p2, h2) = first_read _ _ h1 in
      let (resync, p3, h3) = first_read _ _ h2 in
      let (qps, p4, h4) = first_read _ _ h3 in
      let (burst, p5, h5) = first_read _ _ h4 in
      let (port, p6, h6) = first_read _ _ h5 in
      let (election, p7, h7) = first_read _ _ h6 in
      let (duration, p8, h8) = first_read _ _ h7 in
      let (renew, p9, h9) = first_read _ _ h8 in
      let (retry, p10, h10) = first_read _ _ h9 in
      subst IsLoaded (ok-injective h10) (record {
        exporter_type_read = get_env-Gives env _ _;
        cluster_read = get_env-Gives env _ _;
        namespace_read = get_env-Gives env _ _;
        selector_read = get_env-Gives env _ _;
        container_read = get_env-Gives env _ _;
        workers_read = get_env_as-Reads parse_int env _ _ workers p1;
        timeout_read = get_env_as-Reads parse_duration env _ _ timeout p2;
        resync_read = get_env_as-Reads parse_duration env _ _ resync p3;
        qps_read = get_env_as-Reads parse env _ _ qps p4;
        burst_read = get_env_as-Reads parse_int env _ _ burst p5;
        kubeconfig_read = get_env-Gives env _ _;
        log_level_read = get_env-Gives env _ _;
        port_read = get_env_as-Reads parse_int env _ _ port p6;
        election_read = get_env_as-Reads parse_bool env _ _ election p7;
        lease_namespace_read = get_env-Gives env _ _;
        lease_name_read = get_env-Gives env _ _;
        duration_read = get_env_as-Reads parse_duration env _ _ duration p8;
        renew_read = get_env_as-Reads parse_duration env _ _ renew p9;
        retry_read = get_env_as-Reads parse_duration env _ _ retry p10;
        pod_name_read = get_env-Gives env _ _;
        pod_namespace_read = get_env-Gives env _ _;
      })

-- With no variable set the command is the default one, whatever the parsers do, and Validate refuses
-- it: the cluster name has no default.
pub new_command_from_env_vars_unset :
    (float : Float32) (parsers : Parsers)
    → (new_command_from_env_vars float parsers (λ _. none) ≡ ok (default_command float))
      × (validate float (default_command float) ≡ some no_cluster_name)
unfolding new_command_from_env_vars new_command env_options get_env_as get_env validate is_blank
new_command_from_env_vars_unset float parsers = (refl, refl)
