-- ===== src/Runner/Config.antt =====
-- Command of pkg/runner/option.go: its defaults, its options and its validation. A float32 is a
-- parameter, with what the code does with one; a duration is an int64 of nanoseconds.
pub mod Validate
pub mod Env
use gpuid.Base.{
  ℕ, ◌*◌, Bool, true, false, not, ◌||◌, List, [], ◌∷◌, if◌then◌else◌, Option, none, some, Text,
  codes, is_blank, ℤ, pos, negsuc, ltb_ℤ, leb_ℤ,
}

pub record Float32 : Type 1 where
  pub F : Type 0
  -- f <= 0
  pub nonpositive : F → Bool
  -- f < g
  pub less : F → F → Bool
  -- float32(n)
  pub of_int : ℤ → F
  -- strconv.ParseFloat(s, 32)
  pub parse : Text → Option F

pub record Command (F : Type 0) : Type 0 where
  pub exporter_type : Text
  pub cluster : Text
  pub namespace : Text
  pub pod_label_selector : Text
  pub container : Text
  pub workers : ℤ
  pub timeout : ℤ
  pub resync : ℤ
  pub qps : F
  pub burst : ℤ
  pub kubeconfig : Text
  pub log_level : Text
  pub server_port : ℤ
  pub leader_election : Bool
  pub lease_namespace : Text
  pub lease_name : Text
  pub lease_duration : ℤ
  pub lease_renew : ℤ
  pub lease_retry : ℤ
  pub pod_name : Text
  pub pod_namespace : Text

pub data ConfigError : Type 0 where
  invalid_exporter no_cluster_name no_container no_namespace no_label_selector : ConfigError
  invalid_workers too_many_workers invalid_timeout timeout_too_long : ConfigError
  invalid_qps invalid_burst burst_below_qps invalid_resync invalid_server_port : ConfigError
  no_lease_name no_lease_namespace no_pod_name invalid_lease : ConfigError

abbrev pub second : ℕ
second = 1_000_000_000

-- 10*time.Minute
abbrev pub max_timeout : ℤ
max_timeout = pos (600 * second)

module _ (float : Float32) where
  open float use {F, nonpositive, less, of_int}

  -- The checks of the lease, made when leader election is on.
  unfoldable pub validate_lease : Command F → Option ConfigError
  validate_lease c =
      if is_blank c.lease_name
      then some no_lease_name
      else if is_blank c.lease_namespace
      then some no_lease_namespace
      else if is_blank c.pod_name
      then some no_pod_name
      else if leb_ℤ c.lease_duration c.lease_renew
          || leb_ℤ c.lease_renew c.lease_retry
          || leb_ℤ c.lease_retry (pos 0)
      then some invalid_lease
      else none

  -- The checks of the limits, after those of the names.
  unfoldable pub validate_limits : Command F → Option ConfigError
  validate_limits c =
      if leb_ℤ c.workers (pos 0)
      then some invalid_workers
      else if ltb_ℤ (pos 100) c.workers
      then some too_many_workers
      else if leb_ℤ c.timeout (pos 0)
      then some invalid_timeout
      else if ltb_ℤ max_timeout c.timeout
      then some timeout_too_long
      else if nonpositive c.qps
      then some invalid_qps
      else if leb_ℤ c.burst (pos 0)
      then some invalid_burst
      else if less (of_int c.burst) c.qps
      then some burst_below_qps
      else if ltb_ℤ c.resync (pos 0)
      then some invalid_resync
      else if ltb_ℤ c.server_port (pos 1000) || ltb_ℤ (pos 65535) c.server_port
      then some invalid_server_port
      else if c.leader_election
      then validate_lease c
      else none

  -- Validate
  unfoldable pub validate : Command F → Option ConfigError
  validate c =
      if is_blank c.exporter_type
      then some invalid_exporter
      else if is_blank c.cluster
      then some no_cluster_name
      else if is_blank c.container
      then some no_container
      else if is_blank c.namespace
      then some no_namespace
      else if is_blank c.pod_label_selector
      then some no_label_selector
      else validate_limits c
