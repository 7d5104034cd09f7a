-- ===== src/Runner/Config/Validate.antt =====
-- What Validate accepts.
use gpuid.Base.{
  ◌≡◌, ◌↔◌, true, false, arith, if◌then◌else◌, none, is_blank, pos, ◌≤ℤ◌, ◌<ℤ◌, Bool-cases, inl,
  inr,
}
use gpuid.Runner.Config.{Float32, Command, validate_lease, validate_limits, validate, max_timeout}

module _ (float : Float32) (c : Command float.F) where
  open float use {nonpositive, less, of_int}

  -- The lease outlives the renewal, and the renewal the retry.
  pub record IsLeaseValid : Type 0 where
    pub has_lease_name : is_blank c.lease_name ≡ false
    pub has_lease_namespace : is_blank c.lease_namespace ≡ false
    pub has_pod_name : is_blank c.pod_name ≡ false
    pub retry_positive : pos 0 <ℤ c.lease_retry
    pub renew_after_retry : c.lease_retry <ℤ c.lease_renew
    pub lease_after_renew : c.lease_renew <ℤ c.lease_duration

  pub record IsWithinLimits : Type 0 where
    pub workers_positive : pos 0 <ℤ c.workers
    pub workers_bounded : c.workers ≤ℤ pos 100
    pub timeout_positive : pos 0 <ℤ c.timeout
    pub timeout_bounded : c.timeout ≤ℤ max_timeout
    pub qps_positive : nonpositive c.qps ≡ false
    pub burst_positive : pos 0 <ℤ c.burst
    pub burst_at_least_qps : less (of_int c.burst) c.qps ≡ false
    pub resync_nonnegative : pos 0 ≤ℤ c.resync
    pub port_at_least : pos 1000 ≤ℤ c.server_port
    pub port_at_most : c.server_port ≤ℤ pos 65535
    pub lease_valid : c.leader_election ≡ true → IsLeaseValid

  pub record IsValid : Type 0 where
    pub has_exporter : is_blank c.exporter_type ≡ false
    pub has_cluster : is_blank c.cluster ≡ false
    pub has_container : is_blank c.container ≡ false
    pub has_namespace : is_blank c.namespace ≡ false
    pub has_selector : is_blank c.pod_label_selector ≡ false
    pub within_limits : IsWithinLimits

  validate_lease_iff : (validate_lease float c ≡ none) ↔ IsLeaseValid
  unfolding validate_lease
  validate_lease_iff = (λ h. ground arith, λ h. ground arith)

  validate_limits_sound : validate_limits float c ≡ none → IsWithinLimits
  unfolding validate_limits
  validate_limits_sound h = record {
    workers_positive = ground arith;
    workers_bounded = ground arith;
    timeout_positive = ground arith;
    timeout_bounded = ground arith;
    qps_positive = ground arith;
    burst_positive = ground arith;
    burst_at_least_qps = ground arith;
    resync_nonnegative = ground arith;
    port_at_least = ground arith;
    port_at_most = ground arith;
    lease_valid = λ on. validate_lease_iff.0 (ground arith);
  }

  lease_checked :
      (c.leader_election ≡ true → IsLeaseValid)
      → (if c.leader_election then validate_lease float c else none) ≡ none
  lease_checked h = elim (Bool-cases c.leader_election) [
    | inl e ↦ ground (arith, validate_lease_iff.1 (h e))
    | inr e ↦ ground arith
  ]

  validate_limits_complete : IsWithinLimits → validate_limits float c ≡ none
  unfolding validate_limits
  validate_limits_complete h = ground (arith, lease_checked h.lease_valid)

  -- Validate accepts a command exactly if its names, that of the container among them, are not
  -- blank, its numbers are within their limits, and, with leader election, the lease is named and
  -- longer than the renewal, which is longer than a positive retry period.
  pub validate_iff : (validate float c ≡ none) ↔ IsValid
  unfolding validate
  validate_iff = (
    λ h. record {
      has_exporter = ground arith;
      has_cluster = ground arith;
      has_container = ground arith;
      has_namespace = ground arith;
      has_selector = ground arith;
      within_limits = validate_limits_sound (ground arith);
    },
    λ h. ground (arith, validate_limits_complete h.within_limits),
  )
