-- ===== src/Runner/Pod.antt =====
-- The fields of corev1.Pod that the program reads, and podReady of pkg/runner/worker.go.
use gpuid.Base.{
  ◌≤◌, ◌≡◌, ◌↔◌, refl, ap, Bool, true, false, not, List, [], ◌∷◌, arith, ltb, if◌then◌else◌, All,
  Text, length,
}

-- status.phase
pub data Phase : Type 0 where
  pending running succeeded failed unknown : Phase

pub record Pod : Type 0 where
  pub namespace : Text
  pub name : Text
  pub uid : Text
  pub node_name : Text
  pub phase : Phase
  -- spec.containers, by name
  pub containers : List Text
  -- status.containerStatuses, the field `ready` of each
  pub ready : List Bool

abbrev is_running : Phase → Bool
is_running running = true
is_running _ = false

unfoldable pub all_ready : List Bool → Bool
all_ready [] = true
all_ready (r ∷ rest) = if not r then false else all_ready rest

unfoldable pub pod_ready : Pod → Bool
pod_ready p =
    if not (is_running p.phase)
    then false
    else if ltb (length p.ready) (length p.containers)
    then false
    else all_ready p.ready

-- Running, with a status for each container, and all of them ready.
pub record IsReady (p : Pod) : Type 0 where
  pub phase_running : p.phase ≡ running
  pub all_present : length p.containers ≤ length p.ready
  pub all_up : All (λ r. r ≡ true) p.ready

all_ready-All : (l : List Bool) → (all_ready l ≡ true) ↔ All (λ r. r ≡ true) l
unfolding all_ready
all_ready-All [] = (λ _. tt, λ _. refl)
all_ready-All (true ∷ l) = (λ h. (refl, (all_ready-All l).0 h), λ h. (all_ready-All l).1 h.1)
all_ready-All (false ∷ l) = (λ h. absurd (cc h), λ h. h.0)

is_running-eq : (p : Phase) → is_running p ≡ true → p ≡ running
is_running-eq running h = refl
is_running-eq pending h = cc
is_running-eq succeeded h = cc
is_running-eq failed h = cc
is_running-eq unknown h = cc

-- A pod is ready exactly if it is running, has a status for every container, and all are ready.
pub pod_ready_iff : (p : Pod) → (pod_ready p ≡ true) ↔ IsReady p
unfolding pod_ready
pod_ready_iff p = (
  λ h. record {
    phase_running = is_running-eq p.phase (ground arith);
    all_present = ground arith;
    all_up = (all_ready-All p.ready).0 (ground arith);
  },
  λ h. ground (arith, ap is_running h.phase_running, (all_ready-All p.ready).1 h.all_up),
)
