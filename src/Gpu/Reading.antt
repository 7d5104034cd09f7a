-- ===== src/Gpu/Reading.antt =====
-- SerialNumberReading of pkg/gpu/types.go. A time is a number of nanoseconds after the zero time.
use gpuid.Base.{
  ℕ, ◌≡◌, ◌↔◌, false, List, [], ◌∷◌, arith, ◌==◌, if◌then◌else◌, Text, is_empty, Option, none, some,
}

pub record SerialNumberReading : Type 0 where
  pub cluster : Text
  pub node : Text
  pub machine : Text
  pub source : Text
  pub chassis : Text
  pub gpu : Text
  pub time : ℕ

-- The fields of a row, the time printed by `format`.
unfoldable pub slice : (ℕ → Text) → SerialNumberReading → List Text
slice format r = r.cluster ∷ r.node ∷ r.machine ∷ r.source ∷ r.chassis ∷ r.gpu ∷ format r.time ∷ []

pub data ReadingError : Type 0 where
  cluster_required node_required machine_required source_required gpu_required time_required :
      ReadingError

unfoldable pub validate : SerialNumberReading → Option ReadingError
validate r =
    if is_empty r.cluster
    then some cluster_required
    else if is_empty r.node
    then some node_required
    else if is_empty r.machine
    then some machine_required
    else if is_empty r.source
    then some source_required
    else if is_empty r.gpu
    then some gpu_required
    else if r.time == 0
    then some time_required
    else none

-- Every field that Validate asks for is there. The chassis is not asked for.
pub record IsComplete (r : SerialNumberReading) : Type 0 where
  pub has_cluster : is_empty r.cluster ≡ false
  pub has_node : is_empty r.node ≡ false
  pub has_machine : is_empty r.machine ≡ false
  pub has_source : is_empty r.source ≡ false
  pub has_gpu : is_empty r.gpu ≡ false
  pub has_time : (r.time == 0) ≡ false

-- Validate accepts a reading exactly if every field but the chassis is there.
pub validate-IsComplete : (r : SerialNumberReading) → (validate r ≡ none) ↔ IsComplete r
unfolding validate
validate-IsComplete r = (λ h. ground arith, λ h. ground arith)
