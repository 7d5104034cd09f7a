-- ===== src/Counter.antt =====
-- pkg/counter/counter.go. The vectors and the registry of the Prometheus client are parameters; a
-- call of it that panics gives none.
pub mod Values
use gpuid.Base.{List, Option, none, some, Text}

-- What the code asks of the Prometheus client, over the vectors V and the state W of the registry.
pub record Prometheus (V W : Type 0) : Type 0 where
  -- NewCounterVec, with the name, the help text and the labels
  pub new_counter_vec : Text → Text → List Text → V
  pub must_register : V → W → Option W
  -- WithLabelValues(val...).Inc()
  pub inc : V → List Text → W → Option W

pub record Counter (V : Type 0) : Type 0 where
  pub name : Text
  pub help : Text
  pub vec : V

module _ {V W : Type 0} (client : Prometheus V W) where
  -- Increment
  unfoldable pub increment : Counter V → List Text → W → Option W
  increment c val w = client.inc c.vec val w

  -- New
  unfoldable pub new : Text → Text → List Text → W → Option (Counter V × W)
  new name help labels w =
      let vec = client.new_counter_vec name help labels in
      elim (client.must_register vec w) [
        | none ↦ none
        | some w' ↦ some (record { name = name; help = help; vec = vec }, w')
      ]
