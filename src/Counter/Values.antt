-- ===== src/Counter/Values.antt =====
-- The value of a counter for some labels is how often it was incremented with them.
use gpuid.Base.{
  ℕ, ◌+◌, ◌≡◌, refl, ap, ◌∙◌, arith, Bool, true, false, ◌&&◌, ◌||◌, List, [], ◌∷◌, length, All,
  if◌then◌else◌, Option, none, some, Text, text_eq,
}
use gpuid.Counter.{Prometheus, Counter, increment, new}

-- Are these the same label values?
abbrev pub same_values : List Text → List Text → Bool
same_values [] [] = true
same_values (s ∷ ss) (t ∷ ts) = text_eq s t && same_values ss ts
same_values _ _ = false

-- What the client is documented to do. A registration succeeds if no vector has the name yet; an
-- increment needs as many values as the vector has labels, and adds one for these values of this
-- vector alone.
pub record IsPrometheus {V W : Type 0} (client : Prometheus V W) : Type 0 where
  pub registered : W → Text → Bool
  pub value : W → Text → List Text → ℕ
  pub name_of : V → Text
  pub arity : V → ℕ
  pub named :
      (name help : Text) (labels : List Text)
      → (name_of (client.new_counter_vec name help labels) ≡ name)
        × (arity (client.new_counter_vec name help labels) ≡ length labels)
  pub registers :
      (v : V) (w : W)
      → registered w (name_of v) ≡ false
      → (w' : W) × (client.must_register v w ≡ some w')
        × ((n : Text) → registered w' n ≡ (text_eq (name_of v) n || registered w n))
        × ((n : Text) (values : List Text) → value w' n values ≡ value w n values)
  pub increments :
      (v : V) (values : List Text) (w : W)
      → length values ≡ arity v
      → (w' : W) × (client.inc v values w ≡ some w')
        × ((n : Text) (others : List Text)
            → value w' n others
              ≡ (if text_eq (name_of v) n && same_values values others then 1 else 0)
                + value w n others)

-- How often the values stand in a list of increments.
abbrev pub occurrences : List Text → List (List Text) → ℕ
occurrences values [] = 0
occurrences values (v ∷ vs) = (if same_values v values then 1 else 0) + occurrences values vs

-- The increments of a list, the last one first.
unfoldable pub increment_all :
    {V W : Type 0} → Prometheus V W → Counter V → List (List Text) → W → Option W
unfolding increment
increment_all client c [] w = some w
increment_all client c (v ∷ vs) w = elim (increment_all client c vs w) [
  | none ↦ none
  | some w' ↦ increment client c v w'
]

module _ {V W : Type 0} (client : Prometheus V W) (law : IsPrometheus client) where
  open law use {registered, value, name_of, arity}

  -- A counter that was made in the world w.
  pub record IsMade (name : Text) (labels : List Text) (w : W) (r : Option (Counter V × W))
      : Type 0 where
    pub counter : Counter V
    pub world : W
    pub made : r ≡ some (counter, world)
    pub has_name : name_of counter.vec ≡ name
    pub has_arity : arity counter.vec ≡ length labels
    pub adds_name : (n : Text) → registered world n ≡ (text_eq name n || registered w n)
    pub keeps_values : (n : Text) (values : List Text) → value world n values ≡ value w n values

  -- A new counter is registered under its name, takes as many values as it has labels, and changes
  -- no value, if nothing has the name yet.
  pub new-IsMade :
      (name help : Text) (labels : List Text) (w : W)
      → registered w name ≡ false
      → IsMade name labels w (new client name help labels w)
  unfolding new
  new-IsMade name help labels w free =
      let v = client.new_counter_vec name help labels in
      let (named, sized) = law.named name help labels in
      let (w', done, names, values) = law.registers v w (ap (registered w) named ∙ free) in
      record {
        counter = record { name = name; help = help; vec = v };
        world = w';
        made = rw (done, new) refl;
        has_name = named;
        has_arity = sized;
        adds_name = λ n. names n ∙ ap (λ m. text_eq m n || registered w n) named;
        keeps_values = values;
      }

  -- The increments of a counter, with a value for each label, do not panic, and add to each value
  -- of it how often it stands in the list, and nothing to other counters.
  pub increment_all_lem :
      (c : Counter V) (name : Text) (l : List (List Text)) (w : W)
      → name_of c.vec ≡ name
      → All (λ v. length v ≡ arity c.vec) l
      → (w' : W) × (increment_all client c l w ≡ some w')
        × ((n : Text) (values : List Text)
            → value w' n values
              ≡ (if text_eq name n then occurrences values l else 0) + value w n values)
  unfolding increment_all
  increment_all_lem c name [] w e h = (w, refl, λ n values. ground arith)
  increment_all_lem c name (v ∷ vs) w e (hv, hs) =
      let (w', done, sum) = increment_all_lem c name vs w e hs in
      let (w'', one, adds) = law.increments c.vec v w' hv in
      (
        w'',
        rw done (unfold increment in one),
        λ n values. ground (arith, sum n values, adds n values, ap (λ m. text_eq m n) e),
      )
