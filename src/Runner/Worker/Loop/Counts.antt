-- ===== src/Runner/Worker/Loop/Counts.antt =====
-- The calls of the worker on its queue against the counters.
use gpuid.Base.{◌≡◌, ◌⊎◌, refl, List, [], ◌∷◌, Text, if◌then◌else◌, inl, inr}
use gpuid.Runner.Pod.{Pod}
use gpuid.Runner.Worker.Process.{
  Services, Settings, State, Outcome, finished, canceled, transient, counter_labels, process_pod,
}
use gpuid.Runner.Worker.Accounts.{Accounts, process_pod-Accounts}
use gpuid.Runner.Worker.Loop.{
  Item, bad_key, lookup_failed, absent, not_a_pod, cached, QueueCall, forget, add_rate_limited,
  done, is_transient, handle_item, do_items,
}

-- No failure is counted, and no success or that of the pod.
abbrev pub IsDone : {W : Type 0} → Item → State W → State W → Type 0
IsDone item st st' =
    (st'.failures ≡ st.failures)
    × ((st'.successes ≡ st.successes)
        ⊎ ((pod : Pod) × (item ≡ cached pod) × (st'.successes ≡ counter_labels pod ∷ st.successes)))

-- One failure of the pod or two are counted, no success, and the pod is not marked.
abbrev pub HasFailed : {W : Type 0} → Pod → State W → State W → Type 0
HasFailed pod st st' =
    (st'.processed ≡ st.processed)
    × (st'.successes ≡ st.successes)
    × ((st'.failures ≡ counter_labels pod ∷ st.failures)
        ⊎ (st'.failures ≡ counter_labels pod ∷ counter_labels pod ∷ st.failures))

-- The items, the calls on the queue, and the states before and after. Each item has two calls for its
-- key, the second of which is Done.
pub data Serves {W : Type 0}
    : List (Text × Item) → List QueueCall → State W → State W → Type 0 where
  none_left : {st : State W} → Serves [] [] st st
  forgotten :
      {key : Text} {item : Item} {items : List (Text × Item)} {calls : List QueueCall}
      {st st' last : State W}
      → IsDone item st st'
      → Serves items calls st' last
      → Serves ((key, item) ∷ items) (forget key ∷ done key ∷ calls) st last
  again :
      {key : Text} {pod : Pod} {items : List (Text × Item)} {calls : List QueueCall}
      {st st' last : State W}
      → HasFailed pod st st'
      → Serves items calls st' last
      → Serves ((key, cached pod) ∷ items) (add_rate_limited key ∷ done key ∷ calls) st last

module _ {W : Type 0} (key : Text) (pod : Pod) (items : List (Text × Item)) (calls : List QueueCall)
    (st st' last : State W) where
  of_outcome :
      (o : Outcome)
      → Accounts pod st o st'
      → Serves items calls st' last
      → Serves
          ((key, cached pod) ∷ items)
          ((if is_transient o then add_rate_limited key else forget key) ∷ done key ∷ calls)
          st
          last
  of_outcome finished (inl (p, q, f)) rest = forgotten (f, inl q) rest
  of_outcome finished (inr (m, f, inl q)) rest = forgotten (f, inl q) rest
  of_outcome finished (inr (m, f, inr q)) rest = forgotten (f, inr (pod, refl, q)) rest
  of_outcome canceled (p, q, f) rest = forgotten (f, inl q) rest
  of_outcome (transient e) (p, q, f) rest = again (p, q, f) rest

module _ {W : Type 0} (s : Services W) (cmd : Settings) where
  handle_item-Serves :
      (key : Text) (item : Item) (items : List (Text × Item)) (calls : List QueueCall)
      (st last : State W)
      → Serves items calls (handle_item s cmd key item st).1 last
      → Serves ((key, item) ∷ items) ((handle_item s cmd key item st).0 ∷ done key ∷ calls) st last
  unfolding handle_item
  handle_item-Serves key bad_key items calls st last rest = forgotten (refl, inl refl) rest
  handle_item-Serves key lookup_failed items calls st last rest = forgotten (refl, inl refl) rest
  handle_item-Serves key absent items calls st last rest = forgotten (refl, inl refl) rest
  handle_item-Serves key not_a_pod items calls st last rest = forgotten (refl, inl refl) rest
  handle_item-Serves key (cached pod) items calls st last rest =
      of_outcome key pod items calls st (process_pod s cmd pod st).1 last
        (process_pod s cmd pod st).0 (process_pod-Accounts s cmd pod st) rest

  -- For each key that the queue delivers, in order, the worker calls Forget or AddRateLimited with
  -- that key, and then Done with it. AddRateLimited is called only for a pod, and its run has
  -- counted one failure of it or two, no success, and has not marked it; the run for any other key
  -- has counted no failure, and no success or that of its pod.
  pub do_items-Serves :
      (items : List (Text × Item)) (st : State W)
      → Serves items (do_items s cmd items st).0 st (do_items s cmd items st).1
  unfolding do_items
  do_items-Serves [] st = none_left
  do_items-Serves ((key, item) ∷ items) st =
      handle_item-Serves key item items _ st _
        (do_items-Serves items (handle_item s cmd key item st).1)
