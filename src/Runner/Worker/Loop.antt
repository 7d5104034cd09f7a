-- ===== src/Runner/Worker/Loop.antt =====
-- do: one item of the queue after another.
pub mod Counts
pub mod Queue
use gpuid.Base.{◌≡◌, refl, ap₂, Bool, true, false, List, [], ◌∷◌, Text, if◌then◌else◌}
use gpuid.Runner.Pod.{Pod}
use gpuid.Runner.Worker.Process.{Services, Settings, State, Outcome, transient, process_pod}

-- What the key and the indexer give for it.
pub data Item : Type 0 where
  bad_key lookup_failed absent not_a_pod : Item
  cached : Pod → Item

-- The calls on the work queue.
pub data QueueCall : Type 0 where
  forget add_rate_limited done : Text → QueueCall

-- isTransient
abbrev pub is_transient : Outcome → Bool
is_transient (transient e) = true
is_transient _ = false

module _ {W : Type 0} (s : Services W) (cmd : Settings) where
  -- The body without its deferred call.
  unfoldable pub handle_item : Text → Item → State W → QueueCall × State W
  handle_item key bad_key st = (forget key, st)
  handle_item key lookup_failed st = (forget key, st)
  handle_item key absent st = (forget key, st)
  handle_item key not_a_pod st = (forget key, st)
  handle_item key (cached pod) st =
      let (o, st') = process_pod s cmd pod st in
      (if is_transient o then add_rate_limited key else forget key, st')

  -- The items that Get returns before the queue is shut down, and the calls that are made.
  unfoldable pub do_items : List (Text × Item) → State W → List QueueCall × State W
  do_items [] st = ([], st)
  do_items ((key, item) ∷ items) st =
      let (call, st') = handle_item key item st in
      let (calls, st'') = do_items items st' in (call ∷ done key ∷ calls, st'')
