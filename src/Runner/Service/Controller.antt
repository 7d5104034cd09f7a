-- ===== src/Runner/Service/Controller.antt =====
-- runController: the event handlers, and the order in which the informer, the workers and the queue
-- are started and stopped. The key of a pod is made by the cache package, a parameter.
pub mod Events
pub mod Orderly
use gpuid.Base.{
  ℕ, zero, suc, Bool, true, false, not, List, [], ◌∷◌, ◌++◌, if◌then◌else◌, Option, none, some,
  Text, ℤ, pos, negsuc,
}
use gpuid.Runner.Pod.{Pod, pod_ready}

-- What a handler is given.
pub data Object : Type 0 where
  not_a_pod : Object
  a_pod : Pod → Object

-- What the informer reports. There is no DeleteFunc.
pub data Event : Type 0 where
  added : Object → Event
  updated : Object → Object → Event
  deleted : Object → Event

module _ (key_func : Pod → Option Text) where
  -- enqueueIfReady: the key that q.Add is called with
  unfoldable pub enqueue_if_ready : Object → Option Text
  enqueue_if_ready not_a_pod = none
  enqueue_if_ready (a_pod pod) = if not (pod_ready pod) then none else key_func pod

  unfoldable pub handle_event : Event → Option Text
  handle_event (added obj) = enqueue_if_ready obj
  handle_event (updated old obj) = enqueue_if_ready obj
  handle_event (deleted obj) = none

  -- The calls of q.Add, in order.
  unfoldable pub enqueued : List Event → List Text
  enqueued [] = []
  enqueued (e ∷ events) = elim (handle_event e) [
    | none ↦ enqueued events
    | some key ↦ key ∷ enqueued events
  ]

pub data ControllerError : Type 0 where
  no_logger no_clientset no_config no_command handler_failed sync_failed : ControllerError

-- What the function does, besides logging.
pub data Action : Type 0 where
  add_handler start_informer await_sync await_ctx drain_queue : Action
  stop_informer await_all shut_down_queue : Action
  start_worker : ℕ → Action

-- What the function is given, and what the calls that can fail answer.
pub record Start : Type 0 where
  pub has_logger : Bool
  pub has_clientset : Bool
  pub has_config : Bool
  -- the field Workers of the command, if there is a command
  pub workers : Option ℤ
  pub handler_added : Bool
  pub synced : Bool

-- for i := range n, from the worker i on
unfoldable pub start_workers : ℕ → ℕ → List Action
start_workers i zero = []
start_workers i (suc n) = start_worker i ∷ start_workers (suc i) n

-- the rounds of `range n`: none if n is negative
abbrev pub rounds : ℤ → ℕ
rounds (pos n) = n
rounds (negsuc n) = 0

-- After the sync of the cache.
unfoldable pub run_workers : ℤ → List Action
unfolding start_workers
run_workers workers =
    start_workers 0 (rounds workers)
    ++ await_ctx ∷ drain_queue ∷ stop_informer ∷ await_all ∷ shut_down_queue ∷ []

unfoldable pub after_sync : Bool → ℤ → Option ControllerError × List Action
unfolding run_workers
after_sync synced workers =
    if not synced
    then (some sync_failed, stop_informer ∷ await_all ∷ shut_down_queue ∷ [])
    else (none, run_workers workers)

unfoldable pub after_handler : Start → ℤ → Option ControllerError × List Action
unfolding after_sync
after_handler s workers =
    if not s.handler_added
    then (some handler_failed, add_handler ∷ shut_down_queue ∷ [])
    else let (e, actions) = after_sync s.synced workers in
      (e, add_handler ∷ start_informer ∷ await_sync ∷ actions)

-- runController
unfoldable pub run_controller : Start → Option ControllerError × List Action
unfolding after_handler
run_controller s =
    if not s.has_logger
    then (some no_logger, [])
    else if not s.has_clientset
    then (some no_clientset, [])
    else if not s.has_config
    then (some no_config, [])
    else elim s.workers [ none ↦ (some no_command, []) | some workers ↦ after_handler s workers ]
