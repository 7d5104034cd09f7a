-- ===== src/Examples/Controller.antt =====
-- Events of a ready pod and of one that is pending, and a start with two workers.
use gpuid.Base.{◌≡◌, ◌↔◌, refl, true, List, [], ◌∷◌, some, Text, Any, codes, pos, Option}
use gpuid.Runner.Pod.{Pod, pending, pod_ready, all_ready}
use gpuid.Runner.Service.Controller.{
  Event, added, updated, deleted, a_pod, enqueued, handle_event, enqueue_if_ready, Start,
  run_controller,
}
use gpuid.Runner.Service.Controller.Events.{Announces, enqueued_iff}
use gpuid.Runner.Service.Controller.Orderly.{IsOrderly, run_controller-IsOrderly}
use gpuid.Examples.Runner.{pod}

abbrev key_func : Pod → Option Text
key_func p = some p.name

abbrev events : List Event
events =
    added (a_pod (record pod { phase = pending }))
    ∷ updated (a_pod pod) (a_pod pod)
    ∷ deleted (a_pod pod)
    ∷ []

enqueued_test : enqueued key_func events ≡ codes "plugin-x" ∷ []
unfolding enqueued handle_event enqueue_if_ready pod_ready all_ready
enqueued_test = refl

enqueued_iff_example :
    Any (λ k. k ≡ codes "plugin-x") (enqueued key_func events)
    ↔ Any (Announces key_func (codes "plugin-x")) events
enqueued_iff_example = enqueued_iff key_func (codes "plugin-x") events

abbrev two_workers : Start
two_workers = record {
  has_logger = true;
  has_clientset = true;
  has_config = true;
  workers = some (pos 2);
  handler_added = true;
  synced = true;
}

run_controller-IsOrderly_example : IsOrderly two_workers (run_controller two_workers)
run_controller-IsOrderly_example = run_controller-IsOrderly two_workers
