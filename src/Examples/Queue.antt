-- ===== src/Examples/Queue.antt =====
-- A worker on a queue that drains two keys.
use gpuid.Base.{
  ◌<◌, ◌≡◌, arith, List, [], ◌∷◌, length, Option, none, some, Text, codes, text_eq, if◌then◌else◌,
}
use gpuid.Runner.Worker.Loop.{absent, cached}
use gpuid.Runner.Worker.Loop.Queue.{Queue, Drains, Returns, do_worker_ends}
use gpuid.Examples.Runner.{services, settings, pod, idle}

-- The keys that wait; the shutdown has begun, so that nothing is added.
abbrev get : List Text → Option Text × List Text
get [] = (none, [])
get (key ∷ keys) = (some key, keys)

abbrev queue : Queue (List Text)
queue = record {
  get = get;
  call = λ c keys. keys;
  item_of = λ key keys. if text_eq key (codes "b") then cached pod else absent;
}

get-takes :
    (keys : List Text) (key : Text) → (get keys).0 ≡ some key → length (get keys).1 < length keys
get-takes [] key h = cc h
get-takes (k ∷ keys) key h = omega arith

drains : Drains queue
drains = record { waiting = length; get_takes = get-takes; call_adds_none = λ c keys. omega arith }

do_worker_ends_example : Returns services settings queue 3 (codes "a" ∷ codes "b" ∷ []) idle 2
unfolding drains
do_worker_ends_example =
    do_worker_ends services settings queue drains (codes "a" ∷ codes "b" ∷ []) idle
