-- ===== src/Runner/Service/Controller/Orderly.antt =====
-- The order in which runController starts and stops its parts, as a protocol.
use gpuid.Base.{
  ℕ, zero, suc, ◌+◌, ◌≡◌, inl, inr, refl, ap, ◌∙◌, Bool-cases, arith, Bool, true, false, List, [],
  ◌∷◌, ◌++◌, ◌==◌, ◌&&◌, is_some, if◌then◌else◌, Option, none, some, ℤ,
}
use gpuid.Runner.Service.Controller.{
  Action, no_command, add_handler, start_informer, await_sync, await_ctx, drain_queue,
  stop_informer, await_all, shut_down_queue, start_worker, ControllerError, Start, rounds,
  start_workers, run_workers, after_sync, after_handler, run_controller,
}

-- How far it has come. `working` has the number of workers that run.
pub data Stage : Type 0 where
  fresh handling informing : Stage
  working asked drained : ℕ → Stage
  stopping waited over : ℕ → Stage

-- What may follow: workers are started one after another once the cache is synced; the informer is
-- stopped only with no worker at work that was not asked to stop, after the queue has drained; all
-- are waited for, and the queue is shut down last.
unfoldable pub next : Stage → Action → Option Stage
next fresh add_handler = some handling
next handling start_informer = some informing
next handling shut_down_queue = some (over 0)
next informing await_sync = some (working 0)
next (working zero) stop_informer = some (stopping 0)
next (working n) (start_worker i) = if i == n then some (working (suc n)) else none
next (working n) await_ctx = some (asked n)
next (asked n) drain_queue = some (drained n)
next (drained n) stop_informer = some (stopping n)
next (stopping n) await_all = some (waited n)
next (waited n) shut_down_queue = some (over n)
next _ _ = none

unfoldable pub follow : Stage → List Action → Option Stage
unfolding next
follow stage [] = some stage
follow stage (a ∷ actions) = elim (next stage a) [
  | none ↦ none
  | some stage' ↦ follow stage' actions
]

next-start_worker : (i : ℕ) → next (working i) (start_worker i) ≡ some (working (suc i))
unfolding next
next-start_worker zero = refl
next-start_worker (suc i) = ground arith

next-await_ctx : (n : ℕ) → next (working n) await_ctx ≡ some (asked n)
unfolding next
next-await_ctx zero = refl
next-await_ctx (suc n) = refl

follow-next :
    (stage : Stage) (a : Action) {stage' : Stage} (actions : List Action)
    → next stage a ≡ some stage'
    → follow stage (a ∷ actions) ≡ follow stage' actions
unfolding follow
follow-next stage a actions h = rw (h, follow) refl

follow-workers :
    (i n : ℕ) (rest : List Action)
    → follow (working i) (start_workers i n ++ rest) ≡ follow (working (i + n)) rest
unfolding start_workers
follow-workers i zero rest = ap (λ k. follow (working k) rest) (omega arith)
follow-workers i (suc n) rest =
    follow-next _ _ (start_workers (suc i) n ++ rest) (next-start_worker i)
    ∙ follow-workers (suc i) n rest
    ∙ ap (λ k. follow (working k) rest) (omega arith)

follow-shutdown :
    (n : ℕ)
    → follow
        (working n)
        (await_ctx ∷ drain_queue ∷ stop_informer ∷ await_all ∷ shut_down_queue ∷ [])
      ≡ some (over n)
unfolding follow
follow-shutdown n =
    follow-next (working n) await_ctx
      (drain_queue ∷ stop_informer ∷ await_all ∷ shut_down_queue ∷ []) (next-await_ctx n)

follow-run_workers :
    (workers : ℤ) → follow (working 0) (run_workers workers) ≡ some (over (rounds workers))
unfolding run_workers
follow-run_workers workers =
    let same : 0 + rounds workers ≡ rounds workers = omega arith in
    follow-workers 0 (rounds workers) _
    ∙ follow-shutdown (0 + rounds workers)
    ∙ ap (λ n. some (over n)) same

-- Nothing that the function needs is nil.
abbrev pub is_given : Start → Bool
is_given s = s.has_logger && s.has_clientset && s.has_config && is_some s.workers

-- What runController has done when it returns, and why.
pub data IsOrderly (s : Start) : Option ControllerError × List Action → Type 0 where
  -- something is nil, and nothing was started
  refused : {e : ControllerError} → is_given s ≡ false → IsOrderly s (some e, [])
  -- the handler was not added, and nothing was started
  not_added :
      {e : ControllerError} {actions : List Action}
      → s.handler_added ≡ false
      → follow fresh actions ≡ some (over 0)
      → IsOrderly s (some e, actions)
  -- the cache was not synced, and no worker was started
  not_synced :
      {e : ControllerError} {actions : List Action}
      → s.handler_added ≡ true
      → s.synced ≡ false
      → follow fresh actions ≡ some (over 0)
      → IsOrderly s (some e, actions)
  -- the cache was synced, and the workers of the command were started and waited for
  finished :
      {workers : ℤ} {actions : List Action}
      → is_given s ≡ true
      → s.handler_added ≡ true
      → s.synced ≡ true
      → s.workers ≡ some workers
      → follow fresh actions ≡ some (over (rounds workers))
      → IsOrderly s (none, actions)

after_sync-IsOrderly :
    (s : Start) (workers : ℤ)
    → s.workers ≡ some workers
    → is_given s ≡ true
    → s.handler_added ≡ true
    → (synced : Bool) → s.synced ≡ synced
    → IsOrderly s (
      (after_sync synced workers).0,
      add_handler ∷ start_informer ∷ await_sync ∷ (after_sync synced workers).1,
    )
unfolding after_sync follow
after_sync-IsOrderly s workers h g a false e = not_synced a e refl
after_sync-IsOrderly s workers h g a true e = finished g a e h (follow-run_workers workers)

after_handler-IsOrderly :
    (s : Start) (workers : ℤ)
    → s.workers ≡ some workers
    → is_given s ≡ true
    → IsOrderly s (after_handler s workers)
unfolding after_handler follow
after_handler-IsOrderly s workers h g = elim (Bool-cases s.handler_added) [
  | inr e ↦ simp (e) (not_added e refl)
  | inl e ↦ simp (e) (after_sync-IsOrderly s workers h g e s.synced refl)
]

-- On every path runController keeps to its protocol: workers are started one after another, and
-- only after the cache is synced; after the context is canceled the queue drains before the
-- informer is stopped; all that was started is waited for, and the queue is shut down last. It
-- returns an error, and has started no worker, exactly if something that it is given is nil, the
-- handler is not added, or the cache is not synced; without an error it has started the workers
-- that the command asks for.
pub run_controller-IsOrderly : (s : Start) → IsOrderly s (run_controller s)
unfolding run_controller
run_controller-IsOrderly s = elim (Bool-cases s.has_logger) [
  | inr e ↦ simp (e) (refused (ground arith))
  | inl e ↦ elim (Bool-cases s.has_clientset) [
    | inr e' ↦ simp (e, e') (refused (ground arith))
    | inl e' ↦ elim (Bool-cases s.has_config) [
      | inr e'' ↦ simp (e, e', e'') (refused (ground arith))
      | inl e'' ↦ simp (e, e', e'') (of_workers e e' e'' s.workers refl)
    ]
  ]
]
  where
    of_workers :
        s.has_logger ≡ true
        → s.has_clientset ≡ true
        → s.has_config ≡ true
        → (workers : Option ℤ) → s.workers ≡ workers
        → IsOrderly s (elim workers [ none ↦ (some no_command, []) | some n ↦ after_handler s n ])
    of_workers e e' e'' none h = refused (ground arith)
    of_workers e e' e'' (some n) h = after_handler-IsOrderly s n h (ground arith)
