-- ===== src/Runner/Service/Controller/Events.antt =====
-- Which keys reach the queue.
use gpuid.Base.{
  ◌≡◌, ◌↔◌, inl, inr, refl, subst, arith, List, [], ◌∷◌, Option, none, some, Text, Any,
}
use gpuid.Runner.Pod.{Pod, IsReady, pod_ready_iff}
use gpuid.Runner.Service.Controller.{
  Event, added, updated, deleted, a_pod, not_a_pod, enqueue_if_ready, handle_event, enqueued,
}

-- The pod that an event shows as it is now, if it shows one.
abbrev pub shown : Event → Option Pod
shown (added (a_pod pod)) = some pod
shown (updated old (a_pod pod)) = some pod
shown _ = none

module _ (key_func : Pod → Option Text) (key : Text) where
  -- The event shows a ready pod with the key.
  abbrev pub Announces : Event → Type 0
  Announces e = (pod : Pod) × (shown e ≡ some pod) × IsReady pod × (key_func pod ≡ some key)

  enqueue_if_ready_iff :
      (pod : Pod)
      → (enqueue_if_ready key_func (a_pod pod) ≡ some key)
        ↔ (IsReady pod × (key_func pod ≡ some key))
  unfolding enqueue_if_ready
  enqueue_if_ready_iff pod = (
    λ h. ((pod_ready_iff pod).0 (ground arith), ground arith),
    λ h. ground (arith, (pod_ready_iff pod).1 h.0),
  )

  shows :
      (pod : Pod)
      → (enqueue_if_ready key_func (a_pod pod) ≡ some key)
        ↔ ((p : Pod) × (some pod ≡ some p) × IsReady p × (key_func p ≡ some key))
  shows pod = (
    λ h. let (r, k) = (enqueue_if_ready_iff pod).0 h in (pod, refl, r, k),
    λ h.
        (enqueue_if_ready_iff pod).1
          (subst (λ q. IsReady q × (key_func q ≡ some key)) (cc (h.1)) (h.2, h.3)),
  )

  announced : (e : Event) → (handle_event key_func e ≡ some key) ↔ Announces e
  unfolding handle_event enqueue_if_ready
  announced (added not_a_pod) = (λ h. cc, λ h. cc (h.1))
  announced (added (a_pod pod)) = shows pod
  announced (updated old not_a_pod) = (λ h. cc, λ h. cc (h.1))
  announced (updated old (a_pod pod)) = shows pod
  announced (deleted obj) = (λ h. cc, λ h. cc (h.1))

  skipped : (e : Event) → handle_event key_func e ≡ none → Announces e → ⊥
  skipped e h a = cc ((announced e).1 a)

  by_key :
      (e : Event) (events : List Event) (k : Option Text)
      → handle_event key_func e ≡ k
      → (Any (λ k. k ≡ key) (enqueued key_func events) ↔ Any Announces events)
      → Any (λ k. k ≡ key) (enqueued key_func (e ∷ events)) ↔ Any Announces (e ∷ events)
  unfolding enqueued
  by_key e events none h rest =
      rw (h, Any, enqueued)
        (λ m. inr (rest.0 m), λ m. elim m [ inl a ↦ absurd (skipped e h a) | inr m ↦ rest.1 m ])
  by_key e events (some k) h rest =
      rw (h, Any, enqueued)
        (
          λ m. elim m [ inl q ↦ inl ((announced e).0 (cc (h, q))) | inr m ↦ inr (rest.0 m) ],
          λ m. elim m [ inl a ↦ inl (cc (h, (announced e).1 a)) | inr m ↦ inr (rest.1 m) ],
        )

  -- A key is added to the queue exactly if some event shows a ready pod with that key: pods that
  -- are not ready, deleted pods and other objects add none.
  pub enqueued_iff :
      (events : List Event) → Any (λ k. k ≡ key) (enqueued key_func events) ↔ Any Announces events
  unfolding enqueued
  enqueued_iff [] = (λ h. h, λ h. h)
  enqueued_iff (e ∷ events) = by_key e events (handle_event key_func e) refl (enqueued_iff events)
