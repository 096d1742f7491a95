-- ===== src/MockWorker/Queue/Drained.antt =====
-- What is left of the work when the calls of `Generate` and the dispatcher have come to their end.
use aether_serve.Base.{ℕ, ◌≡◌, refl, false, true, List, [], ◌∷◌, ok, arith, All, inl, inr}
use aether_serve.Base.Text.{GoString}
use aether_serve.Float.{Float}
use aether_serve.Config.{WorkerConfig}
use aether_serve.MockWorker.{Worker, active_requests, new}
use aether_serve.MockWorker.Queue.{Job, Call, idle, take, System, Reach}
use aether_serve.MockWorker.Queue.Tended.{IsTended, Reach-IsTended}
use aether_serve.MockWorker.Queue.Counted.{has_returned, share, IsLight, generate-IsCounted}
use aether_serve.MockWorker.Queue.Progress.{CanAdvance, can_turn, dispatcher-advance}
use aether_serve.MockWorker.Queue.Returns.{Run, Run-Reach, generate_returns}

module _ {T : Type 0} where
  -- Calls that have returned count nothing.
  returned-nothing :
      (ks : List (Call T))
      → All (λ k. has_returned k.phase ≡ true) ks
      → ((share ks).passing ≡ 0) × ((share ks).passing_work ≡ 0)
  returned-nothing [] h = (refl, refl)
  returned-nothing (k ∷ ks) h =
      let (a, b) = returned-nothing ks h.1 in (ground (arith, a), ground (arith, b))

module _ {F T : Type 0} (digest : GoString → GoString) (capacity : ℕ) where
  -- A dispatcher that cannot go on, and was not stopped, is idle before an empty queue.
  stuck-idle :
      (s : System F T)
      → IsTended s
      → s.shared.stopped ≡ false
      → ¬ CanAdvance digest capacity s
      → (s.shared.queue ≡ []) × (s.shared.dispatcher ≡ idle)
  stuck-idle s v b stuck = elim (dispatcher-advance digest capacity s v s.shared.dispatcher refl) [
    | inr (inr can) ↦ absurd (stuck can)
    | inr (inl e) ↦ absurd (ground (arith, b, v.steady.exited, e))
    | inl e ↦ (empty s.shared.queue refl e, e)
  ]
    where
      empty : (js : List (Job T)) → s.shared.queue ≡ js → s.shared.dispatcher ≡ idle → js ≡ []
      empty [] q e = refl
      empty (j ∷ js) q e = absurd (stuck (can_turn digest capacity s (take e q)))

module _ {F T : Type 0} ⦃fl : Float F⦄ (digest : GoString → GoString) (capacity : ℕ) where
  -- The work drains and no count leaks. From a new worker on, let calls of `Generate`, cancellations and the dispatcher
  -- interleave in any way, and then take steps that need no further request and no cancellation, in any order, until
  -- none is possible. If the worker was not stopped, and the calls are fewer than 2^32 with a work of less than 2^64 in
  -- all, then every call has returned, the queue is empty, the dispatcher is idle, and the worker reports no active
  -- request, no waiting token and no running work.
  pub generate_drains :
      (config : WorkerConfig F) {w : Worker F} {s t : System F T} {n : ℕ}
      → new config ≡ ok w
      → Reach digest capacity w s
      → Run digest capacity s n t
      → IsLight t
      → t.shared.stopped ≡ false
      → ¬ CanAdvance digest capacity t
      → All (λ k. has_returned k.phase ≡ true) t.calls
        × (t.shared.queue ≡ [])
        × (t.shared.dispatcher ≡ idle)
        × (active_requests t.shared.worker ≡ 0)
        × (t.shared.worker.state.waiting_token_count ≡ 0)
        × (t.shared.worker.state.running_work_tokens ≡ 0)
  generate_drains config {t = t} e r run l b stuck =
      let reach = Run-Reach digest capacity r run in
      let over = (generate_returns digest capacity r run).1 stuck in
      let (q, d) = stuck-idle digest capacity t (Reach-IsTended digest capacity reach) b stuck in
      let c = (generate-IsCounted digest capacity config e reach l).0 in
      let (p, work) = returned-nothing t.calls over in
      (
        over,
        q,
        d,
        ground (arith, c, p, work, q, d),
        ground (arith, c, p, work, q, d),
        ground (arith, c, p, work, q, d),
      )
