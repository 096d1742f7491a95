-- ===== src/Gateway/Server/Replies.antt =====
-- The replies of the control plane, and the calls that it refuses.
use aether_serve.Base.{
  ◌≡◌, ◌≢◌, refl, ap, Bool-cases, ltb, Option-cases, inl, inr, Result, Result-cases, ok, err, arith,
}
use aether_serve.Base.Map.{lookup}
use aether_serve.Base.Text.{GoString, str_eq}
use aether_serve.Float.{Float}
use aether_serve.Clock.{Time}
use aether_serve.Model.{WorkerState, Worker, protocol_version}
use aether_serve.Registry
use aether_serve.Registry.{
  Registry, validate, validate_state, register, heartbeat, beat, healthy_count, clone_worker,
  clone_state,
}
use aether_serve.Protocol
use aether_serve.Wire
use aether_serve.Wire.{Timestamps}
use aether_serve.Gateway.Server.{
  Control, accepted, with_state, conclude, register_worker, heartbeat_worker,
}

module _ {F : Type 0} where
  conclude-unchanged :
      (c : Control F) (now : Time) (out : Registry F × Result Registry.Error (Unit {0}))
      → (out.1 ≢ ok tt → out.0 ≡ c.registry)
      → (conclude c now out).1 ≢ accepted
      → (conclude c now out).0 ≡ c
  unfolding conclude
  conclude-unchanged c now (g, err e) h n =
      ap (λ (r : Registry F). record c { registry = r }) (h (λ q. cc))
  conclude-unchanged c now (g, ok _) h n = absurd (n refl)

  with_state-unchanged :
      (c : Control F) (now : Time) (state : Result Protocol.Error (WorkerState F))
      (call : WorkerState F → Registry F × Result Registry.Error (Unit {0}))
      → ((s : WorkerState F) → (call s).1 ≢ ok tt → (call s).0 ≡ c.registry)
      → (with_state c now state call).1 ≢ accepted
      → (with_state c now state call).0 ≡ c
  unfolding with_state
  with_state-unchanged c now (err e) call h n = refl
  with_state-unchanged c now (ok s) call h n = conclude-unchanged c now (call s) (h s) n

  conclude-accepted :
      (c : Control F) (now : Time) (out : Registry F × Result Registry.Error (Unit {0}))
      → (conclude c now out).1 ≡ accepted
      → (out.1 ≡ ok tt) × ((conclude c now out).0.registry ≡ out.0)
  unfolding conclude
  conclude-accepted c now (g, err e) q = absurd (cc)
  conclude-accepted c now (g, ok tt) q = (refl, refl)

  conclude-done :
      (c : Control F) (now : Time) (out : Registry F × Result Registry.Error (Unit {0}))
      → out.1 ≡ ok tt
      → (conclude c now out).1 ≡ accepted
  unfolding conclude
  conclude-done c now (g, err e) q = absurd (cc)
  conclude-done c now (g, ok tt) q = refl

  pub with_state-accepted :
      (c : Control F) (now : Time) (state : Result Protocol.Error (WorkerState F))
      (call : WorkerState F → Registry F × Result Registry.Error (Unit {0}))
      → (with_state c now state call).1 ≡ accepted
      → (s : WorkerState F) × (state ≡ ok s)
        × ((call s).1 ≡ ok tt)
        × ((with_state c now state call).0.registry ≡ (call s).0)
  unfolding with_state
  with_state-accepted c now (err e) call q = absurd (cc)
  with_state-accepted c now (ok s) call q =
      let (done, same) = conclude-accepted c now (call s) q in (s, refl, done, same)

  pub with_state-done :
      (c : Control F) (now : Time) (state : Result Protocol.Error (WorkerState F))
      (s : WorkerState F) (call : WorkerState F → Registry F × Result Registry.Error (Unit {0}))
      → state ≡ ok s
      → (call s).1 ≡ ok tt
      → (with_state c now state call).1 ≡ accepted
  unfolding with_state
  with_state-done c now state s call e done = rw e (conclude-done c now (call s) done)

module _ {F T : Type 0} ⦃fl : Float F⦄ (ts : Timestamps T) where
  register-unchanged :
      (r : Registry F) (now : Time) (w : Worker F)
      → (register r now w).1 ≢ ok tt
      → (register r now w).0 ≡ r
  unfolding register
  register-unchanged r now w n = elim (Result-cases (validate w)) [
    | inl (u, q) ↦ absurd (n (ground (arith, q)))
    | inr (e, q) ↦ ground (arith, q)
  ]

  beat-unchanged :
      (r : Registry F) (now : Time) (id : GoString) (s : WorkerState F) (w : Worker F)
      → (beat r now id s w).1 ≢ ok tt
      → (beat r now id s w).0 ≡ r
  unfolding beat
  beat-unchanged r now id s w n = elim (Bool-cases (ltb w.state.status_version s.status_version)) [
    | inl q ↦ absurd (n (rw q refl))
    | inr q ↦ rw q refl
  ]

  heartbeat-unchanged :
      (r : Registry F) (now : Time) (id : GoString) (s : WorkerState F)
      → (heartbeat r now id s).1 ≢ ok tt
      → (heartbeat r now id s).0 ≡ r
  unfolding heartbeat
  heartbeat-unchanged r now id s n = elim (Result-cases (validate_state s)) [
    | inr (e, q) ↦ ground (arith, q)
    | inl (u, q) ↦ elim (Option-cases (lookup id r.workers)) [
      | inl p ↦ ground (arith, q, p)
      | inr (w, p) ↦
          let same : heartbeat r now id s ≡ beat r now id s w = ground (arith, q, p) in
          rw same (beat-unchanged r now id s w (rw same at n))
    ]
  ]

  -- A registration or a heartbeat that is not accepted, for whatever reason, leaves the registry and the
  -- readiness as they were.
  pub refused-unchanged :
      (c : Control F) (now : Time) (registration : Wire.RegisterWorkerRequest F T)
      (beat : Wire.HeartbeatRequest F T)
      → ((register_worker ts c now registration).1 ≢ accepted
          → (register_worker ts c now registration).0 ≡ c)
        × ((heartbeat_worker ts c now beat).1 ≢ accepted → (heartbeat_worker ts c now beat).0 ≡ c)
  unfolding register_worker heartbeat_worker
  refused-unchanged c now registration beat = (
    λ n. elim (Bool-cases (str_eq registration.protocol_version protocol_version)) [
      | inr q ↦ rw q refl
      | inl q ↦
          rw q
            (with_state-unchanged c now _ _ (λ s. register-unchanged c.registry now _) (rw q at n))
    ],
    λ n. elim (Bool-cases (str_eq beat.protocol_version protocol_version)) [
      | inr q ↦ rw q refl
      | inl q ↦ rw q (
          with_state-unchanged c now _ _ (λ s. heartbeat-unchanged c.registry now beat.worker_id s)
            (rw q at n))
    ],
  )
