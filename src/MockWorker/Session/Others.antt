-- ===== src/MockWorker/Session/Others.antt =====
-- What other workers' calls leave of a worker's entry.
use aether_serve.Base.{
  ℕ, if_both, ◌≡◌, refl, ◌∙◌, inl, inr, false, not, Bool-cases, Option-cases, Result, Result-cases,
  ok, err, ltb,
}
use aether_serve.Base.Text.{GoString, str_eq}
use aether_serve.Base.Map.{lookup, insert, lookup-insert}
use aether_serve.Float.{Float}
use aether_serve.Clock.{Time}
use aether_serve.Model.{WorkerState, Worker, protocol_version}
use aether_serve.Registry
use aether_serve.Registry.{
  Registry, register, heartbeat, beat, clone_worker, clone_state, validate, validate_state,
}
use aether_serve.Wire.{Timestamps}
use aether_serve.Protocol
use aether_serve.Gateway.Server.{
  Control, Reply, register_worker, heartbeat_worker, conclude, with_state, model_worker,
}
use aether_serve.MockWorker.Session.{ForeignCall, registers, beats, caller, serve_foreign}
use aether_serve.MockWorker.Session.Calls.{IsKnownAt}

module _ {F : Type 0} (id : GoString) where
  insert-other :
      (k : GoString) (w : Worker F) (r : Registry F)
      → str_eq k id ≡ false
      → lookup id (insert k w r.workers) ≡ lookup id r.workers
  insert-other k w r d = lookup-insert k id w r.workers ∙ rw d refl

module _ {F : Type 0} ⦃fl : Float F⦄ (id : GoString) where
  register-other :
      (r : Registry F) (now : Time) (w : Worker F)
      → str_eq w.id id ≡ false
      → lookup id (register r now w).0.workers ≡ lookup id r.workers
  unfolding register clone_worker
  register-other r now w d = elim (Result-cases (validate w)) [
    | inl (a, e) ↦ rw (e, register) (insert-other id w.id _ r d)
    | inr (x, e) ↦ rw (e, register) refl
  ]

  beat-other :
      (r : Registry F) (now : Time) (k : GoString) (s : WorkerState F) (w : Worker F)
      → str_eq k id ≡ false
      → lookup id (beat r now k s w).0.workers ≡ lookup id r.workers
  unfolding beat
  beat-other r now k s w d = elim (Bool-cases (not (ltb w.state.status_version s.status_version))) [
    | inl e ↦ rw e refl
    | inr e ↦ rw e (insert-other id k _ r d)
  ]

  heartbeat-other :
      (r : Registry F) (now : Time) (k : GoString) (s : WorkerState F)
      → str_eq k id ≡ false
      → lookup id (heartbeat r now k s).0.workers ≡ lookup id r.workers
  unfolding heartbeat
  heartbeat-other r now k s d = elim (Result-cases (validate_state s)) [
    | inr (x, e) ↦ rw (e, heartbeat) refl
    | inl (a, e) ↦ elim (Option-cases (lookup k r.workers)) [
      | inl q ↦ rw (e, q, heartbeat) refl
      | inr (w, q) ↦ rw (e, q, heartbeat) (beat-other r now k s w d)
    ]
  ]

module _ {F : Type 0} (id : GoString) where
  conclude-workers :
      (c : Control F) (now : Time) (out : Registry F × Result Registry.Error (Unit {0}))
      → (conclude c now out).0.registry ≡ out.0
  unfolding conclude
  conclude-workers c now (g, err e) = refl
  conclude-workers c now (g, ok a) = refl

  with_state-other :
      (c : Control F) (now : Time) (read : Result Protocol.Error (WorkerState F))
      (call : WorkerState F → Registry F × Result Registry.Error (Unit {0}))
      → ((s : WorkerState F) → lookup id (call s).0.workers ≡ lookup id c.registry.workers)
      → lookup id (with_state c now read call).0.registry.workers ≡ lookup id c.registry.workers
  unfolding with_state
  with_state-other c now (err e) call h = refl
  with_state-other c now (ok s) call h = rw (conclude-workers c now (call s)) (h s)

module _ {F T : Type 0} ⦃fl : Float F⦄ (ts : Timestamps T) where
  serve_foreign-other :
      (c : Control F) (x : ForeignCall F T) (id : GoString)
      → str_eq (caller x) id ≡ false
      → lookup id (serve_foreign ts c x).registry.workers ≡ lookup id c.registry.workers
  unfolding serve_foreign register_worker heartbeat_worker model_worker
  serve_foreign-other c (registers now r) id d =
      if_both
        (λ (out : Control F × Reply).
          lookup id out.0.registry.workers ≡ lookup id c.registry.workers)
        (not (str_eq r.protocol_version protocol_version)) _ _ refl
        (with_state-other id c now _ _ (λ s. register-other id c.registry now (model_worker r s) d))
  serve_foreign-other c (beats now r) id d =
      if_both
        (λ (out : Control F × Reply).
          lookup id out.0.registry.workers ≡ lookup id c.registry.workers)
        (not (str_eq r.protocol_version protocol_version)) _ _ refl
        (with_state-other id c now _ _ (λ s. heartbeat-other id c.registry now r.worker_id s d))

  pub serve_foreign-IsKnownAt :
      (c : Control F) (x : ForeignCall F T) (id : GoString) (n : ℕ)
      → str_eq (caller x) id ≡ false
      → IsKnownAt c id n
      → IsKnownAt (serve_foreign ts c x) id n
  serve_foreign-IsKnownAt c x id n d k = record {
    entry = k.entry;
    found = serve_foreign-other c x id d ∙ k.found;
    version = k.version;
  }
