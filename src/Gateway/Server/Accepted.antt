-- ===== src/Gateway/Server/Accepted.antt =====
-- The calls of the control plane that are accepted, and what they write.
use aether_serve.Base.{
  ◌≡◌, ◌∙◌, ◌≢◌, ap, Bool-cases, false, some, ◌<◌, if◌then◌else◌, inl, inr, Result-cases, ok, arith,
}
use aether_serve.Base.Map.{lookup, lookup-insert}
use aether_serve.Base.Text.{GoString, str, str_eq, str_eq_iff}
use aether_serve.Float.{Float}
use aether_serve.Clock.{Time}
use aether_serve.Model.{WorkerState, Worker, protocol_version}
use aether_serve.Registry.{
  Registry, validate, validate_state, register, heartbeat, beat, clone_worker, clone_state,
}
use aether_serve.Registry.Versions.{heartbeat_accepted}
use aether_serve.Wire
use aether_serve.Wire.{Timestamps}
use aether_serve.Gateway.Server.{
  Control, accepted, model_worker, read_state, register_worker, heartbeat_worker,
}
use aether_serve.Gateway.Server.Replies.{refused-unchanged, with_state-accepted, with_state-done}

-- The registry of `after` is that of `before` but for one entry.
abbrev pub IsWritten : {F : Type 0} → GoString → Worker F → Registry F → Registry F → Type 0
IsWritten id w before after =
    (k : GoString)
    → lookup k after.workers ≡ (if str_eq id k then some w else lookup k before.workers)

module _ {F T : Type 0} ⦃fl : Float F⦄ (ts : Timestamps T) where
  register-accepted :
      (r : Registry F) (now : Time) (w : Worker F)
      → (register r now w).1 ≡ ok tt
      → (validate w ≡ ok tt)
        × IsWritten w.id (record w { last_heartbeat = now; stale = false }) r (register r now w).0
  unfolding register clone_worker clone_state
  register-accepted r now w q = elim (Result-cases (validate w)) [
    | inl (tt, e) ↦ (
      e,
      λ k. ground (
        arith,
        e,
        lookup-insert w.id k (record w { last_heartbeat = now; stale = false }) r.workers,
      ),
    )
    | inr (x, e) ↦ absurd (ground (arith, e, q))
  ]

  -- What an accepted registration says of its request and of the registry after it.
  abbrev pub IsRegistered : Control F → Time → Wire.RegisterWorkerRequest F T → Registry F → Type 0
  IsRegistered c now request after =
      (request.protocol_version ≡ protocol_version)
      × (s : WorkerState F) × (read_state ts request.registered_at (str "registration timestamp")
            request.initial_state
          ≡ ok s)
      × (validate (model_worker request s) ≡ ok tt)
      × IsWritten request.worker_id
          (record (model_worker request s) { last_heartbeat = now; stale = false }) c.registry after

  -- The same of an accepted heartbeat.
  abbrev pub IsRenewed : Control F → Time → Wire.HeartbeatRequest F T → Registry F → Type 0
  IsRenewed c now request after =
      (request.protocol_version ≡ protocol_version)
      × (s : WorkerState F) × (read_state ts request.worker_timestamp (str "heartbeat timestamp")
            request.state
          ≡ ok s)
      × (validate_state s ≡ ok tt)
      × (old : Worker F) × (lookup request.worker_id c.registry.workers ≡ some old)
      × (old.state.status_version < s.status_version)
      × IsWritten request.worker_id (record old { state = s; last_heartbeat = now; stale = false })
          c.registry after

  register-done :
      (r : Registry F) (now : Time) (w : Worker F)
      → validate w ≡ ok tt
      → (register r now w).1 ≡ ok tt
  unfolding register
  register-done r now w valid = ground (arith, valid)

  heartbeat-done :
      (r : Registry F) (now : Time) (id : GoString) (s : WorkerState F) (old : Worker F)
      → validate_state s ≡ ok tt
      → lookup id r.workers ≡ some old
      → old.state.status_version < s.status_version
      → (heartbeat r now id s).1 ≡ ok tt
  unfolding heartbeat beat
  heartbeat-done r now id s old valid found higher = ground (arith, valid, found, higher)

  -- A registration that can be accepted.
  abbrev pub IsRegistrable : Wire.RegisterWorkerRequest F T → Type 0
  IsRegistrable request =
      (request.protocol_version ≡ protocol_version)
      × (s : WorkerState F) × (read_state ts request.registered_at (str "registration timestamp")
            request.initial_state
          ≡ ok s)
      × (validate (model_worker request s) ≡ ok tt)

  -- A heartbeat that can be accepted.
  abbrev pub IsRenewable : Control F → Wire.HeartbeatRequest F T → Type 0
  IsRenewable c request =
      (request.protocol_version ≡ protocol_version)
      × (s : WorkerState F) × (read_state ts request.worker_timestamp (str "heartbeat timestamp")
            request.state
          ≡ ok s)
      × (validate_state s ≡ ok tt)
      × (old : Worker F) × (lookup request.worker_id c.registry.workers ≡ some old)
      × (old.state.status_version < s.status_version)

  registrable-accepted :
      (c : Control F) (now : Time) (request : Wire.RegisterWorkerRequest F T)
      → IsRegistrable request
      → (register_worker ts c now request).1 ≡ accepted
  unfolding register_worker
  registrable-accepted c now request (p, s, e, valid) =
      rw ((str_eq_iff request.protocol_version protocol_version).1 p) (
        with_state-done c now _ s _ e (register-done c.registry now (model_worker request s) valid))

  renewable-accepted :
      (c : Control F) (now : Time) (request : Wire.HeartbeatRequest F T)
      → IsRenewable c request
      → (heartbeat_worker ts c now request).1 ≡ accepted
  unfolding heartbeat_worker
  renewable-accepted c now request (p, s, e, valid, old, found, higher) =
      rw ((str_eq_iff request.protocol_version protocol_version).1 p) (
        with_state-done c now _ s _ e
          (heartbeat-done c.registry now request.worker_id s old valid found higher))

  heartbeat-valid :
      (r : Registry F) (now : Time) (id : GoString) (s : WorkerState F)
      → (heartbeat r now id s).1 ≡ ok tt
      → validate_state s ≡ ok tt
  unfolding heartbeat
  heartbeat-valid r now id s q = elim (Result-cases (validate_state s)) [
    | inl (tt, e) ↦ e
    | inr (x, e) ↦ absurd (ground (arith, e, q))
  ]

  register_worker-accepted :
      (c : Control F) (now : Time) (request : Wire.RegisterWorkerRequest F T)
      → (register_worker ts c now request).1 ≡ accepted
      → IsRegistered c now request (register_worker ts c now request).0.registry
  unfolding register_worker model_worker
  register_worker-accepted c now request q =
      elim (Bool-cases (str_eq request.protocol_version protocol_version)) [
        | inr p ↦ absurd (ground (arith, p, q))
        | inl p ↦
            let (s, e, done, same) = with_state-accepted c now _ _ (rw p at q) in
            let (valid, entries) = register-accepted c.registry now (model_worker request s) done in
            (
              (str_eq_iff request.protocol_version protocol_version).0 p,
              s,
              e,
              valid,
              λ k. rw p (ap (λ (g : Registry F). lookup k g.workers) same ∙ entries k),
            )
      ]

  heartbeat_worker-accepted :
      (c : Control F) (now : Time) (request : Wire.HeartbeatRequest F T)
      → (heartbeat_worker ts c now request).1 ≡ accepted
      → IsRenewed c now request (heartbeat_worker ts c now request).0.registry
  unfolding heartbeat_worker
  heartbeat_worker-accepted c now request q =
      elim (Bool-cases (str_eq request.protocol_version protocol_version)) [
        | inr p ↦ absurd (ground (arith, p, q))
        | inl p ↦
            let (s, e, done, same) = with_state-accepted c now _ _ (rw p at q) in
            let (old, found, higher, entries) =
              heartbeat_accepted c.registry now request.worker_id s done in
            (
              (str_eq_iff request.protocol_version protocol_version).0 p,
              s,
              e,
              heartbeat-valid c.registry now request.worker_id s done,
              old,
              found,
              higher,
              λ k. rw p (ap (λ (g : Registry F). lookup k g.workers) same ∙ entries k),
            )
      ]

  -- A registration is accepted exactly if its request has the supported protocol version, its time and state can be read
  -- and its worker is valid; then the registry holds that worker under its identifier, fresh, with the time of the call,
  -- and every other entry as before. A heartbeat is accepted exactly if its request has the supported version, its time and
  -- state can be read, the state is valid, and its worker is registered with a lower status version; then the registry
  -- holds that worker with the new state and the time of the call, fresh, and every other entry as before. A call that is
  -- not accepted leaves the registry and the readiness as they were.
  pub control_accepted :
      (c : Control F) (now : Time) (registration : Wire.RegisterWorkerRequest F T)
      (beat : Wire.HeartbeatRequest F T)
      → (IsRegistrable registration → (register_worker ts c now registration).1 ≡ accepted)
        × ((register_worker ts c now registration).1 ≡ accepted
            → IsRegistered c now registration (register_worker ts c now registration).0.registry)
        × ((register_worker ts c now registration).1 ≢ accepted
            → (register_worker ts c now registration).0 ≡ c)
        × (IsRenewable c beat → (heartbeat_worker ts c now beat).1 ≡ accepted)
        × ((heartbeat_worker ts c now beat).1 ≡ accepted
            → IsRenewed c now beat (heartbeat_worker ts c now beat).0.registry)
        × ((heartbeat_worker ts c now beat).1 ≢ accepted → (heartbeat_worker ts c now beat).0 ≡ c)
  control_accepted c now registration beat =
      let (a, b) = refused-unchanged ts c now registration beat in
      (
        registrable-accepted c now registration,
        register_worker-accepted c now registration,
        a,
        renewable-accepted c now beat,
        heartbeat_worker-accepted c now beat,
        b,
      )
