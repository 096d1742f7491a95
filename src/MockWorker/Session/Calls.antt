-- ===== src/MockWorker/Session/Calls.antt =====
-- One call of a worker, from its message to the entry that the registry keeps.
use aether_serve.Base.{ℕ, ◌+◌, ◌^◌, ◌<◌, ◌≡◌, refl, sym, ◌∙◌, false, some, arith, Result, ok}
use aether_serve.Base.Text.{GoString, str_eq, str_eq_refl}
use aether_serve.Base.Map.{lookup, insert, lookup-insert}
use aether_serve.Float.{Float}
use aether_serve.Clock.{Time}
use aether_serve.Model.{WorkerState, protocol_version}
use aether_serve.Model
use aether_serve.Registry
use aether_serve.Registry.{Registry, register, heartbeat, beat, clone_worker, clone_state}
use aether_serve.Registry.Valid.{StateIsValid, WorkerIsValid, validate_iff, validate_state_iff}
use aether_serve.Wire.{Timestamps}
use aether_serve.Protocol.{state_to_proto, timestamp_from_proto}
use aether_serve.Protocol.RoundTrip.{IsCarried, state_round_trip}
use aether_serve.Gateway.Server.{
  Control, accepted, register_worker, heartbeat_worker, conclude, with_state, model_worker,
  read_state,
}
use aether_serve.MockWorker.{Worker, next_state}
use aether_serve.MockWorker.Session.{registration, heartbeat_of, Moment}
use aether_serve.MockWorker.Session.Ready.{IsFit, next_state-version, next_state-IsValid}

module _ {F : Type 0} where
  -- The entry of the worker in the registry has the given version.
  pub record IsKnownAt (c : Control F) (id : GoString) (n : ℕ) : Type 0 where
    pub entry : Model.Worker F
    pub found : lookup id c.registry.workers ≡ some entry
    pub version : entry.state.status_version ≡ n

module _ {F T : Type 0} ⦃fl : Float F⦄ (ts : Timestamps T) where
  read_state-sent :
      (at : Time) (field : GoString) (s : WorkerState F)
      → StateIsValid s
      → IsCarried ts at
      → IsCarried ts s.observed_at
      → read_state ts (some (ts.from_time at)) field (some (state_to_proto ts s)) ≡ ok s
  unfolding timestamp_from_proto
  read_state-sent at field s v c d = rw (c.valid, state_round_trip ts s v.known d) refl

  register_lem :
      (r : Registry F) (now : Time) (w : Model.Worker F)
      → WorkerIsValid w
      → register r now w ≡ (
        record r {
          workers = insert w.id (record w { last_heartbeat = now; stale = false }) r.workers;
        },
        ok tt,
      )
  unfolding register clone_worker clone_state
  register_lem r now w v = rw ((validate_iff w).1 v, register) refl

  heartbeat_lem :
      (r : Registry F) (now : Time) (id : GoString) (s : WorkerState F) (old : Model.Worker F)
      → StateIsValid s
      → lookup id r.workers ≡ some old
      → old.state.status_version < s.status_version
      → heartbeat r now id s ≡ (
        record r {
          workers =
              insert id (record old { state = s; last_heartbeat = now; stale = false }) r.workers;
        },
        ok tt,
      )
  unfolding heartbeat beat clone_state
  heartbeat_lem r now id s old v q lt =
      rw ((validate_state_iff s).1 v, q, heartbeat) (ground (arith, lt))

  -- A call whose state can be read, and which the registry takes by a write of the worker's entry.
  taken :
      (c : Control F) (now : Time) (read : Result _ (WorkerState F)) (s : WorkerState F)
      (call : WorkerState F → Registry F × Result Registry.Error (Unit {0})) (id : GoString)
      (e : Model.Worker F)
      → read ≡ ok s
      → call s ≡ (record (c.registry) { workers = insert id e c.registry.workers }, ok tt)
      → ((with_state c now read call).1 ≡ accepted)
        × (lookup id (with_state c now read call).0.registry.workers ≡ some e)
  unfolding with_state conclude
  taken c now read s call id e q t =
      rw (q, t) (refl, lookup-insert id id e c.registry.workers ∙ rw (str_eq_refl id) refl)

  pub register_worker-accepted :
      (c : Control F) (t : Moment) (w : Worker F)
      → IsFit w
      → w.state.status_version + 1 < 2 ^ 64
      → IsCarried ts t.stamped
      → IsCarried ts t.observed
      → let (w', state) = next_state w t.observed in
        let out = register_worker ts c t.read (registration ts w' t.stamped state) in
        (out.1 ≡ accepted) × IsKnownAt out.0 w.config.id w'.state.status_version
  unfolding register_worker next_state clone_state model_worker str_eq
  register_worker-accepted c t w v b ss oo =
      let s = (next_state w t.observed).1 in
      let w' = (next_state w t.observed).0 in
      let valid = next_state-IsValid w t.observed v b in
      let (n, m) = next_state-version w t.observed b in
      let sent = registration ts w' t.stamped s in
      let x : Model.Worker F = model_worker sent s in
      let fit : WorkerIsValid x = record {
        identity = v.identity;
        address = v.address;
        model = v.model;
        protocol = refl;
        state = valid;
      } in
      let (a, f) =
        taken c t.read _ s (λ state. register c.registry t.read (model_worker sent state))
          w.config.id (record x { last_heartbeat = t.read; stale = false })
          (read_state-sent t.stamped _ s valid ss oo) (register_lem c.registry t.read x fit) in
      (a, record { entry = _; found = f; version = n ∙ sym m })

  pub heartbeat_worker-accepted :
      (c : Control F) (t : Moment) (w : Worker F)
      → IsFit w
      → w.state.status_version + 1 < 2 ^ 64
      → IsCarried ts t.stamped
      → IsCarried ts t.observed
      → IsKnownAt c w.config.id w.state.status_version
      → let (w', state) = next_state w t.observed in
        let out = heartbeat_worker ts c t.read (heartbeat_of ts w' t.stamped state) in
        (out.1 ≡ accepted) × IsKnownAt out.0 w.config.id w'.state.status_version
  unfolding heartbeat_worker next_state clone_state str_eq
  heartbeat_worker-accepted c t w v b ss oo known =
      let s = (next_state w t.observed).1 in
      let w' = (next_state w t.observed).0 in
      let valid = next_state-IsValid w t.observed v b in
      let (n, m) = next_state-version w t.observed b in
      let (a, f) =
        taken c t.read _ s (heartbeat c.registry t.read w.config.id) w.config.id
          (record (known.entry) { state = s; last_heartbeat = t.read; stale = false })
          (read_state-sent t.stamped _ s valid ss oo)
          (heartbeat_lem c.registry t.read w.config.id s known.entry valid known.found
            (omega (arith, known.version, n))) in
      (a, record { entry = _; found = f; version = n ∙ sym m })
