-- ===== src/MockWorker/Session.antt =====
-- internal/mockworker/worker.go: `registerAndHeartbeat`, the messages of a worker to the router, over the router's
-- handlers. The dialling, and what the transport loses, are left out.
pub mod Entries
pub mod Ready
pub mod Calls
pub mod Others
pub mod Accepted
use aether_serve.Base.{ℕ, Option, none, some, List, [], ◌∷◌, if◌then◌else◌}
use aether_serve.Base.Text.{GoString, is_empty, str}
use aether_serve.Float.{Float}
use aether_serve.Clock.{Time}
use aether_serve.Model.{PrefixFingerprint, WorkerState, protocol_version}
use aether_serve.Wire
use aether_serve.Wire.{Timestamps}
use aether_serve.Protocol.{state_to_proto}
use aether_serve.Gateway.Server.{Control, Reply, accepted, register_worker, heartbeat_worker}
use aether_serve.MockWorker.{
  Worker, add_waiting, remove_waiting, move_to_running, finish_running, add_prefixes, next_state,
}

-- The address that `Start` settles on, from that of its listener.
unfoldable pub start : {F : Type 0} → Worker F → GoString → Worker F
start w listener = record w {
  data_address =
      if is_empty w.config.advertised_address then listener else w.config.advertised_address;
}

module _ {F T : Type 0} (ts : Timestamps T) where
  abbrev pub registration : Worker F → Time → WorkerState F → Wire.RegisterWorkerRequest F T
  registration w at state = record {
    protocol_version = protocol_version;
    worker_id = w.config.id;
    data_address = w.data_address;
    model = w.config.model;
    registered_at = some (ts.from_time at);
    initial_state = some (state_to_proto ts state);
  }

  abbrev pub heartbeat_of : Worker F → Time → WorkerState F → Wire.HeartbeatRequest F T
  heartbeat_of w at state = record {
    protocol_version = protocol_version;
    worker_id = w.config.id;
    worker_timestamp = some (ts.from_time at);
    state = some (state_to_proto ts state);
  }

-- What the worker's other goroutines do to its state.
pub data Change : Type 0 where
  adds_waiting removes_waiting moves_to_running finishes_running : ℕ → Change
  adds_prefixes : List PrefixFingerprint → Change

unfoldable pub change : {F : Type 0} → Worker F → Change → Worker F
change w (adds_waiting work) = add_waiting w work
change w (removes_waiting work) = remove_waiting w work
change w (moves_to_running work) = move_to_running w work
change w (finishes_running work) = finish_running w work
change w (adds_prefixes ps) = add_prefixes w ps

-- The clock of a call: when the worker stamps it, when it observes its state, and when the router reads it.
pub record Moment : Type 0 where
  pub stamped : Time
  pub observed : Time
  pub read : Time

-- A call of another worker on the router's control plane, with the time at which the router serves it.
pub data ForeignCall (F T : Type 0) : Type 0 where
  registers : Time → Wire.RegisterWorkerRequest F T → ForeignCall F T
  beats : Time → Wire.HeartbeatRequest F T → ForeignCall F T

abbrev pub caller : {F T : Type 0} → ForeignCall F T → GoString
caller (registers now r) = r.worker_id
caller (beats now r) = r.worker_id

-- What happens in the course of a session.
pub data Event (F T : Type 0) : Type 0 where
  changes : Change → Event F T
  ticks : Moment → Event F T
  others : ForeignCall F T → Event F T

-- The worker and the router after a session, and the reply that ended it; none where the context ended it.
pub record Session (F : Type 0) : Type 0 where
  pub worker : Worker F
  pub control : Control F
  pub ended_by : Option Reply

-- The reply to a call: the session goes on only where it accepts.
abbrev pub go_on : {F : Type 0} → Worker F → Control F × Reply → Session F → Session F
go_on w (c, accepted) rest = rest
go_on w (c, reply) rest = record { worker = w; control = c; ended_by = some reply }

module _ {F T : Type 0} ⦃fl : Float F⦄ (ts : Timestamps T) where
  unfoldable pub serve_foreign : Control F → ForeignCall F T → Control F
  serve_foreign c (registers now r) = (register_worker ts c now r).0
  serve_foreign c (beats now r) = (heartbeat_worker ts c now r).0

  -- The loop over the ticks.
  unfoldable pub heartbeats : Worker F → Control F → List (Event F T) → Session F
  heartbeats w c [] = record { worker = w; control = c; ended_by = none }
  heartbeats w c (changes x ∷ events) = heartbeats (change w x) c events
  heartbeats w c (others x ∷ events) = heartbeats w (serve_foreign c x) events
  heartbeats w c (ticks t ∷ events) =
      let (w', state) = next_state w t.observed in
      let out = heartbeat_worker ts c t.read (heartbeat_of ts w' t.stamped state) in
      go_on w' out (heartbeats w' out.0 events)

  unfoldable pub register_and_heartbeat :
      Worker F → Control F → Moment → List (Event F T) → Session F
  register_and_heartbeat w c t events =
      let (w', state) = next_state w t.observed in
      let out = register_worker ts c t.read (registration ts w' t.stamped state) in
      go_on w' out (heartbeats w' out.0 events)
