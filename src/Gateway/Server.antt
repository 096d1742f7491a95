-- ===== src/Gateway/Server.antt =====
-- internal/gateway/server.go: the calls of a worker on the control plane, over the registry. The time of the
-- response, the metrics and the log are left out.
pub mod Replies
pub mod Accepted
use aether_serve.Base.{
  ℕ, Bool, true, false, not, ltb, if◌then◌else◌, Option, Result, ok, err, ◌>>=◌,
}
use aether_serve.Base.Text.{GoString, str, str_eq}
use aether_serve.Float.{Float}
use aether_serve.Clock.{Time}
use aether_serve.Model.{WorkerState, Worker, protocol_version}
use aether_serve.Registry
use aether_serve.Registry.{Registry, register, heartbeat, healthy_count}
use aether_serve.Wire
use aether_serve.Wire.{Timestamps}
use aether_serve.Protocol
use aether_serve.Protocol.{timestamp_from_proto, state_from_proto}

-- The part of the server that these calls change.
pub record Control (F : Type 0) : Type 0 where
  pub registry : Registry F
  pub ready : Bool

-- A gRPC error, or a response that accepts or refuses.
pub data Reply : Type 0 where
  failed_precondition accepted : Reply
  invalid_argument : Protocol.Error → Reply
  refused : Registry.Error → Reply

module _ {F T : Type 0} where
  -- `modelWorker`; the fields that it leaves out are zero.
  unfoldable pub model_worker : Wire.RegisterWorkerRequest F T → WorkerState F → Worker F
  model_worker request state = record {
    id = request.worker_id;
    data_address = request.data_address;
    model = request.model;
    protocol_version = request.protocol_version;
    state = state;
    last_heartbeat = 0;
    stale = false;
  }

-- The response after the registry's answer; an accepted call sets `ready`.
unfoldable pub conclude :
    {F : Type 0}
    → Control F
    → Time
    → Registry F × Result Registry.Error (Unit {0})
    → Control F × Reply
conclude c now (g, err e) = (record c { registry = g }, refused e)
conclude c now (g, ok _) = (record { registry = g; ready = ltb 0 (healthy_count g now) }, accepted)

-- A call with the state that it carries, if that can be read.
unfoldable pub with_state :
    {F : Type 0}
    → Control F
    → Time
    → Result Protocol.Error (WorkerState F)
    → (WorkerState F → Registry F × Result Registry.Error (Unit {0}))
    → Control F × Reply
with_state c now (err e) call = (c, invalid_argument e)
with_state c now (ok state) call = conclude c now (call state)

module _ {F T : Type 0} ⦃fl : Float F⦄ (ts : Timestamps T) where
  -- What both calls read of a request: its time, then its state.
  abbrev pub read_state :
      Option T → GoString → Option (Wire.WorkerState F T) → Result Protocol.Error (WorkerState F)
  read_state time field state =
      timestamp_from_proto ts time field >>= λ _. state_from_proto ts state

  unfoldable pub register_worker :
      Control F → Time → Wire.RegisterWorkerRequest F T → Control F × Reply
  register_worker c now request =
      if not (str_eq request.protocol_version protocol_version)
      then (c, failed_precondition)
      else with_state c now
          (read_state request.registered_at (str "registration timestamp") request.initial_state)
          (λ state. register c.registry now (model_worker request state))

  unfoldable pub heartbeat_worker : Control F → Time → Wire.HeartbeatRequest F T → Control F × Reply
  heartbeat_worker c now request =
      if not (str_eq request.protocol_version protocol_version)
      then (c, failed_precondition)
      else with_state c now
          (read_state request.worker_timestamp (str "heartbeat timestamp") request.state)
          (λ state. heartbeat c.registry now request.worker_id state)
