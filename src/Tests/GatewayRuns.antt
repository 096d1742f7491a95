-- ===== src/Tests/GatewayRuns.antt =====
-- The gateway's stream and its attempts. A timestamp of the wire is a plain time here.
use aether_serve.Base.{
  ℕ, ◌≤◌, ◌≡◌, ◌≢◌, refl, true, false, some, List, [], ◌∷◌, length, ok, if◌then◌else◌,
}
use aether_serve.Base.Int.{ℤ, pos}
use aether_serve.Base.Text.{GoString, str, str_eq}
use aether_serve.Base.Sort.{Distinct}
use aether_serve.Model.{Chunk, FinishReason}
use aether_serve.Routing.{Router, Policy}
use aether_serve.Wire
use aether_serve.Wire.{Timestamps}
use aether_serve.Protocol.{
  state_to_proto, state_from_proto, timestamp_from_proto, chunk_to_proto, status_from_proto,
  status_to_proto, cached_from_proto, cached_to_proto,
}
use aether_serve.Protocol.RoundTrip.{IsCarried, state_round_trip}
use aether_serve.Grpc.{Code}
use aether_serve.Gateway.Stream.{
  chunk, Event, Round, delivered, timed_out, end_of_stream, message, receive,
}
use aether_serve.Gateway.Stream.Order.{IsDue, IsComplete, sent}
use aether_serve.Gateway.Commit.{
  Turn, token, completion, done, completed, event, context_done, forward,
}
use aether_serve.Gateway.Commit.Transcript.{writes, stream_faithful}
use aether_serve.Gateway.Attempts.{Try, live, refused, first, answer_request, unanswered}
use aether_serve.Gateway.Attempts.Answers.{tried_once, answered}
use aether_serve.Gateway.Server.{
  Control, accepted, with_state, conclude, model_worker, register_worker, heartbeat_worker,
}
use aether_serve.Registry
use aether_serve.Registry.{register, heartbeat, validate, validate_state, valid_prefixes}
use aether_serve.Base.Map.{lookup, insert}
use aether_serve.Gateway.Server.Accepted.{
  control_accepted, IsRegistrable, IsRegistered, IsRenewable, IsRenewed,
}
use aether_serve.Tests.Fixtures.{integers, state_of, workers, request}
use aether_serve.Tests.RegistryRuns.{pair}

abbrev pub plain : Timestamps ℕ
plain = record { check_valid = λ t. true; as_time = λ t. t; from_time = λ t. t }

pub carried : (t : ℕ) → IsCarried plain t
carried t = record { valid = refl; same = refl }

abbrev pub chunk_of : ℕ → GoString → Chunk
chunk_of i text = record {
  request_id = str "r";
  attempt_id = str "r-a1";
  worker_id = str "a";
  token_index = i;
  token_text = text;
  final = false;
  reason = FinishReason.other [];
  at = 7;
}

abbrev last_chunk : Chunk
last_chunk = record (chunk_of 1 []) { final = true; reason = FinishReason.stop }

abbrev stream : List Chunk
stream = chunk_of 0 (str "x") ∷ last_chunk ∷ []

due : (i : ℕ) → IsDue request (str "a") i (chunk_of i (str "x"))
due i = record { request_id = refl; attempt_id = refl; worker_id = refl; index = refl; text = refl }

stream-IsComplete : IsComplete plain request (str "a") 0 stream
stream-IsComplete = (
  due 0,
  carried 7,
  (
    refl,
    (
      record { request_id = refl; attempt_id = refl; worker_id = refl; index = refl; text = refl },
      carried 7,
      (tt, refl),
    ),
  ),
)

state_round_trip_example :
    state_from_proto plain (some (state_to_proto plain (state_of 1 2))) ≡ ok (state_of 1 2)
state_round_trip_example = state_round_trip plain (state_of 1 2) tt (carried 1)

-- The second hand-over is too slow.
abbrev rounds : List (Round ℕ)
rounds =
    record {
      received = message (some (chunk_to_proto plain (chunk_of 0 (str "x"))));
      now = 7;
      delivery = delivered;
    }
    ∷ record { received = end_of_stream; now = 8; delivery = timed_out }
    ∷ []

stream_faithful_example :
    forward (writes (receive plain request (str "a") 0 (sent plain request (str "a") 9 stream)))
    ≡ (token (str "x") ∷ completion FinishReason.stop ∷ done ∷ [], completed)
stream_faithful_example =
    stream_faithful plain request (str "a") 9 0 stream stream-IsComplete (refl, (refl, tt))

abbrev interrupted : List Turn
interrupted = event (Event.chunk (chunk_of 0 (str "x"))) true ∷ context_done ∷ []

-- `a` is down, and `b` answers.
abbrev pub flaky : ℕ → Try ℤ
flaky n = record {
  workers = workers;
  elapsed = pos 0;
  opening = λ q w.
      if str_eq w.id (str "a")
      then refused (record { code = Code.unavailable; wraps_canceled = false; message = [] })
      else first (Event.chunk (chunk_of 0 (str "x")));
  context = live;
}

abbrev pub router : Router
router = record { policy = Policy.least_waiting_tokens; cursor = 0 }

tried_once_example :
    Distinct (λ (id : GoString). id) (answer_request flaky request router).tried
    × (length (answer_request flaky request router).tried ≤ 2)
tried_once_example = tried_once flaky request router

answered_example : (answer_request flaky request router).answer ≢ unanswered
answered_example = answered flaky request router

abbrev server : Control ℤ
server = record { registry = pair; ready = true }

abbrev registration : Wire.RegisterWorkerRequest ℤ ℕ
registration = record {
  protocol_version = str "1.0";
  worker_id = str "c";
  data_address = str "host:3";
  model = str "m";
  registered_at = some 3;
  initial_state = some (state_to_proto plain (state_of 1 2));
}

abbrev beat : Wire.HeartbeatRequest ℤ ℕ
beat = record {
  protocol_version = str "1.0";
  worker_id = str "a";
  worker_timestamp = some 3;
  state = some (state_to_proto plain (state_of 2 4));
}

-- Both calls are accepted.
both_accepted :
    ((register_worker plain server 9 registration).1 ≡ accepted)
    × ((heartbeat_worker plain server 9 beat).1 ≡ accepted)
unfolding register_worker heartbeat_worker with_state conclude model_worker register heartbeat
    Registry.beat validate validate_state valid_prefixes lookup insert str_eq state_to_proto
    state_from_proto timestamp_from_proto status_from_proto status_to_proto cached_from_proto
    cached_to_proto
both_accepted = (refl, refl)

control_accepted_example :
    (IsRegistrable plain registration → (register_worker plain server 9 registration).1 ≡ accepted)
    × ((register_worker plain server 9 registration).1 ≡ accepted
        → IsRegistered plain server 9 registration
            (register_worker plain server 9 registration).0.registry)
    × ((register_worker plain server 9 registration).1 ≢ accepted
        → (register_worker plain server 9 registration).0 ≡ server)
    × (IsRenewable plain server beat → (heartbeat_worker plain server 9 beat).1 ≡ accepted)
    × ((heartbeat_worker plain server 9 beat).1 ≡ accepted
        → IsRenewed plain server 9 beat (heartbeat_worker plain server 9 beat).0.registry)
    × ((heartbeat_worker plain server 9 beat).1 ≢ accepted
        → (heartbeat_worker plain server 9 beat).0 ≡ server)
control_accepted_example = control_accepted plain server 9 registration beat
