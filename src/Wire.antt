-- ===== src/Wire.antt =====
-- api/proto: the messages on the wire, as the generated code has them. A message pointer is an Option.
-- `T` is the type of google.protobuf.Timestamp, whose operations are a parameter.
use aether_serve.Base.{ℕ, Bool, Option, List}
use aether_serve.Base.Text.{GoString}
use aether_serve.Clock.{Time}

-- The package timestamppb: `CheckValid`, `AsTime` and `New`.
pub record Timestamps (T : Type 0) : Type 0 where
  pub check_valid : T → Bool
  pub as_time : T → Time
  pub from_time : Time → T

-- An enumeration of proto3 is open: a peer may send any number.
pub data WorkerStatus : Type 0 where
  unspecified healthy draining unhealthy : WorkerStatus
  unrecognized : ℕ → WorkerStatus

pub data FinishReason : Type 0 where
  unspecified stop length cancelled error : FinishReason
  unrecognized : ℕ → FinishReason

pub record ChatMessage : Type 0 where
  pub role : GoString
  pub content : GoString

pub record PrefixFingerprint : Type 0 where
  pub token_count : ℕ
  pub sha256 : GoString

pub record KvUsageMetadata : Type 0 where
  pub capacity_tokens : ℕ
  pub used_tokens : ℕ

pub record CachedPrefixMetadata : Type 0 where
  pub prefix : Option PrefixFingerprint
  pub last_used_unix_millis : ℕ

pub record WorkerState (F T : Type 0) : Type 0 where
  pub status_version : ℕ
  pub status : WorkerStatus
  pub waiting_request_count : ℕ
  pub waiting_token_count : ℕ
  pub running_request_count : ℕ
  pub running_work_tokens : ℕ
  pub kv_usage : Option KvUsageMetadata
  pub prefill_tokens_per_second : F
  pub decode_tokens_per_second : F
  pub decode_scheduling_quantum_tokens : ℕ
  pub cached_prefixes : List (Option CachedPrefixMetadata)
  pub observed_at : Option T

pub record GenerateRequest (T : Type 0) : Type 0 where
  pub protocol_version : GoString
  pub request_id : GoString
  pub attempt_id : GoString
  pub worker_id : GoString
  pub tenant_id : GoString
  pub model : GoString
  pub messages : List (Option ChatMessage)
  pub estimated_input_tokens : ℕ
  pub expected_output_tokens : ℕ
  pub max_output_tokens : ℕ
  pub deadline : Option T
  pub prefix_fingerprints : List (Option PrefixFingerprint)

pub record GenerateChunk (T : Type 0) : Type 0 where
  pub protocol_version : GoString
  pub request_id : GoString
  pub attempt_id : GoString
  pub worker_id : GoString
  pub token_index : ℕ
  pub token_text : GoString
  pub final : Bool
  pub finish_reason : FinishReason
  pub worker_timestamp : Option T

pub record RegisterWorkerRequest (F T : Type 0) : Type 0 where
  pub protocol_version : GoString
  pub worker_id : GoString
  pub data_address : GoString
  pub model : GoString
  pub registered_at : Option T
  pub initial_state : Option (WorkerState F T)

pub record HeartbeatRequest (F T : Type 0) : Type 0 where
  pub protocol_version : GoString
  pub worker_id : GoString
  pub worker_timestamp : Option T
  pub state : Option (WorkerState F T)
