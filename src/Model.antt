-- ===== src/Model.antt =====
-- internal/model/model.go: the values that the router's packages share. A Go string type with named
-- constants is a data type with those constants and `other` for any further string.
use aether_serve.Base.{ℕ, Bool, List, Option}
use aether_serve.Base.Text.{GoString, str}
use aether_serve.Base.Map.{Map}
use aether_serve.Clock.{Time, Duration}

abbrev pub protocol_version : GoString
protocol_version = str "1.0"

pub record Message : Type 0 where
  pub role : GoString
  pub content : GoString

pub record PrefixFingerprint : Type 0 where
  pub token_count : ℕ
  pub sha256 : GoString

pub data WorkerStatus : Type 0 where
  healthy draining unhealthy : WorkerStatus
  other : GoString → WorkerStatus

pub record KvUsage : Type 0 where
  pub capacity_tokens : ℕ
  pub used_tokens : ℕ

pub record WorkerState (F : Type 0) : Type 0 where
  pub status_version : ℕ
  pub status : WorkerStatus
  pub waiting_request_count : ℕ
  pub waiting_token_count : ℕ
  pub running_request_count : ℕ
  pub running_work_tokens : ℕ
  pub kv_usage : KvUsage
  pub prefill_tokens_per_second : F
  pub decode_tokens_per_second : F
  pub decode_scheduling_quantum_tokens : ℕ
  pub cached_prefixes : List PrefixFingerprint
  pub observed_at : Time

pub record Worker (F : Type 0) : Type 0 where
  pub id : GoString
  pub data_address : GoString
  pub model : GoString
  pub protocol_version : GoString
  pub state : WorkerState F
  pub last_heartbeat : Time
  pub stale : Bool

pub record Request : Type 0 where
  pub id : GoString
  pub attempt_id : GoString
  pub tenant_id : GoString
  pub model : GoString
  pub messages : List Message
  pub estimated_input_token : ℕ
  pub expected_output_token : ℕ
  pub max_output_tokens : ℕ
  pub prefix_fingerprints : List PrefixFingerprint
  pub deadline : Time

pub data FinishReason : Type 0 where
  stop length cancelled error : FinishReason
  other : GoString → FinishReason

pub record Chunk : Type 0 where
  pub request_id : GoString
  pub attempt_id : GoString
  pub worker_id : GoString
  pub token_index : ℕ
  pub token_text : GoString
  pub final : Bool
  pub reason : FinishReason
  pub at : Time

-- The values of `RejectionReason`; none is the empty string.
pub data Rejection : Type 0 where
  excluded_attempt_worker stale_heartbeat protocol_mismatch : Rejection
  incompatible_worker unhealthy invalid_kv_metadata missing_metric : Rejection

-- The values of `TieBreak`; none is the empty string.
pub data TieBreak : Type 0 where
  round_robin_cursor minimum_score : TieBreak

pub record CandidateEvaluation (F : Type 0) : Type 0 where
  pub worker_id : GoString
  pub eligible : Bool
  pub rejection_reason : Option Rejection
  pub state_version : ℕ
  pub matched_tokens : ℕ
  pub queue_delay : F
  pub uncached_prefill : ℕ
  pub prefill_delay : F
  pub overload_penalty : F
  pub predicted_ttft : F
  pub score : F
  pub tie_break : Option TieBreak

pub record RoutingDecision (F : Type 0) : Type 0 where
  pub request_id : GoString
  pub policy : GoString
  pub selected_worker : GoString
  pub candidates : List (CandidateEvaluation F)
  pub worker_versions : Map ℕ
  pub cursor : ℕ
  pub decision_time : Duration
