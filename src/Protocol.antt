-- ===== src/Protocol.antt =====
-- internal/protocol/convert.go: between the messages of the wire and the values of the router. The
-- reading of the clock in `ChunkFromProto` is an argument.
pub mod RoundTrip
use aether_serve.Base.{
  ℕ, Bool, true, false, not, if◌then◌else◌, Option, none, some, List, [], ◌∷◌, map, Result, ok, err,
  ◌>>=◌,
}
use aether_serve.Base.Text.{GoString, str, str_eq}
use aether_serve.Clock.{Time}
use aether_serve.Model.{
  Message, PrefixFingerprint, WorkerStatus, KvUsage, WorkerState, Request, FinishReason, Chunk,
  protocol_version,
}
use aether_serve.Wire
use aether_serve.Wire.{Timestamps}

pub data Error : Type 0 where
  missing_worker_state invalid_cached_prefix missing_chunk : Error
  chunk_protocol_mismatch invalid_chunk_timestamp non_final_finish_reason : Error
  missing_timestamp invalid_timestamp : GoString → Error
  invalid_worker_status : Wire.WorkerStatus → Error
  invalid_finish_reason : Wire.FinishReason → Error

unfoldable pub messages_to_proto : List Message → List (Option Wire.ChatMessage)
messages_to_proto [] = []
messages_to_proto (m ∷ ms) =
    some (record { role = m.role; content = m.content }) ∷ messages_to_proto ms

unfoldable pub messages_from_proto : List (Option Wire.ChatMessage) → List Message
messages_from_proto [] = []
messages_from_proto (none ∷ ms) = messages_from_proto ms
messages_from_proto (some m ∷ ms) =
    record { role = m.role; content = m.content } ∷ messages_from_proto ms

unfoldable pub prefixes_to_proto : List PrefixFingerprint → List (Option Wire.PrefixFingerprint)
prefixes_to_proto [] = []
prefixes_to_proto (p ∷ ps) =
    some (record { token_count = p.token_count; sha256 = p.sha256 }) ∷ prefixes_to_proto ps

unfoldable pub prefixes_from_proto : List (Option Wire.PrefixFingerprint) → List PrefixFingerprint
prefixes_from_proto [] = []
prefixes_from_proto (none ∷ ps) = prefixes_from_proto ps
prefixes_from_proto (some p ∷ ps) =
    record { token_count = p.token_count; sha256 = p.sha256 } ∷ prefixes_from_proto ps

unfoldable pub status_to_proto : WorkerStatus → Wire.WorkerStatus
status_to_proto WorkerStatus.healthy = Wire.WorkerStatus.healthy
status_to_proto WorkerStatus.draining = Wire.WorkerStatus.draining
status_to_proto WorkerStatus.unhealthy = Wire.WorkerStatus.unhealthy
status_to_proto (WorkerStatus.other s) = Wire.WorkerStatus.unhealthy

unfoldable pub status_from_proto : Wire.WorkerStatus → Result Error WorkerStatus
status_from_proto Wire.WorkerStatus.healthy = ok WorkerStatus.healthy
status_from_proto Wire.WorkerStatus.draining = ok WorkerStatus.draining
status_from_proto Wire.WorkerStatus.unhealthy = ok WorkerStatus.unhealthy
status_from_proto Wire.WorkerStatus.unspecified =
    err (invalid_worker_status Wire.WorkerStatus.unspecified)
status_from_proto (Wire.WorkerStatus.unrecognized n) =
    err (invalid_worker_status (Wire.WorkerStatus.unrecognized n))

unfoldable pub finish_to_proto : FinishReason → Wire.FinishReason
finish_to_proto FinishReason.stop = Wire.FinishReason.stop
finish_to_proto FinishReason.length = Wire.FinishReason.length
finish_to_proto FinishReason.cancelled = Wire.FinishReason.cancelled
finish_to_proto FinishReason.error = Wire.FinishReason.error
finish_to_proto (FinishReason.other s) = Wire.FinishReason.error

unfoldable pub finish_from_proto : Wire.FinishReason → Result Error FinishReason
finish_from_proto Wire.FinishReason.stop = ok FinishReason.stop
finish_from_proto Wire.FinishReason.length = ok FinishReason.length
finish_from_proto Wire.FinishReason.cancelled = ok FinishReason.cancelled
finish_from_proto Wire.FinishReason.error = ok FinishReason.error
finish_from_proto Wire.FinishReason.unspecified =
    err (invalid_finish_reason Wire.FinishReason.unspecified)
finish_from_proto (Wire.FinishReason.unrecognized n) =
    err (invalid_finish_reason (Wire.FinishReason.unrecognized n))

-- `chunk.GetFinishReason() == FINISH_REASON_UNSPECIFIED`.
abbrev pub is_unspecified : Wire.FinishReason → Bool
is_unspecified Wire.FinishReason.unspecified = true
is_unspecified _ = false

-- The loop of `StateToProto`.
unfoldable pub cached_to_proto : List PrefixFingerprint → List (Option Wire.CachedPrefixMetadata)
cached_to_proto [] = []
cached_to_proto (p ∷ ps) =
    some (record {
      prefix = some (record { token_count = p.token_count; sha256 = p.sha256 });
      last_used_unix_millis = 0;
    })
    ∷ cached_to_proto ps

-- One round of the loop of `StateFromProto`.
abbrev pub cached_prefix : Option Wire.CachedPrefixMetadata → Result Error PrefixFingerprint
cached_prefix none = err invalid_cached_prefix
cached_prefix (some item) = elim item.prefix [
  | none ↦ err invalid_cached_prefix
  | some p ↦ ok (record { token_count = p.token_count; sha256 = p.sha256 })
]

-- The loop of `StateFromProto`.
unfoldable pub cached_from_proto :
    List (Option Wire.CachedPrefixMetadata) → Result Error (List PrefixFingerprint)
cached_from_proto [] = ok []
cached_from_proto (item ∷ items) =
    cached_prefix item >>= λ p. cached_from_proto items >>= λ ps. ok (p ∷ ps)

-- The getters of a message that may be nil.
abbrev pub kv_from_proto : Option Wire.KvUsageMetadata → KvUsage
kv_from_proto none = record { capacity_tokens = 0; used_tokens = 0 }
kv_from_proto (some kv) = record {
  capacity_tokens = kv.capacity_tokens;
  used_tokens = kv.used_tokens;
}

module _ {T : Type 0} (ts : Timestamps T) where
  unfoldable pub timestamp_from_proto : Option T → GoString → Result Error Time
  timestamp_from_proto none field = err (missing_timestamp field)
  timestamp_from_proto (some t) field =
      if not (ts.check_valid t) then err (invalid_timestamp field) else ok (ts.as_time t)

module _ {F T : Type 0} (ts : Timestamps T) where
  unfoldable pub state_to_proto : WorkerState F → Wire.WorkerState F T
  state_to_proto s = record {
    status_version = s.status_version;
    status = status_to_proto s.status;
    waiting_request_count = s.waiting_request_count;
    waiting_token_count = s.waiting_token_count;
    running_request_count = s.running_request_count;
    running_work_tokens = s.running_work_tokens;
    kv_usage = some (record {
      capacity_tokens = s.kv_usage.capacity_tokens;
      used_tokens = s.kv_usage.used_tokens;
    });
    prefill_tokens_per_second = s.prefill_tokens_per_second;
    decode_tokens_per_second = s.decode_tokens_per_second;
    decode_scheduling_quantum_tokens = s.decode_scheduling_quantum_tokens;
    cached_prefixes = cached_to_proto s.cached_prefixes;
    observed_at = some (ts.from_time s.observed_at);
  }

  unfoldable pub state_from_proto : Option (Wire.WorkerState F T) → Result Error (WorkerState F)
  state_from_proto none = err missing_worker_state
  state_from_proto (some s) = status_from_proto s.status >>= λ status.
      timestamp_from_proto ts s.observed_at (str "state observed_at") >>= λ observed.
      cached_from_proto s.cached_prefixes >>= λ cached. ok (record {
        status_version = s.status_version;
        status = status;
        waiting_request_count = s.waiting_request_count;
        waiting_token_count = s.waiting_token_count;
        running_request_count = s.running_request_count;
        running_work_tokens = s.running_work_tokens;
        kv_usage = kv_from_proto s.kv_usage;
        prefill_tokens_per_second = s.prefill_tokens_per_second;
        decode_tokens_per_second = s.decode_tokens_per_second;
        decode_scheduling_quantum_tokens = s.decode_scheduling_quantum_tokens;
        cached_prefixes = cached;
        observed_at = observed;
      })

-- The finish reason; that of a chunk that is not final is the empty string.
abbrev pub chunk_reason : Bool → Wire.FinishReason → Result Error FinishReason
chunk_reason true reason = finish_from_proto reason
chunk_reason false reason =
    if not (is_unspecified reason) then err non_final_finish_reason else ok (FinishReason.other [])

module _ {T : Type 0} (ts : Timestamps T) where
  unfoldable pub request_to_proto : Request → GoString → Wire.GenerateRequest T
  request_to_proto r worker_id = record {
    protocol_version = protocol_version;
    request_id = r.id;
    attempt_id = r.attempt_id;
    worker_id = worker_id;
    tenant_id = r.tenant_id;
    model = r.model;
    messages = messages_to_proto r.messages;
    estimated_input_tokens = r.estimated_input_token;
    expected_output_tokens = r.expected_output_token;
    max_output_tokens = r.max_output_tokens;
    deadline = some (ts.from_time r.deadline);
    prefix_fingerprints = prefixes_to_proto r.prefix_fingerprints;
  }

  -- When a chunk says that it was made; `now` where it does not say.
  abbrev pub chunk_time : Time → Option T → Result Error Time
  chunk_time now none = ok now
  chunk_time now (some t) =
      if not (ts.check_valid t) then err invalid_chunk_timestamp else ok (ts.as_time t)

  unfoldable pub chunk_from_proto : Time → Option (Wire.GenerateChunk T) → Result Error Chunk
  chunk_from_proto now none = err missing_chunk
  chunk_from_proto now (some c) =
      if not (str_eq c.protocol_version protocol_version)
      then err chunk_protocol_mismatch
      else (chunk_time now c.worker_timestamp >>= λ at.
          chunk_reason c.final c.finish_reason >>= λ reason. ok (record {
            request_id = c.request_id;
            attempt_id = c.attempt_id;
            worker_id = c.worker_id;
            token_index = c.token_index;
            token_text = c.token_text;
            final = c.final;
            reason = reason;
            at = at;
          }))

  unfoldable pub chunk_to_proto : Chunk → Wire.GenerateChunk T
  chunk_to_proto c = record {
    protocol_version = protocol_version;
    request_id = c.request_id;
    attempt_id = c.attempt_id;
    worker_id = c.worker_id;
    token_index = c.token_index;
    token_text = c.token_text;
    final = c.final;
    finish_reason = if c.final then finish_to_proto c.reason else Wire.FinishReason.unspecified;
    worker_timestamp = some (ts.from_time c.at);
  }
