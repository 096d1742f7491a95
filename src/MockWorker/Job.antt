-- ===== src/MockWorker/Job.antt =====
-- internal/mockworker/worker.go: a generation, from the request that `Generate` accepts to the results that `runJob`
-- sends. How each wait and each hand-over of the job ends, and the clock, are inputs.
pub mod Delivery
use aether_serve.Base.{
  ℕ, zero, suc, ◌+◌, ◌&&◌, ◌||◌, not, Bool, true, false, ltb, leb, ◌==◌, if◌then◌else◌, Option,
  none, some, List, [], ◌∷◌, ◌++◌, take, Result, ok, err, ◌>>=◌, ◌>>◌, reject_if,
}
use aether_serve.Base.Int.{ℤ, pos, ◌-ℤ◌, ltb_ℤ, leb_ℤ}
use aether_serve.Base.Text.{GoString, str, str_eq, is_empty, decimal}
use aether_serve.Clock.{Time}
use aether_serve.Model.{Chunk, FinishReason, protocol_version}
use aether_serve.Grpc.{Code, Transport}
use aether_serve.Wire
use aether_serve.Protocol.{prefixes_from_proto}
use aether_serve.Config.{WorkerConfig}
use aether_serve.MockWorker.{Worker, add_prefixes}

-- The struct `result`.
pub record Outcome : Type 0 where
  pub chunk : Option Chunk
  pub failure : Option Transport
  pub done : Bool

abbrev pub status_error : Code → GoString → Transport
status_error code message = record { code = code; wraps_canceled = false; message = message }

abbrev pub failed : GoString → Outcome
failed message = record {
  chunk = none;
  failure = some (status_error Code.unavailable message);
  done = false;
}

-- What the job meets: does the prefill wait run to its end, and the wait before the n-th token; is the n-th
-- hand-over taken; what time is it at the n-th chunk.
pub record Surroundings : Type 0 where
  pub prefilled : Bool
  pub waited : ℕ → Bool
  pub taken : ℕ → Bool
  pub clock : ℕ → Time

module _ {F T : Type 0} where
  -- The guards of `Generate`.
  unfoldable pub check_request : Worker F → Wire.GenerateRequest T → Result Transport (Unit {0})
  check_request w r =
      reject_if
        (not (str_eq r.protocol_version protocol_version)
          || not (str_eq r.worker_id w.config.id)
          || not (str_eq r.model w.config.model))
        (status_error Code.invalid_argument (str "invalid generation request"))
      >> reject_if (is_empty r.request_id || is_empty r.attempt_id || r.max_output_tokens == 0) (
          status_error Code.invalid_argument (str "missing generation identifiers or output limit"))

-- At most 8 tokens are generated.
abbrev pub output_count : ℕ → ℕ
output_count wanted = if ltb 8 wanted then 8 else wanted

abbrev pub finish_reason : ℕ → FinishReason
finish_reason wanted =
    if output_count wanted == wanted then FinishReason.length else FinishReason.stop

-- `send`: the outcome, if it is taken.
abbrev pub send : Bool → Outcome → List Outcome
send true o = o ∷ []
send false o = []

-- Is the midstream failure due before the token of this index?
abbrev pub fails_at : {F : Type 0} → Worker F → ℕ → Bool
fails_at w index =
    ltb_ℤ (pos 0) w.config.failure.fail_after_tokens
    && leb_ℤ w.config.failure.fail_after_tokens (pos index)

module _ {F T : Type 0} where
  abbrev pub final_chunk : Worker F → Wire.GenerateRequest T → ℕ → FinishReason → Time → Chunk
  final_chunk w r index reason at = record {
    request_id = r.request_id;
    attempt_id = r.attempt_id;
    worker_id = w.config.id;
    token_index = index;
    token_text = [];
    final = true;
    reason = reason;
    at = at;
  }

  -- What follows the loop: the prefixes are cached, and the final chunk is sent.
  unfoldable pub finish_job :
      Worker F → Wire.GenerateRequest T → Surroundings → ℕ → Worker F × List Outcome
  finish_job w r s index = (
    add_prefixes w (prefixes_from_proto r.prefix_fingerprints),
    send (s.taken index) (record {
      chunk = some (final_chunk w r index (finish_reason r.max_output_tokens) (s.clock index));
      failure = none;
      done = true;
    }),
  )

module _ {F : Type 0} (digest : GoString → GoString) where
  -- `token`; the digest is in hex, of which the first four bytes are eight digits.
  unfoldable pub token : Worker F → GoString → ℕ → GoString
  token w request_id index =
      str "mock-"
      ++ take 8
          (digest (decimal w.config.seed ++ str ":" ++ request_id ++ str ":" ++ decimal index))

module _ {F T : Type 0} (digest : GoString → GoString) where
  abbrev pub token_chunk : Worker F → Wire.GenerateRequest T → ℕ → Time → Chunk
  token_chunk w r index at = record {
    request_id = r.request_id;
    attempt_id = r.attempt_id;
    worker_id = w.config.id;
    token_index = index;
    token_text = token digest w r.request_id index;
    final = false;
    reason = FinishReason.other [];
    at = at;
  }

  -- The loop, with `left` tokens to go from `index` on, and what follows it.
  unfoldable pub tokens_from :
      Worker F → Wire.GenerateRequest T → Surroundings → ℕ → ℕ → Worker F × List Outcome
  tokens_from w r s zero index = finish_job w r s index
  tokens_from w r s (suc left) index =
      let rest = tokens_from w r s left (suc index) in
      let o : Outcome = record {
        chunk = some (token_chunk w r index (s.clock index));
        failure = none;
        done = false;
      } in
      if fails_at w index
      then (w, send (s.taken index) (failed (str "injected midstream failure")))
      else if not (s.waited index)
      then (w, [])
      else if s.taken index
      then (rest.0, o ∷ rest.1)
      else (w, [])

  -- `runJob`: the worker after it and the outcomes that it handed over.
  unfoldable pub run_job :
      Worker F → Wire.GenerateRequest T → Surroundings → Worker F × List Outcome
  run_job w r s =
      if not s.prefilled
      then (w, [])
      else if ltb_ℤ (pos 0) w.fail_before_remaining
      then (
        record w { fail_before_remaining = w.fail_before_remaining -ℤ pos 1 },
        send (s.taken 0) (failed (str "injected failure before first token")),
      )
      else tokens_from w r s (output_count r.max_output_tokens) 0

-- A turn of the loop of `Generate`: an outcome, with whether the stream takes its chunk, the end of the stream's
-- context, or the worker's stop.
pub data Turn : Type 0 where
  outcome : Outcome → Option Transport → Turn
  context_done : Transport → Turn
  stopping : Turn

-- The chunks that go on the stream, and the status it ends with; it is open after the last turn.
pub record Streamed : Type 0 where
  pub chunks : List Chunk
  pub status : Option (Option Transport)

abbrev pub ended : Option Transport → Streamed
ended status = record { chunks = []; status = some status }

-- An outcome's parts, where `later` is what the turns after it do.
unfoldable pub pass_on :
    Option Transport → Option Chunk → Option Transport → Bool → Streamed → Streamed
pass_on (some e) c sent done later = ended (some e)
pass_on none none sent done later = if done then ended none else later
pass_on none (some c) (some e) done later = ended (some e)
pass_on none (some c) none done later =
    let rest : Streamed = if done then ended none else later in
    record { chunks = c ∷ rest.chunks; status = rest.status }

unfoldable pub generate : List Turn → Streamed
generate [] = record { chunks = []; status = none }
generate (context_done e ∷ ts) = ended (some e)
generate (stopping ∷ ts) = ended (some (status_error Code.unavailable (str "worker stopping")))
generate (outcome o sent ∷ ts) = pass_on o.failure o.chunk sent o.done (generate ts)
