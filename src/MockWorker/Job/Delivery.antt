-- ===== src/MockWorker/Job/Delivery.antt =====
-- A job that nothing disturbs, from the worker's loop to what the client reads.
use aether_serve.Base.{
  ℕ, zero, suc, ◌+◌, ◌≤◌, ◌<◌, ◌≡◌, refl, sym, ap, subst, ◌∙◌, true, false, if_both, ◌==◌, none,
  some, List, [], ◌∷◌, map, arith, add_u32, All, ok,
}
use aether_serve.Base.Int.{pos, ltb_ℤ}
use aether_serve.Base.Text.{GoString, is_empty, str_eq_iff, str_eq_refl}
use aether_serve.Clock.{Time}
use aether_serve.Model.{Request, Chunk, FinishReason, protocol_version}
use aether_serve.Wire
use aether_serve.Wire.{Timestamps}
use aether_serve.Protocol.{request_to_proto}
use aether_serve.Protocol.RoundTrip.{IsCarried, IsFinish}
use aether_serve.Gateway.Stream.{receive}
use aether_serve.Gateway.Stream.Order.{IsComplete, sent}
use aether_serve.Gateway.Commit
use aether_serve.Gateway.Commit.{Frame, completed, is_error, forward}
use aether_serve.Gateway.Commit.Transcript.{frames, writes, stream_faithful}
use aether_serve.MockWorker.{Worker}
use aether_serve.MockWorker.Job.{
  Outcome, Surroundings, check_request, output_count, finish_reason, token, token_chunk,
  final_chunk, finish_job, tokens_from, run_job, Turn, outcome, pass_on, generate,
}

-- Every wait runs to its end, and every outcome is taken.
pub record IsCalm (s : Surroundings) : Type 0 where
  pub prefilled : s.prefilled ≡ true
  pub waited : (n : ℕ) → s.waited n ≡ true
  pub taken : (n : ℕ) → s.taken n ≡ true

-- No failure is injected.
pub record IsSound {F : Type 0} (w : Worker F) : Type 0 where
  pub before : ltb_ℤ (pos 0) w.fail_before_remaining ≡ false
  pub after : ltb_ℤ (pos 0) w.config.failure.fail_after_tokens ≡ false

abbrev pub outcome_of : Chunk → Outcome
outcome_of c = record { chunk = some c; failure = none; done = c.final }

-- The outcomes, each of which goes on the stream.
abbrev pub streamed : List Outcome → List Turn
streamed os = map (λ o. outcome o none) os

pub finish_reason-IsFinish : (n : ℕ) → IsFinish (finish_reason n)
finish_reason-IsFinish n =
    if_both IsFinish (output_count n == n) FinishReason.length FinishReason.stop tt tt

pub finish_reason-fine : (n : ℕ) → is_error (finish_reason n) ≡ false
finish_reason-fine n =
    if_both (λ r. is_error r ≡ false) (output_count n == n) FinishReason.length FinishReason.stop
      refl refl

module _ {F T : Type 0} (digest : GoString → GoString) (w : Worker F) (s : Surroundings) where
  -- The chunks of a job, with `left` tokens to go from `index` on.
  abbrev pub job_chunks : Wire.GenerateRequest T → ℕ → ℕ → List Chunk
  job_chunks r zero index =
      final_chunk w r index (finish_reason r.max_output_tokens) (s.clock index) ∷ []
  job_chunks r (suc left) index =
      token_chunk digest w r index (s.clock index) ∷ job_chunks r left (suc index)

  tokens_from-chunks :
      (r : Wire.GenerateRequest T) (left index : ℕ)
      → IsCalm s
      → IsSound w
      → (tokens_from digest w r s left index).1 ≡ map outcome_of (job_chunks r left index)
  unfolding tokens_from finish_job
  tokens_from-chunks r zero index calm sound = rw (calm.taken index) refl
  tokens_from-chunks r (suc left) index calm sound = ground (
    arith,
    sound.after,
    calm.waited index,
    calm.taken index,
    tokens_from-chunks r left (suc index) calm sound,
  )

  run_job-chunks :
      (r : Wire.GenerateRequest T)
      → IsCalm s
      → IsSound w
      → (run_job digest w r s).1
        ≡ map outcome_of (job_chunks r (output_count r.max_output_tokens) 0)
  unfolding run_job
  run_job-chunks r calm sound = ground (
    arith,
    calm.prefilled,
    sound.before,
    tokens_from-chunks r (output_count r.max_output_tokens) 0 calm sound,
  )

  generate-chunks :
      (r : Wire.GenerateRequest T) (left index : ℕ)
      → (generate (streamed (map outcome_of (job_chunks r left index)))).chunks
        ≡ job_chunks r left index
  unfolding generate pass_on
  generate-chunks r zero index = refl
  generate-chunks r (suc left) index =
      ap (◌∷◌ (token_chunk digest w r index (s.clock index))) (generate-chunks r left (suc index))

module _ {F T : Type 0} (digest : GoString → GoString) (ts : Timestamps T) (w : Worker F)
    (s : Surroundings) (q : Request) where
  -- The request as the router sends it to this worker.
  abbrev pub sent_request : Wire.GenerateRequest T
  sent_request = request_to_proto ts q w.config.id

  job-IsComplete :
      (left index : ℕ)
      → index + left ≤ 8
      → ((n : ℕ) → IsCarried ts (s.clock n))
      → IsComplete ts q w.config.id index (job_chunks digest w s sent_request left index)
  unfolding request_to_proto token
  job-IsComplete zero index h carried = (
    record { request_id = refl; attempt_id = refl; worker_id = refl; index = refl; text = refl },
    carried index,
    (finish_reason-IsFinish q.max_output_tokens, refl),
  )
  job-IsComplete (suc left) index h carried =
      let next : add_u32 index 1 ≡ suc index = omega arith in
      (
        record {
          request_id = refl;
          attempt_id = refl;
          worker_id = refl;
          index = refl;
          text = refl;
        },
        carried index,
        (
          refl,
          subst
              (λ i.
                IsComplete ts q w.config.id i (job_chunks digest w s sent_request left (suc index)))
              (sym next) (job-IsComplete left (suc index) (omega arith) carried),
        ),
      )

  -- What the client should read.
  abbrev pub reply : ℕ → ℕ → List Frame
  reply zero index = Commit.completion (finish_reason q.max_output_tokens) ∷ Commit.done ∷ []
  reply (suc left) index = Commit.token (token digest w q.id index) ∷ reply left (suc index)

  frames-job :
      (left index : ℕ) → frames (job_chunks digest w s sent_request left index) ≡ reply left index
  unfolding request_to_proto
  frames-job zero index = refl
  frames-job (suc left) index =
      ap (◌∷◌ (Commit.token (token digest w q.id index))) (frames-job left (suc index))

  fine :
      (left index : ℕ)
      → All (λ c. is_error c.reason ≡ false) (job_chunks digest w s sent_request left index)
  unfolding request_to_proto
  fine zero index = (finish_reason-fine q.max_output_tokens, tt)
  fine (suc left) index = (refl, fine left (suc index))

  -- The request names a model, identifiers and an output limit that the worker takes.
  pub record IsServed : Type 0 where
    pub model : q.model ≡ w.config.model
    pub request_id : is_empty q.id ≡ false
    pub attempt_id : is_empty q.attempt_id ≡ false
    pub limit : 0 < q.max_output_tokens

  served-ok : IsServed → check_request w sent_request ≡ ok tt
  unfolding check_request request_to_proto
  served-ok v = ground (
    arith,
    v,
    str_eq_refl protocol_version,
    str_eq_refl w.config.id,
    str_eq_iff q.model w.config.model,
  )

  job-streamed :
      IsCalm s
      → IsSound w
      → (generate (streamed (run_job digest w sent_request s).1)).chunks
        ≡ job_chunks digest w s sent_request (output_count q.max_output_tokens) 0
  unfolding request_to_proto
  job-streamed calm sound =
      ap (λ os. (generate (streamed os)).chunks) (run_job-chunks digest w s sent_request calm sound)
      ∙ generate-chunks digest w s sent_request (output_count q.max_output_tokens) 0

  -- A request of this worker's model, with identifiers and a positive output limit, that the router sends
  -- to a worker which injects no failure, whose job no wait and no hand-over cuts short and whose chunk
  -- times a timestamp holds, and whose stream is taken in full and written in full: the worker accepts
  -- it, and the client reads the worker's tokens 0, 1, and so on, at most 8 and as many as were asked
  -- for if that is fewer, then the completion and the end marker.
  pub job_delivered :
      (now : Time)
      → IsServed
      → IsCalm s
      → IsSound w
      → ((n : ℕ) → IsCarried ts (s.clock n))
      → let job = (run_job digest w sent_request s).1 in
        (check_request w sent_request ≡ ok tt)
        × (forward (
              writes (
                receive ts q w.config.id 0
                  (sent ts q w.config.id now (generate (streamed job)).chunks)))
            ≡ (reply (output_count q.max_output_tokens) 0, completed))
  job_delivered now served calm sound carried =
      let n : ℕ = output_count q.max_output_tokens in
      let few : 0 + n ≤ 8 = grind arith in
      (
        served-ok served,
        ap (λ cs. forward (writes (receive ts q w.config.id 0 (sent ts q w.config.id now cs))))
              (job-streamed calm sound)
            ∙ stream_faithful ts q w.config.id now 0 (job_chunks digest w s sent_request n 0)
                (job-IsComplete n 0 few carried) (fine n 0)
            ∙ ap (λ fs. (fs, completed)) (frames-job n 0),
      )
