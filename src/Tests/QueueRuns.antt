-- ===== src/Tests/QueueRuns.antt =====
-- Calls of `Generate` beside the dispatcher.
use aether_serve.Base.{
  ℕ, ◌+◌, ◌≤◌, ◌≡◌, refl, true, none, length, arith, All, get_or, inl, ◌<◌, ◌^◌, ok, zero, suc, [],
  false, some, Option, ap, sym, inr,
}
use aether_serve.Base.Int.{ℤ}
use aether_serve.Base.Text.{str, str_eq}
use aether_serve.Protocol.{request_to_proto}
use aether_serve.Wire
use aether_serve.Config.{validate_worker}
use aether_serve.Gateway.Stream.{receive}
use aether_serve.Gateway.Stream.Order.{sent}
use aether_serve.Gateway.Commit.{completed, forward}
use aether_serve.Gateway.Commit.Transcript.{writes}
use aether_serve.MockWorker.Queue.Delivered.{reply_of, generate_delivered}
use aether_serve.MockWorker.{new, active_requests, add_waiting, move_to_running, normalized_work}
use aether_serve.MockWorker.Job.{status_error, check_request, output_count}
use aether_serve.MockWorker.Job.Delivery.{sent_request}
use aether_serve.MockWorker.Queue.{
  System, Call, enter, work_of, Reach, start, later, generate, move, turn, count, enqueue, take,
  begin, prefill, pass, decode, complete, finish, hand_over, read_chunk, returns, Shared, Turn,
  exit, fail_before, fail_after, Blocks, in_prefill, in_decode, in_send, Move, give_up, turn_away,
  withdraw, cancel, read_failure, send_fails, leave, leave_stopped, cut_short, cut_stopped, Job,
  idle,
}
use aether_serve.MockWorker.Queue.Counted.{IsCounted, generate-IsCounted, has_returned}
use aether_serve.MockWorker.Queue.Numbered.{origin_of, IsStreamed, ends_final}
use aether_serve.MockWorker.Queue.Streams.{generate-IsStreamed}
use aether_serve.MockWorker.Queue.Progress.{turns, moves, Advance, CanAdvance}
use aether_serve.MockWorker.Queue.Returns.{Run, stay, advance, steps_left, generate_returns}
use aether_serve.MockWorker.Queue.Drained.{generate_drains}
use aether_serve.Grpc.{Code, Transport}
use mathlib.Core.Option.{some-injective}
use aether_serve.Tests.Fixtures.{integers, request}
use aether_serve.Tests.GatewayRuns.{plain, carried}
use aether_serve.Tests.JobRuns.{calm}
use aether_serve.Tests.WorkerRuns.{worker_config, fresh}

abbrev short : Wire.GenerateRequest ℕ
short = record (sent_request (λ s. s) plain fresh calm request) { max_output_tokens = 1 }

short-ok : check_request fresh short ≡ ok tt
unfolding check_request str_eq request_to_proto
short-ok = refl

fresh-new : new worker_config ≡ ok fresh
unfolding new validate_worker
fresh-new = refl

one_wanted : 0 < output_count short.max_output_tokens
one_wanted = ground arith

one_done : output_count short.max_output_tokens ≤ 1
one_done = ground arith

abbrev Found : Type 0
Found = (s : System ℤ ℕ) × Reach (λ s. s) 4 fresh s

-- A job waits in the channel.
abbrev queued : Found
queued = (
  _,
  later (later (later start (generate short short-ok)) (move 0 refl (count refl)))
      (move 0 refl (enqueue refl (omega arith))),
)

-- The dispatcher is about to generate the first token.
abbrev running : Found
running = (
  _,
  later
      (later (later (later queued.1 (turn (take refl refl))) (turn (begin refl)))
        (turn (prefill refl)))
      (turn (pass refl (unfold add_waiting move_to_running in refl))),
)

-- The token and the final chunk are streamed, and the job is over.
abbrev ended : Found
ended = (
  _,
  later
      (later
        (later
          (later
            (later
              (later
                (later running.1
                  (turn (decode 5 refl one_wanted (unfold add_waiting move_to_running in refl))))
                (move 0 refl (hand_over refl refl refl)))
              (move 0 refl (read_chunk refl refl)))
            (turn (complete 6 refl one_done)))
          (move 0 refl (hand_over refl refl refl)))
        (move 0 refl (read_chunk refl refl)))
      (turn (finish refl)),
)

abbrev finished : Call ℕ
finished = get_or ended.0.calls 0 (enter short 0)

-- A token and the final chunk.
finished_sent : (length finished.sent ≡ 2) × (ends_final finished.sent ≡ true)
finished_sent = (refl, refl)

generate-IsStreamed_example :
    IsStreamed finished.request (origin_of (λ s. s) fresh) 0 finished.sent
    × (finished.phase ≡ returns none → ends_final finished.sent ≡ true)
generate-IsStreamed_example = generate-IsStreamed (λ s. s) 4 ended.1 0 refl

light : (work_of fresh short + 0) < 2 ^ 64
unfolding normalized_work request_to_proto
light = omega arith

generate-IsCounted_example : IsCounted queued.0 × (length queued.0.shared.queue ≤ 4)
generate-IsCounted_example =
    generate-IsCounted (λ s. s) 4 worker_config fresh-new queued.1 (omega arith, light)

-- The two steps after which the first token is in the channel.
abbrev handed : (s : System ℤ ℕ) × Run (λ s. s) 4 running.0 2 s
handed = (
  _,
  advance
      (advance stay (turns (decode 5 refl one_wanted (unfold add_waiting move_to_running in refl))))
      (moves 0 refl (hand_over refl refl refl) (inl refl)),
)

generate_returns_example :
    (2 ≤ steps_left running.0)
    × (¬ CanAdvance (λ s. s) 4 handed.0 → All (λ k. has_returned k.phase ≡ true) handed.0.calls)
generate_returns_example = generate_returns (λ s. s) 4 running.1 handed.1

short-sent : short ≡ request_to_proto plain (record request { max_output_tokens = 1 }) (str "w")
unfolding request_to_proto
short-sent = refl

generate_delivered_example :
    forward (
      writes (
        receive plain
          (record request { max_output_tokens = 1 })
          (str "w")
          0
          (sent plain (record request { max_output_tokens = 1 }) (str "w") 9 finished.sent)))
    ≡ (
      reply_of plain (record request { max_output_tokens = 1 }) (origin_of (λ s. s) fresh) 1 0,
      completed,
    )
generate_delivered_example =
    generate_delivered (λ s. s) 4 plain (record request { max_output_tokens = 1 }) 9 0 ended.1 refl
      short-sent refl (carried 5, (carried 6, tt))

-- An idle dispatcher before an empty queue has no step.
no_turn :
    {m m' : Shared ℤ ℕ}
    → m.dispatcher ≡ idle
    → m.queue ≡ []
    → m.stopped ≡ false
    → ¬ Turn (λ s. s) m m'
no_turn d q b (take e f) = ground (arith, d, q, b)
no_turn d q b (exit e f) = ground (arith, d, q, b)
no_turn d q b (begin e) = ground (arith, d, q, b)
no_turn d q b (prefill e) = ground (arith, d, q, b)
no_turn d q b (fail_before e f) = ground (arith, d, q, b)
no_turn d q b (pass e f) = ground (arith, d, q, b)
no_turn d q b (fail_after e f g) = ground (arith, d, q, b)
no_turn d q b (decode at e f g) = ground (arith, d, q, b)
no_turn d q b (complete at e f) = ground (arith, d, q, b)
no_turn d q b (finish e) = ground (arith, d, q, b)

no_block : {m : Shared ℤ ℕ} {j : Job ℕ} → m.dispatcher ≡ idle → ¬ Blocks m j
no_block d (in_prefill e) = ground arith
no_block d (in_decode e f g) = ground arith
no_block d (in_send e) = ground arith

-- A call that has returned, and whose context is done, has no step.
no_move :
    {i : ℕ} {m : Shared ℤ ℕ} {k : Call ℕ} {m' : Shared ℤ ℕ} {k' : Call ℕ} {r : Option Transport}
    {x : Transport}
    → m.dispatcher ≡ idle
    → k.phase ≡ returns r
    → k.context ≡ some x
    → ¬ Move 4 i m k m' k'
no_move d p c (count e) = ground arith
no_move d p c (enqueue e f) = ground arith
no_move d p c (give_up e f) = ground arith
no_move d p c (turn_away e f g) = ground arith
no_move d p c (withdraw e) = ground arith
no_move d p c (cancel e f) = ground arith
no_move d p c (read_failure e f g) = ground arith
no_move d p c (read_chunk e f) = ground arith
no_move d p c (send_fails x e f) = ground arith
no_move d p c (leave e f) = ground arith
no_move d p c (leave_stopped e f) = ground arith
no_move d p c (hand_over e f g) = ground arith
no_move d p c (cut_short e f g) = no_block d e
no_move d p c (cut_stopped e f g) = no_block d e

-- The context of the call that has returned ends.
abbrev left : (s : System ℤ ℕ) × Run (λ s. s) 4 ended.0 1 s
left = (_, advance stay (moves 0 refl (cancel (status_error Code.canceled []) refl) (inr refl)))

left_stuck : (t : System ℤ ℕ) → ¬ Advance (λ s. s) 4 left.0 t
left_stuck t (turns u) = no_turn refl refl refl u
left_stuck t (moves zero e mv q) =
    let same = sym (some-injective _ _ e) in
    no_move refl (ap (λ (k : Call ℕ). k.phase) same) (ap (λ (k : Call ℕ). k.context) same) mv
left_stuck t (moves (suc i) e mv q) = absurd (cc)

generate_drains_example :
    All (λ k. has_returned k.phase ≡ true) left.0.calls
    × (left.0.shared.queue ≡ [])
    × (left.0.shared.dispatcher ≡ idle)
    × (active_requests left.0.shared.worker ≡ 0)
    × (left.0.shared.worker.state.waiting_token_count ≡ 0)
    × (left.0.shared.worker.state.running_work_tokens ≡ 0)
generate_drains_example =
    generate_drains (λ s. s) 4 worker_config fresh-new ended.1 left.1 (omega arith, light) refl
      (λ can. left_stuck can.0 can.1)
