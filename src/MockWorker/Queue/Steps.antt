-- ===== src/MockWorker/Queue/Steps.antt =====
-- internal/mockworker/worker.go: the steps of `Generate`, of `dispatch` and of the `runJob` that it calls.
use aether_serve.Base.{
  ℕ, suc, ◌≤◌, ◌<◌, ◌≡◌, Bool, true, false, none, some, List, [], ◌∷◌, ◌++◌, length, get_elem?, set,
  ok,
}
use aether_serve.Base.Int.{pos, ◌-ℤ◌, ltb_ℤ}
use aether_serve.Base.Text.{GoString, str}
use aether_serve.Float.{Float}
use aether_serve.Clock.{Time}
use aether_serve.Model.{Chunk}
use aether_serve.Grpc.{Code, Transport}
use aether_serve.Wire
use aether_serve.Protocol.{prefixes_from_proto}
use aether_serve.MockWorker.{
  Worker, normalized_work, add_waiting, remove_waiting, move_to_running, finish_running,
  add_prefixes,
}
use aether_serve.MockWorker.Job.{
  Outcome, check_request, status_error, failed, output_count, finish_reason, fails_at, token_chunk,
  final_chunk,
}
use aether_serve.MockWorker.Queue.Jobs.{
  Job, enters, counted, withdraws, listens, returns, Call, enter, idle, exits, starts, prefills,
  checks, finishes, emits, sends, Shared, is_last, outcome_of, after_send, streamed,
}

module _ {F T : Type 0} (digest : GoString → GoString) where
  -- A step of the dispatcher that no call takes part in.
  pub data Turn (m : Shared F T) : Shared F T → Type 0 where
    exit : m.dispatcher ≡ idle → m.stopped ≡ true → Turn m (record m { dispatcher = exits })
    take :
        {j : Job T} {js : List (Job T)}
        → m.dispatcher ≡ idle
        → m.queue ≡ j ∷ js
        → Turn m (record m { dispatcher = starts j; queue = js })
    begin :
        {j : Job T}
        → m.dispatcher ≡ starts j
        → Turn m (record m { dispatcher = prefills j; worker = move_to_running m.worker j.work })
    prefill : {j : Job T} → m.dispatcher ≡ prefills j → Turn m (record m { dispatcher = checks j })
    fail_before :
        {j : Job T}
        → m.dispatcher ≡ checks j
        → ltb_ℤ (pos 0) m.worker.fail_before_remaining ≡ true
        → Turn m (record m {
          dispatcher = sends j 0 (failed (str "injected failure before first token"));
          worker = record (m.worker) {
            fail_before_remaining = m.worker.fail_before_remaining -ℤ pos 1;
          };
        })
    pass :
        {j : Job T}
        → m.dispatcher ≡ checks j
        → ltb_ℤ (pos 0) m.worker.fail_before_remaining ≡ false
        → Turn m (record m { dispatcher = emits j 0 })
    fail_after :
        {j : Job T} {index : ℕ}
        → m.dispatcher ≡ emits j index
        → index < output_count j.request.max_output_tokens
        → fails_at m.worker index ≡ true
        → Turn m
            (record m { dispatcher = sends j index (failed (str "injected midstream failure")) })
    decode :
        {j : Job T} {index : ℕ} (at : Time)
        → m.dispatcher ≡ emits j index
        → index < output_count j.request.max_output_tokens
        → fails_at m.worker index ≡ false
        → Turn m (record m {
          dispatcher =
              sends j
                (suc index)
                (outcome_of (token_chunk digest m.worker j.request index at) false);
        })
    complete :
        {j : Job T} {index : ℕ} (at : Time)
        → m.dispatcher ≡ emits j index
        → output_count j.request.max_output_tokens ≤ index
        → Turn m (record m {
          dispatcher = sends j index (
              outcome_of
                (final_chunk m.worker j.request index
                  (finish_reason j.request.max_output_tokens)
                  at)
                true);
          worker = add_prefixes m.worker (prefixes_from_proto j.request.prefix_fingerprints);
        })
    finish :
        {j : Job T}
        → m.dispatcher ≡ finishes j
        → Turn m (record m { dispatcher = idle; worker = finish_running m.worker j.work })

module _ {F T : Type 0} where
  -- The dispatcher waits, or waits to hand over, for this job.
  pub data Blocks (m : Shared F T) (j : Job T) : Type 0 where
    in_prefill : m.dispatcher ≡ prefills j → Blocks m j
    in_decode :
        {index : ℕ}
        → m.dispatcher ≡ emits j index
        → index < output_count j.request.max_output_tokens
        → fails_at m.worker index ≡ false
        → Blocks m j
    in_send : {next : ℕ} {o : Outcome} → m.dispatcher ≡ sends j next o → Blocks m j

  -- A step of call `i`.
  pub data Move (capacity i : ℕ) (m : Shared F T) (k : Call T) : Shared F T → Call T → Type 0 where
    count :
        k.phase ≡ enters
        → Move capacity i m k
            (record m { worker = add_waiting m.worker k.work })
            (record k { phase = counted })
    enqueue :
        k.phase ≡ counted
        → length m.queue < capacity
        → Move capacity i m k
            (record m {
              queue = m.queue ++ record { call = i; work = k.work; request = k.request } ∷ [];
            })
            (record k { phase = listens })
    give_up :
        {e : Transport}
        → k.phase ≡ counted
        → k.context ≡ some e
        → Move capacity i m k m (record k { phase = withdraws e })
    turn_away :
        k.phase ≡ counted
        → k.context ≡ none
        → capacity ≤ length m.queue
        → Move capacity i m k m (record k {
          phase =
              withdraws (status_error Code.resource_exhausted (str "mock worker queue is full"));
        })
    withdraw :
        {e : Transport}
        → k.phase ≡ withdraws e
        → Move capacity i m k
            (record m { worker = remove_waiting m.worker k.work })
            (record k { phase = returns (some e) })
    -- The context of the stream ends, or that of the worker.
    cancel :
        (e : Transport) → k.context ≡ none → Move capacity i m k m (record k { context = some e })
    read_failure :
        {o : Outcome} {e : Transport}
        → k.phase ≡ listens
        → k.results ≡ some o
        → o.failure ≡ some e
        → Move capacity i m k m (record k { results = none; phase = returns (some e) })
    read_chunk :
        {c : Chunk} {last : Bool}
        → k.phase ≡ listens
        → k.results ≡ some (outcome_of c last)
        → Move capacity i m k m (streamed k c last)
    send_fails :
        {c : Chunk} {last : Bool} (e : Transport)
        → k.phase ≡ listens
        → k.results ≡ some (outcome_of c last)
        → Move capacity i m k m (record k { results = none; phase = returns (some e) })
    leave :
        {e : Transport}
        → k.phase ≡ listens
        → k.context ≡ some e
        → Move capacity i m k m (record k { phase = returns (some e) })
    leave_stopped :
        k.phase ≡ listens
        → m.stopped ≡ true
        → Move capacity i m k m (record k {
          phase = returns (some (status_error Code.unavailable (str "worker stopping")));
        })
    -- `send` puts an outcome into the free place of the channel.
    hand_over :
        {j : Job T} {next : ℕ} {o : Outcome}
        → m.dispatcher ≡ sends j next o
        → j.call ≡ i
        → k.results ≡ none
        → Move capacity i m k
            (record m { dispatcher = after_send j next (is_last o) })
            (record k { results = some o })
    -- A wait or a hand-over of the call's job is cut short by its context, or by the worker's.
    cut_short :
        {j : Job T} {e : Transport}
        → Blocks m j
        → j.call ≡ i
        → k.context ≡ some e
        → Move capacity i m k (record m { dispatcher = finishes j }) k
    cut_stopped :
        {j : Job T}
        → Blocks m j
        → j.call ≡ i
        → m.stopped ≡ true
        → Move capacity i m k (record m { dispatcher = finishes j }) k

module _ {F T : Type 0} ⦃fl : Float F⦄ where
  -- The work of a request at the worker's rates.
  abbrev pub work_of : Worker F → Wire.GenerateRequest T → ℕ
  work_of w r =
      normalized_work r.estimated_input_tokens r.max_output_tokens
        w.config.prefill_tokens_per_second w.config.decode_tokens_per_second

pub record System (F T : Type 0) : Type 0 where
  pub shared : Shared F T
  pub calls : List (Call T)

module _ {F T : Type 0} ⦃fl : Float F⦄ (digest : GoString → GoString) (capacity : ℕ) where
  pub data Step (s : System F T) : System F T → Type 0 where
    generate :
        (r : Wire.GenerateRequest T)
        → check_request s.shared.worker r ≡ ok tt
        → Step s (record s { calls = s.calls ++ enter r (work_of s.shared.worker r) ∷ [] })
    move :
        (i : ℕ) {k k' : Call T} {m : Shared F T}
        → get_elem? s.calls i ≡ some k
        → Move capacity i s.shared k m k'
        → Step s (record { shared = m; calls = set s.calls i k' })
    turn : {m : Shared F T} → Turn digest s.shared m → Step s (record s { shared = m })
    stop : Step s (record s { shared = record (s.shared) { stopped = true } })

  -- What a started worker comes to.
  pub data Reach (w : Worker F) : System F T → Type 0 where
    start : Reach w (record {
      shared = record { worker = w; queue = []; dispatcher = idle; stopped = false };
      calls = [];
    })
    later : {s t : System F T} → Reach w s → Step s t → Reach w t
