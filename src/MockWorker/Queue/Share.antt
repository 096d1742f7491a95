-- ===== src/MockWorker/Queue/Share.antt =====
-- What one step does to the counters of waiting and running work.
use aether_serve.Base.{
  ℕ, ◌+◌, ◌^◌, ◌≤◌, ◌<◌, ◌≡◌, refl, Bool, true, false, List, [], ◌∷◌, length, length-append, sum,
  sum-append, arith,
}
use aether_serve.Base.Text.{GoString}
use aether_serve.MockWorker.{
  add_waiting, remove_waiting, move_to_running, finish_running, add_prefixes,
}
use aether_serve.MockWorker.Queue.{
  Job, Phase, enters, counted, withdraws, Call, Dispatcher, starts, prefills, checks, finishes,
  emits, sends, Shared, is_last, after_send, Turn, exit, take, begin, prefill, fail_before, pass,
  fail_after, decode, complete, finish, Blocks, in_prefill, in_decode, in_send, Move, count,
  enqueue, give_up, turn_away, withdraw, cancel, read_failure, read_chunk, send_fails, leave,
  leave_stopped, hand_over, cut_short, cut_stopped,
}

-- What a call in this phase has counted that is in no channel, where it counts as `x`.
abbrev pub transit : Phase → ℕ → ℕ
transit counted x = x
transit (withdraws e) x = x
transit _ x = 0

-- What it has yet to count.
abbrev pub entry : Phase → ℕ → ℕ
entry enters x = x
entry _ x = 0

module _ {T : Type 0} where
  -- The job that the dispatcher has taken and not counted as running, and the one that it runs.
  abbrev pub starting : Dispatcher T → List (Job T)
  starting (starts j) = j ∷ []
  starting _ = []

  abbrev pub running : Dispatcher T → List (Job T)
  running (prefills j) = j ∷ []
  running (checks j) = j ∷ []
  running (emits j index) = j ∷ []
  running (sends j next o) = j ∷ []
  running (finishes j) = j ∷ []
  running _ = []

  abbrev pub work_of : List (Job T) → ℕ
  work_of js = sum (λ (j : Job T). j.work) js

  pub running-after_send :
      (j : Job T) (next : ℕ) (last : Bool) → running (after_send j next last) ≡ j ∷ []
  running-after_send j next true = refl
  running-after_send j next false = refl

  pub starting-after_send :
      (j : Job T) (next : ℕ) (last : Bool) → starting (after_send j next last) ≡ []
  starting-after_send j next true = refl
  starting-after_send j next false = refl

-- What the calls contribute: those in transit and those yet to enter, in number and in work.
pub record Share : Type 0 where
  pub passing : ℕ
  pub passing_work : ℕ
  pub coming : ℕ
  pub coming_work : ℕ

-- The share of one call, before that of the others.
abbrev pub with_call : Phase → ℕ → Share → Share
with_call p work s = record {
  passing = transit p 1 + s.passing;
  passing_work = transit p work + s.passing_work;
  coming = entry p 1 + s.coming;
  coming_work = entry p work + s.coming_work;
}

module _ {F T : Type 0} where
  -- The counters are those of the calls and jobs, of which there are at most `n` with at most the work `total`.
  pub record IsCountedBy (m : Shared F T) (s : Share) (n total : ℕ) : Type 0 where
    pub waiting_requests :
        m.worker.state.waiting_request_count
        ≡ s.passing + length m.queue + length (starting m.dispatcher)
    pub waiting_tokens :
        m.worker.state.waiting_token_count
        ≡ s.passing_work + work_of m.queue + work_of (starting m.dispatcher)
    pub running_requests : m.worker.state.running_request_count ≡ length (running m.dispatcher)
    pub running_tokens : m.worker.state.running_work_tokens ≡ work_of (running m.dispatcher)
    pub few :
        s.coming
          + s.passing
          + length m.queue
          + length (starting m.dispatcher)
          + length (running m.dispatcher)
        ≤ n
    pub little :
        s.coming_work
          + s.passing_work
          + work_of m.queue
          + work_of (starting m.dispatcher)
          + work_of (running m.dispatcher)
        ≤ total

  Blocks-IsCountedBy :
      (s : Share) (n total : ℕ) {m : Shared F T} {j : Job T}
      → Blocks m j
      → IsCountedBy m s n total
      → IsCountedBy (record m { dispatcher = finishes j }) s n total
  Blocks-IsCountedBy s n total (in_prefill e) c = ground (arith, c)
  Blocks-IsCountedBy s n total (in_decode e f g) c = ground (arith, c)
  Blocks-IsCountedBy s n total (in_send e) c = ground (arith, c)

module _ {F T : Type 0} (s : Share) (n total : ℕ) (small : n < 2 ^ 32)
    (light : total < 2 ^ 64) where
  pub Turn-IsCountedBy :
      (digest : GoString → GoString) {m m' : Shared F T}
      → Turn digest m m'
      → IsCountedBy m s n total
      → IsCountedBy m' s n total
  Turn-IsCountedBy digest (exit e f) c = ground (arith, c)
  Turn-IsCountedBy digest (take e f) c = ground (arith, c)
  Turn-IsCountedBy digest (begin e) c = unfold move_to_running in ground (arith, c)
  Turn-IsCountedBy digest (prefill e) c = ground (arith, c)
  Turn-IsCountedBy digest (fail_before e f) c = ground (arith, c)
  Turn-IsCountedBy digest (pass e f) c = ground (arith, c)
  Turn-IsCountedBy digest (fail_after e f g) c = ground (arith, c)
  Turn-IsCountedBy digest (decode at e f g) c = ground (arith, c)
  Turn-IsCountedBy digest (complete at e f) c = unfold add_prefixes in ground (arith, c)
  Turn-IsCountedBy digest (finish e) c = unfold finish_running in ground (arith, c)

  pub Move-IsCountedBy :
      {capacity i : ℕ} {m : Shared F T} {k : Call T} {m' : Shared F T} {k' : Call T}
      → Move capacity i m k m' k'
      → IsCountedBy m (with_call k.phase k.work s) n total
      → IsCountedBy m' (with_call k'.phase k'.work s) n total
  Move-IsCountedBy (count e) c = unfold add_waiting in ground (arith, c)
  Move-IsCountedBy {i = i} {m = m} {k = k} (enqueue e q) c =
      let j : Job T = record { call = i; work = k.work; request = k.request } in
      ground (
        arith,
        c,
        length-append m.queue (j ∷ []),
        sum-append (λ (j : Job T). j.work) m.queue (j ∷ []),
      )
  Move-IsCountedBy (give_up e f) c = ground (arith, c)
  Move-IsCountedBy (turn_away e f q) c = ground (arith, c)
  Move-IsCountedBy (withdraw e) c = unfold remove_waiting in ground (arith, c)
  Move-IsCountedBy (cancel e f) c = c
  Move-IsCountedBy (read_failure e f g) c = ground (arith, c)
  Move-IsCountedBy (read_chunk e f) c = ground (arith, c)
  Move-IsCountedBy (send_fails x e f) c = ground (arith, c)
  Move-IsCountedBy (leave e f) c = ground (arith, c)
  Move-IsCountedBy (leave_stopped e f) c = ground (arith, c)
  Move-IsCountedBy (hand_over {j = j} {next = next} {o = r} e f g) c =
      ground
        (arith, c, running-after_send j next (is_last r), starting-after_send j next (is_last r))
  Move-IsCountedBy {k = k} (cut_short e f g) c =
      Blocks-IsCountedBy (with_call k.phase k.work s) n total e c
  Move-IsCountedBy {k = k} (cut_stopped e f g) c =
      Blocks-IsCountedBy (with_call k.phase k.work s) n total e c
