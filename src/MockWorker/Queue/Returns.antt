-- ===== src/MockWorker/Queue/Returns.antt =====
-- That calls of `Generate` return.
use aether_serve.Base.{
  ℕ, suc, ◌+◌, ◌<◌, ◌≤◌, ◌≡◌, Bool, true, false, Option, none, some, [], ◌∷◌, length, length-append,
  sum, sum-set, ◌-◌, ◌*◌, arith, All, inl, inr, ◌⊎◌, All-of_get_elem?, Bool-cases, Bool-cases,
}
use aether_serve.Base.Text.{GoString}
use aether_serve.Float.{Float}
use aether_serve.Grpc.{Transport}
use aether_serve.MockWorker.{Worker}
use aether_serve.MockWorker.Job.{Outcome}
use aether_serve.MockWorker.Queue.{
  Job, Phase, enters, counted, withdraws, listens, returns, Call, Dispatcher, idle, exits, starts,
  prefills, checks, finishes, emits, sends, Shared, is_last, after_send, Turn, exit, take, begin,
  prefill, fail_before, pass, fail_after, decode, complete, finish, Blocks, in_prefill, in_decode,
  in_send, Move, count, enqueue, give_up, turn_away, withdraw, cancel, read_failure, read_chunk,
  send_fails, leave, leave_stopped, hand_over, cut_short, cut_stopped, System, Step, move, turn,
  Reach, later,
}
use aether_serve.MockWorker.Queue.Tended.{Reach-IsTended}
use aether_serve.MockWorker.Queue.Progress.{Advance, turns, moves, CanAdvance, can_advance}
use aether_serve.MockWorker.Queue.Counted.{has_returned}

-- How many steps a call has before it, without those of its job.
abbrev phase_left : Phase → ℕ
phase_left enters = 50
phase_left counted = 49
phase_left (withdraws e) = 4
phase_left listens = 3
phase_left (returns e) = 0

abbrev option_left : Option Outcome → ℕ
option_left none = 0
option_left (some o) = 1

abbrev context_left : Option Transport → ℕ
context_left none = 1
context_left (some e) = 0

abbrev send_left : ℕ → Bool → ℕ
send_left next true = 4
send_left next false = 7 + 4 * (8 - next)

module _ {T : Type 0} where
  abbrev call_left : Call T → ℕ
  call_left k = phase_left k.phase + option_left k.results + context_left k.context

  -- How many steps the dispatcher has before it.
  abbrev dispatcher_left : Dispatcher T → ℕ
  dispatcher_left (starts j) = 40
  dispatcher_left (prefills j) = 39
  dispatcher_left (checks j) = 38
  dispatcher_left (emits j index) = 5 + 4 * (8 - index)
  dispatcher_left (sends j next o) = send_left next (is_last o)
  dispatcher_left (finishes j) = 2
  dispatcher_left idle = 1
  dispatcher_left exits = 0

  after_send-left :
      (j : Job T) (next : ℕ) (last : Bool)
      → dispatcher_left (after_send j next last) + 1 < send_left next last
  after_send-left j next true = omega arith
  after_send-left j next false = omega arith

module _ {F T : Type 0} where
  abbrev shared_left : Shared F T → ℕ
  shared_left m = 41 * length m.queue + dispatcher_left m.dispatcher

  abbrev pub steps_left : System F T → ℕ
  steps_left s = shared_left s.shared + sum call_left s.calls

  Turn-left :
      (digest : GoString → GoString) {m m' : Shared F T}
      → Turn digest m m'
      → shared_left m' < shared_left m
  Turn-left digest (exit e f) = ground arith
  Turn-left digest (take e f) = ground arith
  Turn-left digest (begin e) = ground arith
  Turn-left digest (prefill e) = ground arith
  Turn-left digest (fail_before e f) = ground arith
  Turn-left digest (pass e f) = ground arith
  Turn-left digest (fail_after e f g) = ground arith
  Turn-left digest (decode at e f g) = ground arith
  Turn-left digest (complete at e f) = ground arith
  Turn-left digest (finish e) = ground arith

  Blocks-left : {m : Shared F T} {j : Job T} → Blocks m j → 2 < dispatcher_left m.dispatcher
  Blocks-left (in_prefill e) = ground arith
  Blocks-left (in_decode e f g) = ground arith
  Blocks-left (in_send {next = next} {o = o} e) = ground arith

  Move-left :
      {capacity i : ℕ} {m : Shared F T} {k : Call T} {m' : Shared F T} {k' : Call T}
      → Move capacity i m k m' k'
      → (k'.context ≡ k.context) ⊎ (has_returned k.phase ≡ true)
      → shared_left m' + call_left k' < shared_left m + call_left k
  Move-left (count e) q = ground arith
  Move-left {i = i} {m = m} {k = k} (enqueue e h) q =
      ground (
        arith,
        length-append m.queue (record { call = i; work = k.work; request = k.request } ∷ []),
      )
  Move-left (give_up e f) q = ground arith
  Move-left (turn_away e f h) q = ground arith
  Move-left (withdraw e) q = ground arith
  Move-left (cancel e f) q = ground arith
  Move-left (read_failure e f g) q = ground arith
  Move-left (read_chunk {last = true} e f) q = ground arith
  Move-left (read_chunk {last = false} e f) q = ground arith
  Move-left (send_fails x e f) q = ground arith
  Move-left (leave e f) q = ground arith
  Move-left (leave_stopped e f) q = ground arith
  Move-left (hand_over {j = j} {next = next} {o = o} e f g) q =
      ground (arith, after_send-left j next (is_last o))
  Move-left (cut_short e f g) q = ground (arith, Blocks-left e)
  Move-left (cut_stopped e f g) q = ground (arith, Blocks-left e)

module _ {F T : Type 0} (digest : GoString → GoString) (capacity : ℕ) where
  -- So many advances, one after the other.
  pub data Run (s : System F T) : ℕ → System F T → Type 0 where
    stay : Run s 0 s
    advance : {n : ℕ} {t u : System F T} → Run s n t → Advance digest capacity t u → Run s (suc n) u

  Advance-left : {s t : System F T} → Advance digest capacity s t → steps_left t < steps_left s
  Advance-left (turns u) = omega (arith, Turn-left digest u)
  Advance-left {s} (moves i {k' = k'} e mv q) =
      omega (arith, Move-left mv q, sum-set call_left s.calls i k' e)

  Run-left : {s t : System F T} {n : ℕ} → Run s n t → n + steps_left t ≤ steps_left s
  Run-left stay = omega arith
  Run-left (advance r a) = omega (arith, Run-left r, Advance-left a)

module _ {F T : Type 0} ⦃fl : Float F⦄ (digest : GoString → GoString) (capacity : ℕ) where
  Advance-Step : {s t : System F T} → Advance digest capacity s t → Step digest capacity s t
  Advance-Step (turns u) = turn u
  Advance-Step (moves i e mv q) = move i e mv

  pub Run-Reach :
      {w : Worker F} {s t : System F T} {n : ℕ}
      → Reach digest capacity w s
      → Run digest capacity s n t
      → Reach digest capacity w t
  Run-Reach r stay = r
  Run-Reach r (advance run a) = later (Run-Reach r run) (Advance-Step a)

  -- No call hangs: in every state that calls of `Generate`, cancellations, the dispatcher and a stop come to, however
  -- they interleave, the steps that need no further request and no cancellation of a call that has not returned can be
  -- taken in any order at most `steps_left` times; and where none is possible any more, every call has returned.
  pub generate_returns :
      {w : Worker F} {s t : System F T} {n : ℕ}
      → Reach digest capacity w s
      → Run digest capacity s n t
      → (n ≤ steps_left s)
        × (¬ CanAdvance digest capacity t → All (λ k. has_returned k.phase ≡ true) t.calls)
  generate_returns {t = t} r run = (
    omega (arith, Run-left digest capacity run),
    λ stuck.
        All-of_get_elem? (λ k. has_returned k.phase ≡ true) t.calls
          λ i k e. elim (Bool-cases (has_returned k.phase)) [
            | inl h ↦ h
            | inr h ↦ absurd (
                stuck (
                  can_advance digest capacity t i k
                    (Reach-IsTended digest capacity (Run-Reach r run)) e h))
          ],
  )
