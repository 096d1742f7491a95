-- ===== src/Gateway/Attempts.antt =====
-- internal/gateway/http.go: `handleChat` from the admitted request on, at most two attempts to get a first chunk.
-- What an attempt meets is the input: the registry's snapshot, the decision's duration, what
-- opening the stream gives for a worker, and how the request's context stands when a fault is judged.
pub mod Answers
use aether_serve.Base.{
  ℕ, zero, suc, ◌+◌, Bool, true, false, ◌&&◌, ◌||◌, not, leb, if◌then◌else◌, Option, none, some,
  List, [], ◌∷◌, ◌++◌, Result, ok, err,
}
use aether_serve.Base.Text.{GoString, str}
use aether_serve.Base.Sort.{find_by}
use aether_serve.Float.{Float}
use aether_serve.Clock.{Duration}
use aether_serve.Model.{Worker, Request, Chunk}
use aether_serve.Routing
use aether_serve.Routing.{Router, select}
use aether_serve.Gateway.{Fault, transport, unexpected_eof, generation_error, code_of, is_canceled}
use aether_serve.Grpc.{Code, Transport}
use aether_serve.Gateway.Stream.{Event, chunk, failed}
use aether_serve.Gateway.Commit.{is_error}

-- `ctx.Err()`.
pub data Context : Type 0 where
  live cancelled deadline_exceeded : Context

abbrev pub is_live : Context → Bool
is_live live = true
is_live _ = false

-- What `openAttempt` and the first receive from its channel give.
pub data Opening : Type 0 where
  refused : Transport → Opening
  closed : Opening
  first : Event → Opening

pub record Try (F : Type 0) : Type 0 where
  pub workers : List (Worker F)
  pub elapsed : Duration
  pub opening : Request → Worker F → Opening
  pub context : Context

-- How a request is answered. `unanswered` is the end of the loop without an answer.
pub data Answer : Type 0 where
  no_workers timeout_error unanswered : Answer
  upstream_error : Fault → Answer
  committed : GoString → Chunk → Answer

-- `tried` is the workers that an attempt was opened on, in order; `invalidated` the addresses whose
-- connection was dropped.
pub record Outcome : Type 0 where
  pub router : Router
  pub tried : List GoString
  pub invalidated : List GoString
  pub answer : Answer

-- The `switch` of `shouldRetry` and its last line.
abbrev pub is_retryable : Code → Bool
is_retryable Code.unavailable = true
is_retryable Code.unknown = true
is_retryable Code.internal = true
is_retryable Code.deadline_exceeded = true
is_retryable Code.ok = true
is_retryable _ = false

unfoldable pub should_retry : Context → Fault → ℕ → Bool
should_retry context f attempt =
    if leb 2 attempt || not (is_live context)
    then false
    else if is_canceled f
    then false
    else is_retryable (code_of f)

-- `writePrecommitAttemptError`.
abbrev pub precommit_error : Context → Fault → Answer
precommit_error deadline_exceeded f = timeout_error
precommit_error _ f = upstream_error f

-- The fault that ends an attempt before its response begins, or the first chunk.
unfoldable pub first_chunk : Opening → Result Fault Chunk
first_chunk (refused e) = err (transport e)
first_chunk closed = err unexpected_eof
first_chunk (first (failed f)) = err f
first_chunk (first (chunk c)) = if c.final && is_error c.reason then err generation_error else ok c

-- `request.AttemptID = fmt.Sprintf("%s-a%d", request.ID, attemptNumber)`, for a number of one digit.
abbrev pub numbered : Request → ℕ → Request
numbered request number = record request {
  attempt_id = request.id ++ str "-a" ++ (48 + number) ∷ [];
}

-- The answer when no worker is selected.
abbrev pub unselected : Context → Option Fault → Answer
unselected context none = no_workers
unselected context (some f) = precommit_error context f

module _ {F : Type 0} ⦃fl : Float F⦄ where
  unfoldable pub select_worker :
      Router → Duration → Request → List (Worker F) → List GoString → Router × Option (Worker F)
  select_worker r elapsed request workers excluded =
      let (r', decision, error) = select r elapsed request workers excluded in
      elim error [
        | some e ↦ (r', none)
        | none ↦ (r', find_by (λ (w : Worker F). w.id) decision.selected_worker workers)
      ]

  -- What a selected worker's attempt comes to, by its first chunk, where `again` is the rest of the loop.
  unfoldable pub attempt_on :
      Router → Context → ℕ → Worker F → Result Fault Chunk → (Fault → Outcome) → Outcome
  attempt_on r context number worker (ok c) again = record {
    router = r;
    tried = worker.id ∷ [];
    invalidated = [];
    answer = committed worker.id c;
  }
  attempt_on r context number worker (err f) again =
      let rest : Outcome = if should_retry context f number then again f else record {
        router = r;
        tried = [];
        invalidated = [];
        answer = precommit_error context f;
      } in
      record rest {
        tried = worker.id ∷ rest.tried;
        invalidated = worker.data_address ∷ rest.invalidated;
      }

  -- One turn of the loop once a worker is selected, or none.
  unfoldable pub attempt :
      Router
      → Try F
      → ℕ
      → Request
      → Option Fault
      → Option (Worker F)
      → (Worker F → Fault → Outcome)
      → Outcome
  attempt r t number request previous none again = record {
    router = r;
    tried = [];
    invalidated = [];
    answer = unselected t.context previous;
  }
  attempt r t number request previous (some worker) again =
      attempt_on r t.context number worker (first_chunk (t.opening request worker)) (again worker)

  -- The loop with `left` rounds to go, from attempt `number` on.
  unfoldable pub attempts :
      (ℕ → Try F) → Request → ℕ → ℕ → Router → List GoString → Option Fault → Outcome
  attempts env request zero number r excluded previous = record {
    router = r;
    tried = [];
    invalidated = [];
    answer = unanswered;
  }
  attempts env request (suc left) number r excluded previous =
      let t = env number in
      let now : Request = numbered request number in
      let (r', chosen) = select_worker r t.elapsed now t.workers excluded in
      attempt r' t number now previous chosen
        (λ worker f. attempts env request left (suc number) r' (worker.id ∷ excluded) (some f))

  -- `for attemptNumber := 1; attemptNumber <= 2`.
  unfoldable pub answer_request : (ℕ → Try F) → Request → Router → Outcome
  answer_request env request r = attempts env request 2 1 r [] none
