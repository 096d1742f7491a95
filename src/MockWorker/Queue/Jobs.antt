-- ===== src/MockWorker/Queue/Jobs.antt =====
-- internal/mockworker/worker.go: a job, a call of `Generate`, the dispatcher, and the state that they share.
use aether_serve.Base.{ℕ, Bool, true, if◌then◌else◌, Option, none, some, List, [], ◌∷◌, ◌++◌}
use aether_serve.Model.{Chunk}
use aether_serve.Grpc.{Transport}
use aether_serve.Wire
use aether_serve.MockWorker.{Worker}
use aether_serve.MockWorker.Job.{Outcome}

-- The struct `job`: `call` is the place of the call whose context and channel of results it shares.
pub record Job (T : Type 0) : Type 0 where
  pub call : ℕ
  pub work : ℕ
  pub request : Wire.GenerateRequest T

-- Where a call of `Generate` stands: before `addWaiting`, before the select, before `removeWaiting`, in the loop, or
-- over, with the error if there is one.
pub data Phase : Type 0 where
  enters counted : Phase
  withdraws : Transport → Phase
  listens : Phase
  returns : Option Transport → Phase

-- A call with its stream's context (the status of its error once it is done), the channel of results, which holds
-- one, and the chunks that it has streamed.
pub record Call (T : Type 0) : Type 0 where
  pub request : Wire.GenerateRequest T
  pub work : ℕ
  pub phase : Phase
  pub context : Option Transport
  pub results : Option Outcome
  pub sent : List Chunk

abbrev pub enter : {T : Type 0} → Wire.GenerateRequest T → ℕ → Call T
enter r work = record {
  request = r;
  work = work;
  phase = enters;
  context = none;
  results = none;
  sent = [];
}

-- Where `dispatch` and the `runJob` that it calls stand. The number is the index of the next token; `exits` is the
-- dispatcher's return.
pub data Dispatcher (T : Type 0) : Type 0 where
  idle exits : Dispatcher T
  starts prefills checks finishes : Job T → Dispatcher T
  emits : Job T → ℕ → Dispatcher T
  sends : Job T → ℕ → Outcome → Dispatcher T

-- `stopped` says whether the worker's context is done.
pub record Shared (F T : Type 0) : Type 0 where
  pub worker : Worker F
  pub queue : List (Job T)
  pub dispatcher : Dispatcher T
  pub stopped : Bool

-- The outcome that ends a job: an error or the final chunk.
abbrev pub is_last : Outcome → Bool
is_last o = elim o.failure [ some e ↦ true | none ↦ o.done ]

abbrev pub outcome_of : Chunk → Bool → Outcome
outcome_of c last = record { chunk = some c; failure = none; done = last }

-- What follows a hand-over in `runJob`.
abbrev pub after_send : {T : Type 0} → Job T → ℕ → Bool → Dispatcher T
after_send j next last = if last then finishes j else emits j next

-- The call after the result that it reads is streamed.
abbrev pub streamed : {T : Type 0} → Call T → Chunk → Bool → Call T
streamed k c last = record k {
  results = none;
  sent = k.sent ++ c ∷ [];
  phase = if last then returns none else listens;
}
