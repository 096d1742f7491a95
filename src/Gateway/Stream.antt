-- ===== src/Gateway/Stream.antt =====
-- internal/gateway/http.go: `receiveAttempt`, which checks what a worker streams and hands it on. What
-- the stream returns and what becomes of each hand-over are the inputs, one round for each turn of the loop.
pub mod Order
use aether_serve.Base.{
  ℕ, Bool, true, false, ◌&&◌, ◌||◌, not, ◌==◌, if◌then◌else◌, Option, List, [], ◌∷◌, Result, ok,
  err, ◌>>=◌, ◌>>◌, reject_if, add_u32,
}
use aether_serve.Base.Text.{GoString, str_eq, is_empty}
use aether_serve.Clock.{Time}
use aether_serve.Model.{Request, Chunk}
use aether_serve.Wire
use aether_serve.Wire.{Timestamps}
use aether_serve.Protocol
use aether_serve.Protocol.{chunk_from_proto}
use aether_serve.Gateway.{
  Fault, unexpected_eof, identifiers_mismatch, empty_token, final_with_text, out_of_order,
  conversion, transport,
}
use aether_serve.Grpc.{Transport}

pub data Event : Type 0 where
  chunk : Chunk → Event
  failed : Fault → Event

unfoldable pub validate_chunk : Chunk → Request → GoString → ℕ → Result Fault (Unit {0})
validate_chunk c request worker_id expected =
    reject_if
      (not (str_eq c.request_id request.id)
        || not (str_eq c.attempt_id request.attempt_id)
        || not (str_eq c.worker_id worker_id))
      identifiers_mismatch
    >> reject_if (not (c.token_index == expected)) (out_of_order c.token_index expected)
    >> reject_if (not c.final && is_empty c.token_text) empty_token
    >> reject_if (c.final && not (is_empty c.token_text)) final_with_text

-- What `stream.Recv` returns: a message, the end of the stream, or another error.
pub data Received (T : Type 0) : Type 0 where
  message : Option (Wire.GenerateChunk T) → Received T
  end_of_stream : Received T
  broken : Transport → Received T

-- What becomes of a hand-over: the reader takes the event, the context ends, or the client is too slow.
pub data Delivery : Type 0 where
  delivered context_done timed_out : Delivery

pub record Round (T : Type 0) : Type 0 where
  pub received : Received T
  pub now : Time
  pub delivery : Delivery

-- The event put into the channel, if it is.
abbrev pub deliver_attempt : Delivery → Event → List Event → List Event
deliver_attempt delivered e later = e ∷ later
deliver_attempt _ e later = []

module _ {T : Type 0} (ts : Timestamps T) where
  -- The checks of one message.
  unfoldable pub accept :
      Request → GoString → ℕ → Time → Option (Wire.GenerateChunk T) → Result Fault Chunk
  accept request worker_id expected now wire = elim (chunk_from_proto ts now wire) [
    | err e ↦ err (conversion e)
    | ok c ↦ elim (validate_chunk c request worker_id expected) [ err f ↦ err f | ok _ ↦ ok c ]
  ]

  -- One turn of the loop, where `later` is what the turns after it hand over.
  unfoldable pub turn :
      Request → GoString → ℕ → Time → Delivery → List Event → Received T → List Event
  turn request worker_id expected now d later end_of_stream =
      deliver_attempt d (failed unexpected_eof) []
  turn request worker_id expected now d later (broken e) =
      deliver_attempt d (failed (transport e)) []
  turn request worker_id expected now d later (message wire) =
      elim (accept request worker_id expected now wire) [
        | err f ↦ deliver_attempt d (failed f) []
        | ok c ↦ deliver_attempt d (chunk c) (if c.final then [] else later)
      ]

  -- The loop: the events that reach the channel. It ends with the rounds when the stream is still open.
  unfoldable pub receive : Request → GoString → ℕ → List (Round T) → List Event
  receive request worker_id expected [] = []
  receive request worker_id expected (r ∷ rs) =
      let later = receive request worker_id (add_u32 expected 1) rs in
      turn request worker_id expected r.now r.delivery later r.received
