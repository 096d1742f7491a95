-- ===== src/Gateway/Channel.antt =====
-- internal/gateway/http.go: an attempt's channel of events between `receiveAttempt`, which runs beside the handler of
-- the request, and that handler. One step is one use of the stream or of the channel.
pub mod Refines
use aether_serve.Base.{
  ℕ, ◌<◌, ◌≡◌, Bool, true, false, not, if◌then◌else◌, List, [], ◌∷◌, ◌++◌, length, Result, ok, err,
  ◌>>◌, ◌>>=◌, add_u32,
}
use aether_serve.Base.Text.{GoString}
use aether_serve.Clock.{Time}
use aether_serve.Model.{Request}
use aether_serve.Wire.{Timestamps}
use aether_serve.Grpc.{Transport}
use aether_serve.Gateway.{unexpected_eof, transport}
use aether_serve.Gateway.Stream.{
  Event, chunk, failed, Received, message, end_of_stream, broken, Delivery, delivered, context_done,
  timed_out, Round, accept,
}

-- Where `receiveAttempt` stands: before `stream.Recv` with the expected index, in `deliverAttempt`, or returned, which
-- has closed the channel.
pub data Receiver (T : Type 0) : Type 0 where
  receives : ℕ → Receiver T
  delivers : ℕ → Time → Received T → Receiver T
  returned : Receiver T

-- `buffer` is what the channel holds and `read` what the handler has taken from it; `cancelled` says whether the context
-- of the attempt is done. `rounds` records the turns of the loop of `receiveAttempt`.
pub record Attempt (T : Type 0) : Type 0 where
  pub receiver : Receiver T
  pub buffer : List Event
  pub read : List Event
  pub cancelled : Bool
  pub rounds : List (Round T)

module _ {T : Type 0} where
  abbrev pub new_attempt : Attempt T
  new_attempt = record {
    receiver = receives 0;
    buffer = [];
    read = [];
    cancelled = false;
    rounds = [];
  }

  -- `openAttempt`, by what the pool and the worker's client return.
  unfoldable pub open_attempt :
      Result Transport (Unit {0}) → Result Transport (Unit {0}) → Result Transport (Attempt T)
  open_attempt client stream = client >> (stream >> ok new_attempt)

-- After this event the loop goes on.
abbrev pub goes_on : Event → Bool
goes_on (failed f) = false
goes_on (chunk c) = not c.final

abbrev pub round : {T : Type 0} → Time → Received T → Delivery → Round T
round now x d = record { received = x; now = now; delivery = d }

module _ {T : Type 0} (ts : Timestamps T) (request : Request) (worker_id : GoString) where
  -- The event of what is received.
  abbrev pub event_of : ℕ → Time → Received T → Event
  event_of expected now end_of_stream = failed unexpected_eof
  event_of expected now (broken e) = failed (transport e)
  event_of expected now (message wire) = elim (accept ts request worker_id expected now wire) [
    | err f ↦ failed f
    | ok c ↦ chunk c
  ]

  -- Where the receiver stands after a delivery.
  abbrev pub after_delivery : ℕ → Event → Receiver T
  after_delivery expected e = if goes_on e then receives (add_u32 expected 1) else returned

  pub data Step (capacity : ℕ) (s : Attempt T) : Attempt T → Type 0 where
    receive_next :
        {n : ℕ} (now : Time) (x : Received T)
        → s.receiver ≡ receives n
        → Step capacity s (record s { receiver = delivers n now x })
    put :
        {n : ℕ} {now : Time} {x : Received T}
        → s.receiver ≡ delivers n now x
        → length s.buffer < capacity
        → Step capacity s (record s {
          receiver = after_delivery n (event_of n now x);
          buffer = s.buffer ++ event_of n now x ∷ [];
          rounds = s.rounds ++ round now x delivered ∷ [];
        })
    give_up :
        {n : ℕ} {now : Time} {x : Received T}
        → s.receiver ≡ delivers n now x
        → s.cancelled ≡ true
        → Step capacity s
            (record s { receiver = returned; rounds = s.rounds ++ round now x context_done ∷ [] })
    slow_client :
        {n : ℕ} {now : Time} {x : Received T}
        → s.receiver ≡ delivers n now x
        → Step capacity s
            (record s { receiver = returned; rounds = s.rounds ++ round now x timed_out ∷ [] })
    get :
        {e : Event} {es : List Event}
        → s.buffer ≡ e ∷ es
        → Step capacity s (record s { buffer = es; read = s.read ++ e ∷ [] })
    cancel : Step capacity s (record s { cancelled = true })

  -- What `openAttempt` starts, and what it comes to.
  pub data Reach (capacity : ℕ) : Attempt T → Type 0 where
    start : Reach capacity new_attempt
    later : {s t : Attempt T} → Reach capacity s → Step capacity s t → Reach capacity t
