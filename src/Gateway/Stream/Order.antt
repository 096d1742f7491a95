-- ===== src/Gateway/Stream/Order.antt =====
-- What reaches the reader of an attempt.
use aether_serve.Base.{
  ℕ, ◌≡◌, ◌↔◌, inl, inr, refl, ap, ◌∙◌, Bool, true, false, Bool-cases, if◌then◌else◌, Option, some,
  List, [], ◌∷◌, map, Result, Result-cases, ok, err, add_u32, arith,
}
use aether_serve.Base.Text.{GoString, str_eq_iff, is_empty}
use aether_serve.Clock.{Time}
use aether_serve.Model.{Request, Chunk, FinishReason}
use aether_serve.Wire
use aether_serve.Wire.{Timestamps}
use aether_serve.Protocol.{chunk_to_proto, chunk_from_proto}
use aether_serve.Protocol.RoundTrip.{IsFinish, IsCarried, chunk_round_trip}
use aether_serve.Gateway.{Fault}
use aether_serve.Gateway.Stream.{
  Event, chunk, failed, validate_chunk, Received, message, end_of_stream, broken, Delivery,
  delivered, context_done, timed_out, Round, deliver_attempt, accept, turn, receive,
}

-- A chunk of this attempt with the index that is due, with text exactly if it is not the final one.
pub record IsDue (request : Request) (worker : GoString) (expected : ℕ) (c : Chunk) : Type 0 where
  pub request_id : c.request_id ≡ request.id
  pub attempt_id : c.attempt_id ≡ request.attempt_id
  pub worker_id : c.worker_id ≡ worker
  pub index : c.token_index ≡ expected
  pub text : is_empty c.token_text ≡ c.final

pub validate_chunk_iff :
    (c : Chunk) (request : Request) (worker_id : GoString) (expected : ℕ)
    → (validate_chunk c request worker_id expected ≡ ok tt) ↔ IsDue request worker_id expected c
unfolding validate_chunk
validate_chunk_iff c request worker_id expected = (
  λ e. ground (
    arith,
    str_eq_iff c.request_id request.id,
    str_eq_iff c.attempt_id request.attempt_id,
    str_eq_iff c.worker_id worker_id,
  ),
  λ v. ground (
    arith,
    str_eq_iff c.request_id request.id,
    str_eq_iff c.attempt_id request.attempt_id,
    str_eq_iff c.worker_id worker_id,
  ),
)

-- Chunks that are due one after the other; after a fault or a final chunk there is nothing.
abbrev pub IsOrdered : Request → GoString → ℕ → List Event → Type 0
IsOrdered request worker_id expected [] = Unit
IsOrdered request worker_id expected (failed f ∷ es) = es ≡ []
IsOrdered request worker_id expected (chunk c ∷ es) =
    IsDue request worker_id expected c
    × (if c.final then es ≡ [] else IsOrdered request worker_id (add_u32 expected 1) es)

deliver_failed :
    (request : Request) (worker_id : GoString) (expected : ℕ) (d : Delivery) (f : Fault)
    → IsOrdered request worker_id expected (deliver_attempt d (failed f) [])
deliver_failed request worker_id expected delivered f = refl
deliver_failed request worker_id expected context_done f = tt
deliver_failed request worker_id expected timed_out f = tt

module _ {T : Type 0} (ts : Timestamps T) (request : Request) (worker_id : GoString) where
  accept-IsDue :
      (expected : ℕ) (now : Time) (wire : Option (Wire.GenerateChunk T)) (c : Chunk)
      → accept ts request worker_id expected now wire ≡ ok c
      → IsDue request worker_id expected c
  unfolding accept
  accept-IsDue expected now wire c e = elim (Result-cases (chunk_from_proto ts now wire)) [
    | inr (x, q) ↦ absurd (ground (arith, q))
    | inl (b, q) ↦ ground (arith, q, (validate_chunk_iff b request worker_id expected).0)
  ]

  end_or_more :
      (next : ℕ) (later : List Event) (final : Bool)
      → IsOrdered request worker_id next later
      → let es = if final then [] else later in
        if final then es ≡ [] else IsOrdered request worker_id next es
  end_or_more next later true h = refl
  end_or_more next later false h = h

  deliver-IsOrdered :
      (expected : ℕ) (d : Delivery) (c : Chunk) (later : List Event)
      → IsDue request worker_id expected c
      → IsOrdered request worker_id (add_u32 expected 1) later
      → IsOrdered request worker_id expected
          (deliver_attempt d (chunk c) (if c.final then [] else later))
  deliver-IsOrdered expected delivered c later due h =
      (due, end_or_more (add_u32 expected 1) later c.final h)
  deliver-IsOrdered expected context_done c later due h = tt
  deliver-IsOrdered expected timed_out c later due h = tt

  result-IsOrdered :
      (expected : ℕ) (d : Delivery) (later : List Event) (r : Result Fault Chunk)
      → ((c : Chunk) → r ≡ ok c → IsDue request worker_id expected c)
      → IsOrdered request worker_id (add_u32 expected 1) later
      → IsOrdered request worker_id expected (elim r [
        | err f ↦ deliver_attempt d (failed f) []
        | ok c ↦ deliver_attempt d (chunk c) (if c.final then [] else later)
      ])
  result-IsOrdered expected d later (err f) due h = deliver_failed request worker_id expected d f
  result-IsOrdered expected d later (ok c) due h =
      deliver-IsOrdered expected d c later (due c refl) h

  turn-IsOrdered :
      (expected : ℕ) (now : Time) (d : Delivery) (later : List Event) (x : Received T)
      → IsOrdered request worker_id (add_u32 expected 1) later
      → IsOrdered request worker_id expected (turn ts request worker_id expected now d later x)
  unfolding turn
  turn-IsOrdered expected now d later end_of_stream h =
      deliver_failed request worker_id expected d _
  turn-IsOrdered expected now d later (broken e) h = deliver_failed request worker_id expected d _
  turn-IsOrdered expected now d later (message wire) h =
      result-IsOrdered expected d later (accept ts request worker_id expected now wire)
        (accept-IsDue expected now wire) h

  -- Whatever the worker sends and however the hand-overs go, what reaches the reader from an expected
  -- index on is ordered: chunks of this attempt with consecutive indices (around at 2^32) and
  -- non-empty text, then at most one fault or one final chunk without text, and nothing after it.
  pub receive-IsOrdered :
      (expected : ℕ) (rounds : List (Round T))
      → IsOrdered request worker_id expected (receive ts request worker_id expected rounds)
  unfolding receive
  receive-IsOrdered expected [] = tt
  receive-IsOrdered expected (r ∷ rs) =
      turn-IsOrdered expected r.now r.delivery _ r.received
        (receive-IsOrdered (add_u32 expected 1) rs)

  -- The rounds in which a worker's chunks arrive and are all taken.
  abbrev pub sent : Time → List Chunk → List (Round T)
  sent now cs =
      map
        (λ c. record {
          received = message (some (chunk_to_proto ts c));
          now = now;
          delivery = delivered;
        })
        cs

  -- What a worker should stream: due chunks, the last one final, as the wire carries them.
  abbrev pub IsComplete : ℕ → List Chunk → Type 0
  IsComplete expected [] = ⊥
  IsComplete expected (c ∷ cs) =
      IsDue request worker_id expected c
      × IsCarried ts c.at
      × (if c.final
          then IsFinish c.reason × (cs ≡ [])
          else (c.reason ≡ FinishReason.other []) × IsComplete (add_u32 expected 1) cs)

  accept_sent :
      (now : Time) (expected : ℕ) (c : Chunk)
      → IsDue request worker_id expected c
      → IsCarried ts c.at
      → (c.final ≡ true → IsFinish c.reason)
      → (c.final ≡ false → c.reason ≡ FinishReason.other [])
      → accept ts request worker_id expected now (some (chunk_to_proto ts c)) ≡ ok c
  unfolding accept
  accept_sent now expected c due carried f g = ground (
    arith,
    chunk_round_trip ts now c f g,
    (validate_chunk_iff c request worker_id expected).1 due,
  )

  turn_sent :
      (now : Time) (expected : ℕ) (wire : Option (Wire.GenerateChunk T)) (c : Chunk)
      (later : List Event)
      → accept ts request worker_id expected now wire ≡ ok c
      → turn ts request worker_id expected now delivered later (message wire)
        ≡ chunk c ∷ (if c.final then [] else later)
  unfolding turn
  turn_sent now expected wire c later e = ground (arith, e)

  -- A complete stream that is taken in full reaches the reader chunk by chunk, without a fault.
  pub receive_complete :
      (now : Time) (expected : ℕ) (cs : List Chunk)
      → IsComplete expected cs
      → receive ts request worker_id expected (sent now cs) ≡ map chunk cs
  unfolding receive
  receive_complete now expected [] h = absurd h
  receive_complete now expected (c ∷ cs) (due, carried, rest) =
      turn_sent now expected (some (chunk_to_proto ts c)) c
        (receive ts request worker_id (add_u32 expected 1) (sent now cs))
        (accept_sent now expected c due carried (λ q. ground (arith, rest))
          (λ q. ground (arith, rest)))
      ∙ ap (◌∷◌ (chunk c)) (elim (Bool-cases c.final) [
        | inl q ↦ ground (arith, rest)
        | inr q ↦ ground (arith, rest, receive_complete now (add_u32 expected 1) cs)
      ])
