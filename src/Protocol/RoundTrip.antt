-- ===== src/Protocol/RoundTrip.antt =====
-- What one side sends, the other side reads.
use aether_serve.Base.{
  ◌≡◌, refl, sym, ap, Bool, true, false, if◌then◌else◌, some, List, [], ◌∷◌, ok,
}
use aether_serve.Base.Text.{GoString, str_eq_refl}
use aether_serve.Clock.{Time}
use aether_serve.Model.{
  Message, PrefixFingerprint, WorkerStatus, WorkerState, Request, FinishReason, Chunk,
  protocol_version,
}
use aether_serve.Registry.Valid.{IsKnown}
use aether_serve.Wire
use aether_serve.Wire.{Timestamps}
use aether_serve.Protocol.{
  messages_to_proto, messages_from_proto, prefixes_to_proto, prefixes_from_proto, status_to_proto,
  status_from_proto, finish_to_proto, finish_from_proto, cached_to_proto, cached_from_proto,
  timestamp_from_proto, state_to_proto, state_from_proto, request_to_proto, chunk_reason,
  chunk_from_proto, chunk_to_proto,
}

pub messages_round_trip : (ms : List Message) → messages_from_proto (messages_to_proto ms) ≡ ms
unfolding messages_to_proto messages_from_proto
messages_round_trip [] = refl
messages_round_trip (m ∷ ms) = ap (◌∷◌ m) (messages_round_trip ms)

pub prefixes_round_trip :
    (ps : List PrefixFingerprint) → prefixes_from_proto (prefixes_to_proto ps) ≡ ps
unfolding prefixes_to_proto prefixes_from_proto
prefixes_round_trip [] = refl
prefixes_round_trip (p ∷ ps) = ap (◌∷◌ p) (prefixes_round_trip ps)

cached_round_trip : (ps : List PrefixFingerprint) → cached_from_proto (cached_to_proto ps) ≡ ok ps
unfolding cached_to_proto cached_from_proto
cached_round_trip [] = refl
cached_round_trip (p ∷ ps) = rw (cached_round_trip ps) refl

status_round_trip : (s : WorkerStatus) → IsKnown s → status_from_proto (status_to_proto s) ≡ ok s
unfolding status_to_proto status_from_proto
status_round_trip WorkerStatus.healthy k = refl
status_round_trip WorkerStatus.draining k = refl
status_round_trip WorkerStatus.unhealthy k = refl
status_round_trip (WorkerStatus.other s) k = absurd k

-- A reason that ends a stream.
abbrev pub IsFinish : FinishReason → Type 0
IsFinish (FinishReason.other s) = ⊥
IsFinish _ = Unit {0}

finish_round_trip : (r : FinishReason) → IsFinish r → finish_from_proto (finish_to_proto r) ≡ ok r
unfolding finish_to_proto finish_from_proto
finish_round_trip FinishReason.stop k = refl
finish_round_trip FinishReason.length k = refl
finish_round_trip FinishReason.cancelled k = refl
finish_round_trip FinishReason.error k = refl
finish_round_trip (FinishReason.other s) k = absurd k

chunk_reason_round_trip :
    (final : Bool) (reason : FinishReason)
    → (final ≡ true → IsFinish reason)
    → (final ≡ false → reason ≡ FinishReason.other [])
    → chunk_reason final (if final then finish_to_proto reason else Wire.FinishReason.unspecified)
      ≡ ok reason
chunk_reason_round_trip true reason f g = finish_round_trip reason (f refl)
chunk_reason_round_trip false reason f g = ap ok (sym (g refl))

module _ {T : Type 0} (ts : Timestamps T) where
  -- A time that a timestamp of the wire holds: the years 1 to 9999.
  pub record IsCarried (t : Time) : Type 0 where
    pub valid : ts.check_valid (ts.from_time t) ≡ true
    pub same : ts.as_time (ts.from_time t) ≡ t

  -- A worker state of a known status, observed at a time that a timestamp holds, is read from the wire
  -- as it was sent.
  pub state_round_trip :
      {F : Type 0} (s : WorkerState F)
      → IsKnown s.status
      → IsCarried s.observed_at
      → state_from_proto ts (some (state_to_proto ts s)) ≡ ok s
  unfolding state_to_proto state_from_proto timestamp_from_proto
  state_round_trip s k c =
      rw (status_round_trip s.status k, c.valid, cached_round_trip s.cached_prefixes, c.same) refl

  -- A chunk, made at a time that a timestamp holds, whose reason ends a stream if it is final and is empty if it is
  -- not, is read from the wire as it was sent, whenever it is read.
  pub chunk_round_trip :
      (now : Time) (c : Chunk)
      → (c.final ≡ true → IsFinish c.reason)
      → (c.final ≡ false → c.reason ≡ FinishReason.other [])
      → IsCarried c.at
      → chunk_from_proto ts now (some (chunk_to_proto ts c)) ≡ ok c
  unfolding chunk_to_proto chunk_from_proto
  chunk_round_trip now c f g h =
      rw
        (
          str_eq_refl protocol_version,
          h.valid,
          chunk_reason_round_trip c.final c.reason f g,
          h.same,
        )
        refl

  -- A worker reads from a request the messages and the fingerprints that the router put in, in order.
  pub request_delivered :
      (r : Request) (worker_id : GoString)
      → (messages_from_proto (request_to_proto ts r worker_id).messages ≡ r.messages)
        × (prefixes_from_proto (request_to_proto ts r worker_id).prefix_fingerprints
            ≡ r.prefix_fingerprints)
  unfolding request_to_proto
  request_delivered r worker_id =
      (messages_round_trip r.messages, prefixes_round_trip r.prefix_fingerprints)
