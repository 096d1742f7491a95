-- ===== src/MockWorker/Queue/Delivered.antt =====
-- A call of `Generate` that returns without an error, from its chunks to what the client of the router reads.
use aether_serve.Base.{
  ℕ, zero, suc, ◌+◌, ◌<◌, ◌≡◌, ◌∙◌, refl, ap, subst, sym, true, false, Bool-cases, inl, inr, none,
  some, List, [], ◌∷◌, get_elem?, All, arith, add_u32, if_both,
}
use aether_serve.Base.Text.{GoString}
use aether_serve.Float.{Float}
use aether_serve.Clock.{Time}
use aether_serve.Model.{Request, Chunk, FinishReason}
use aether_serve.Wire.{Timestamps}
use aether_serve.Protocol.{request_to_proto}
use aether_serve.Protocol.RoundTrip.{IsCarried, IsFinish}
use aether_serve.Gateway.Stream.{receive}
use aether_serve.Gateway.Stream.Order.{IsComplete, IsDue, sent}
use aether_serve.Gateway.Commit
use aether_serve.Gateway.Commit.{Frame, completed, is_error, forward}
use aether_serve.Gateway.Commit.Transcript.{frames, writes, stream_faithful}
use aether_serve.MockWorker.{Worker}
use aether_serve.MockWorker.Job.{output_count, finish_reason}
use aether_serve.MockWorker.Job.Delivery.{finish_reason-IsFinish, finish_reason-fine}
use aether_serve.MockWorker.Queue.{Call, returns, System, Reach}
use aether_serve.MockWorker.Queue.Numbered.{Origin, origin_of, IsChunkOf, IsStreamed, ends_final}
use aether_serve.MockWorker.Queue.Streams.{generate-IsStreamed}

module _ {T : Type 0} (ts : Timestamps T) (q : Request) (worker : Origin) where
  IsChunkOf-IsDue :
      (n : ℕ) (c : Chunk)
      → IsChunkOf (request_to_proto ts q worker.id) worker n c
      → IsDue q worker.id n c
  unfolding request_to_proto
  IsChunkOf-IsDue n c v = record {
    request_id = v.request_id;
    attempt_id = v.attempt_id;
    worker_id = v.worker_id;
    index = v.index;
    text = v.text;
  }

  chunk-fine :
      (n : ℕ) (c : Chunk)
      → IsChunkOf (request_to_proto ts q worker.id) worker n c
      → is_error c.reason ≡ false
  unfolding request_to_proto
  chunk-fine n c v = rw v.reason (
      if_both (λ r. is_error r ≡ false) c.final (finish_reason q.max_output_tokens)
        (FinishReason.other []) (finish_reason-fine q.max_output_tokens) refl)

  streamed-fine :
      (n : ℕ) (cs : List Chunk)
      → IsStreamed (request_to_proto ts q worker.id) worker n cs
      → All (λ c. is_error c.reason ≡ false) cs
  streamed-fine n [] h = tt
  streamed-fine n (c ∷ cs) (d, h) = (
    chunk-fine n c d,
    elim (Bool-cases c.final) [
      | inl f ↦
          let nothing : cs ≡ [] = ground (arith, f, h) in
          subst (All (λ c. is_error c.reason ≡ false)) (sym nothing) tt
      | inr f ↦ streamed-fine (suc n) cs (ground (arith, f, h))
    ],
  )

  IsStreamed-IsComplete :
      (n : ℕ) (cs : List Chunk)
      → IsStreamed (request_to_proto ts q worker.id) worker n cs
      → ends_final cs ≡ true
      → All (λ c. IsCarried ts c.at) cs
      → IsComplete ts q worker.id n cs
  unfolding request_to_proto
  IsStreamed-IsComplete n [] h e carried = absurd (cc)
  IsStreamed-IsComplete n (c ∷ []) (d, h) e (x, carried) =
      let why : c.reason ≡ finish_reason q.max_output_tokens = ground (arith, e, d.reason) in
      (
        IsChunkOf-IsDue n c d,
        x,
        rw e (subst IsFinish (sym why) (finish_reason-IsFinish q.max_output_tokens), refl),
      )
  IsStreamed-IsComplete n (c ∷ b ∷ cs) (d, h) e (x, carried) = elim (Bool-cases c.final) [
    | inl f ↦ absurd (ground (arith, f, h))
    | inr f ↦
        let few : n < 8 = ground (arith, d.token f) in
        let next : suc n ≡ add_u32 n 1 = omega (arith, few) in
        let rest = IsStreamed-IsComplete (suc n) (b ∷ cs) (ground (arith, f, h)) e carried in
        (
          IsChunkOf-IsDue n c d,
          x,
          rw f (
            ground (arith, f, d.reason),
            subst (λ i. IsComplete ts q worker.id i (b ∷ cs)) next rest,
          ),
        )
  ]

  -- What the client should read from the index `n` on: the tokens, the completion and the end marker.
  abbrev pub reply_of : ℕ → ℕ → List Frame
  reply_of zero n = Commit.completion (finish_reason q.max_output_tokens) ∷ Commit.done ∷ []
  reply_of (suc left) n = Commit.token (worker.tokens q.id n) ∷ reply_of left (suc n)

  frames-streamed :
      (n left : ℕ) (cs : List Chunk)
      → IsStreamed (request_to_proto ts q worker.id) worker n cs
      → ends_final cs ≡ true
      → n + left ≡ output_count q.max_output_tokens
      → frames cs ≡ reply_of left n
  unfolding request_to_proto
  frames-streamed n left [] h e m = absurd (cc)
  frames-streamed n zero (c ∷ []) (d, h) e m = ground (arith, e, d.reason)
  frames-streamed n (suc left) (c ∷ []) (d, h) e m = absurd (omega (arith, m, d.end e))
  frames-streamed n zero (c ∷ b ∷ cs) (d, h) e m = elim (Bool-cases c.final) [
    | inl f ↦ absurd (ground (arith, f, h))
    | inr f ↦ absurd (omega (arith, m, d.token f))
  ]
  frames-streamed n (suc left) (c ∷ b ∷ cs) (d, h) e m = elim (Bool-cases c.final) [
    | inl f ↦ absurd (ground (arith, f, h))
    | inr f ↦
        let rest =
          frames-streamed (suc n) left (b ∷ cs) (ground (arith, f, h)) e (omega (arith, m)) in
        ground (arith, f, d.content f, rest)
  ]

module _ {F T : Type 0} ⦃fl : Float F⦄ (digest : GoString → GoString) (capacity : ℕ)
    (ts : Timestamps T) where
  -- A worker at any moment, with calls that interleave, and a call for a request of the router that has returned
  -- without an error, whose chunk times a timestamp holds, and whose stream is taken in full and written in full: the
  -- client of the router reads the tokens 0, 1, and so on that the worker's seed and the request determine, as many as
  -- were asked for and at most 8, then the completion with its reason and the end marker.
  pub generate_delivered :
      {w : Worker F} {s : System F T} (q : Request) (now : Time) (i : ℕ) {k : Call T}
      → Reach digest capacity w s
      → get_elem? s.calls i ≡ some k
      → k.request ≡ request_to_proto ts q w.config.id
      → k.phase ≡ returns none
      → All (λ c. IsCarried ts c.at) k.sent
      → forward (writes (receive ts q w.config.id 0 (sent ts q w.config.id now k.sent)))
        ≡ (reply_of ts q (origin_of digest w) (output_count q.max_output_tokens) 0, completed)
  generate_delivered {w} q now i {k} r g e p carried =
      let o = origin_of digest w in
      let (streamed, ended) = generate-IsStreamed digest capacity r i g in
      let h = subst (λ x. IsStreamed x o 0 k.sent) e streamed in
      stream_faithful ts q w.config.id now 0 k.sent
        (IsStreamed-IsComplete ts q o 0 k.sent h (ended p) carried)
        (streamed-fine ts q o 0 k.sent h)
      ∙ ap (λ fs. (fs, completed))
          (frames-streamed ts q o 0 (output_count q.max_output_tokens) k.sent h (ended p)
            (omega arith))
