-- ===== src/Gateway/Commit/Transcript.antt =====
-- What the client reads after the response has begun.
use aether_serve.Base.{
  ℕ, ◌≡◌, ◌⊎◌, inl, inr, ap, ◌∙◌, true, false, Bool-cases, if◌then◌else◌, List, [], ◌∷◌, map, All,
  add_u32, arith,
}
use aether_serve.Base.Text.{GoString}
use aether_serve.Clock.{Time}
use aether_serve.Model.{Request, Chunk}
use aether_serve.Wire.{Timestamps}
use aether_serve.Gateway.Stream.{Event, chunk, receive}
use aether_serve.Gateway.Stream.Order.{sent, IsComplete, receive_complete}
use aether_serve.Gateway.Commit.{
  Frame, token, completion, stream_error, done, Turn, event, Ending, streaming, completed,
  midstream_failure, client_cancellation, is_error, forward_turn, forward,
}

-- Tokens, then what the ending calls for.
abbrev pub IsTranscript : List Frame → Ending → Type 0
IsTranscript [] e = (e ≡ streaming) ⊎ (e ≡ client_cancellation)
IsTranscript (token t ∷ fs) e = IsTranscript fs e
IsTranscript (completion r ∷ fs) e = (fs ≡ done ∷ []) × (e ≡ completed) × (is_error r ≡ false)
IsTranscript (stream_error n ∷ fs) e = (fs ≡ done ∷ []) × (e ≡ midstream_failure)
IsTranscript (done ∷ fs) e = ⊥

abbrev pub writes : List Event → List Turn
writes es = map (λ e. event e true) es

-- The frames of a stream that runs to its end.
abbrev pub frames : List Chunk → List Frame
frames [] = []
frames (c ∷ cs) =
    if c.final then completion c.reason ∷ done ∷ [] else token c.token_text ∷ frames cs

module _ {T : Type 0} (ts : Timestamps T) (request : Request) (worker_id : GoString) where
  forward_complete :
      (expected : ℕ) (cs : List Chunk)
      → IsComplete ts request worker_id expected cs
      → All (λ c. is_error c.reason ≡ false) cs
      → forward (writes (map chunk cs)) ≡ (frames cs, completed)
  unfolding forward forward_turn
  forward_complete expected [] h p = absurd h
  forward_complete expected (c ∷ cs) (due, carried, rest) p = elim (Bool-cases c.final) [
    | inl q ↦ ground (arith, rest)
    | inr q ↦ ground (arith, rest, forward_complete (add_u32 expected 1) cs)
  ]

  -- A complete stream (due chunks, the last one final and none with the error reason), taken in full
  -- from the worker and written in full to the client, reaches it token by token, in order, with the
  -- completion and the end marker.
  pub stream_faithful :
      (now : Time) (expected : ℕ) (cs : List Chunk)
      → IsComplete ts request worker_id expected cs
      → All (λ c. is_error c.reason ≡ false) cs
      → forward (writes (receive ts request worker_id expected (sent ts request worker_id now cs)))
        ≡ (frames cs, completed)
  stream_faithful now expected cs h p =
      ap (λ es. forward (writes es)) (receive_complete ts request worker_id now expected cs h)
      ∙ forward_complete expected cs h p
