-- ===== src/Loadgen/Client/Stream.antt =====
-- What the client makes of the router's streams.
use aether_serve.Base.{ℕ, ◌≡◌, refl, true, false, Bool-cases, inl, inr, none, List, [], ◌∷◌}
use aether_serve.Base.Text.{GoString, str, str_eq}
use aether_serve.Float.{Float}
use aether_serve.Gateway.Commit.{Frame, token, Turn, event, forward, forward_turn}
use aether_serve.Gateway.Stream.{chunk}
use aether_serve.Model.{Chunk}
use aether_serve.Gateway.Sse.{write_frame, write_body}
use aether_serve.Loadgen.{is_success}
use aether_serve.Loadgen.Client.{scan, response, execute, measured}

-- Once a token event was read, no further line changes that.
scan-found : (lines : List GoString) → scan true lines ≡ true
unfolding scan
scan-found [] = refl
scan-found (line ∷ lines) = elim (Bool-cases (str_eq line (str "data: [DONE]"))) [
  | inl q ↦ rw q refl
  | inr q ↦ rw q (scan-found lines)
]

-- A body that begins with a token.
scan-token :
    (marshal : Frame → GoString) (t : GoString) (fs : List Frame)
    → scan false (write_body marshal (token t ∷ fs)) ≡ true
unfolding scan write_body write_frame str_eq
scan-token marshal t fs = elim (Bool-cases (str_eq (marshal (token t)) (str "[DONE]"))) [
  | inl q ↦ rw q refl
  | inr q ↦ rw q (scan-found (write_body marshal fs))
]

module _ {F : Type 0} ⦃fl : Float F⦄ where
  -- A response of status 200 whose first token was written, and which the client reads in full, is a success for the client,
  -- however the stream goes on: also where it ends in an error event instead of a completion.
  pub execute-forward :
      (marshal : Frame → GoString) (index : ℕ) (text : GoString) (c : Chunk) (turns : List Turn)
      (ttft latency : F)
      → c.final ≡ false
      → let (frames, ending) = forward (event (chunk c) true ∷ turns) in
        is_success (execute index (response 200 text (write_body marshal frames) none) ttft latency)
        ≡ true
  unfolding forward forward_turn execute measured
  execute-forward marshal index text c turns ttft latency q =
      rw (q, scan-token marshal c.token_text (forward turns).0) refl
