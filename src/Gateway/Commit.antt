-- ===== src/Gateway/Commit.antt =====
-- internal/gateway/http.go: `forwardCommitted`, which sends the events of an attempt to the client once the
-- response has begun. What each turn of its `select` meets is the input.
pub mod Transcript
use aether_serve.Base.{Bool, true, false, if◌then◌else◌, List, [], ◌∷◌}
use aether_serve.Base.Text.{GoString}
use aether_serve.Model.{FinishReason, Chunk}
use aether_serve.Gateway.{Fault}
use aether_serve.Gateway.Stream.{Event, chunk, failed}

-- What an error event tells the client.
pub data Notice : Type 0 where
  closed_without_completion terminal_error : Notice
  fault : Fault → Notice

-- The writes to the client, each with what is particular to it.
pub data Frame : Type 0 where
  token : GoString → Frame
  completion : FinishReason → Frame
  stream_error : Notice → Frame
  done : Frame

-- A turn of the `select`: an event, with whether the client could be written to, the closed channel, or the
-- end of the context.
pub data Turn : Type 0 where
  event : Event → Bool → Turn
  closed context_done : Turn

-- How forwarding stands after the given turns; each of the last three has its counter in the code.
pub data Ending : Type 0 where
  streaming completed midstream_failure client_cancellation : Ending

-- `reason == FinishError`.
abbrev pub is_error : FinishReason → Bool
is_error FinishReason.error = true
is_error _ = false

-- The first error event, and the end marker after it.
abbrev pub give_up : Notice → List Frame × Ending
give_up n = (stream_error n ∷ done ∷ [], midstream_failure)

-- One turn, where `later` is what the turns after it do.
unfoldable pub forward_turn : Turn → List Frame × Ending → List Frame × Ending
forward_turn closed later = give_up closed_without_completion
forward_turn context_done later = ([], client_cancellation)
forward_turn (event (failed f) wrote) later = give_up (fault f)
forward_turn (event (chunk c) wrote) later =
    if c.final
    then (if is_error c.reason
        then give_up terminal_error
        else (completion c.reason ∷ done ∷ [], completed))
    else if wrote
    then (token c.token_text ∷ later.0, later.1)
    else ([], client_cancellation)

unfoldable pub forward : List Turn → List Frame × Ending
forward [] = ([], streaming)
forward (t ∷ ts) = forward_turn t (forward ts)
