-- ===== src/Gateway.antt =====
-- internal/gateway: how a request is answered. The errors that its parts share, with their status codes; the
-- log, which is only written, is left out.
pub mod Channel
pub mod Stream
pub mod Commit
pub mod Attempts
pub mod Server
pub mod Request
pub mod Chat
pub mod Lifecycle
pub mod Sse
pub mod Http
use aether_serve.Base.{ℕ, Bool, true, false}
use aether_serve.Grpc.{Code, Transport}
use aether_serve.Protocol

-- What can end an attempt.
pub data Fault : Type 0 where
  unexpected_eof identifiers_mismatch empty_token final_with_text generation_error : Fault
  out_of_order : ℕ → ℕ → Fault
  conversion : Protocol.Error → Fault
  transport : Transport → Fault

-- `status.Code`: Unknown for an error that carries no status.
abbrev pub code_of : Fault → Code
code_of (transport e) = e.code
code_of generation_error = Code.internal
code_of _ = Code.unknown

-- `errors.Is(err, context.Canceled)`.
abbrev pub is_canceled : Fault → Bool
is_canceled (transport e) = e.wraps_canceled
is_canceled _ = false
