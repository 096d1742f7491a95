-- ===== src/Grpc.antt =====
-- google.golang.org/grpc/codes and the errors that carry a code.
use aether_serve.Base.{Bool}
use aether_serve.Base.Text.{GoString}

-- The codes of google.golang.org/grpc/codes.
pub data Code : Type 0 where
  ok canceled unknown invalid_argument deadline_exceeded not_found already_exists : Code
  permission_denied resource_exhausted failed_precondition aborted out_of_range : Code
  unimplemented internal unavailable data_loss unauthenticated : Code

-- An error of the transport: its status code, and whether it wraps `context.Canceled`.
pub record Transport : Type 0 where
  pub code : Code
  pub wraps_canceled : Bool
  pub message : GoString
