-- ===== src/Gateway/Chat.antt =====
-- internal/gateway/http.go: `handleChat` as a whole, and `handleReady`. What happens around a request (headers, body, clock
-- readings, what each attempt and each turn of the forwarding meets) is its input.
pub mod Settled
use aether_serve.Base.{
  ℕ, Bool, true, false, ◌&&◌, ◌==◌, ltb, if◌then◌else◌, Option, none, some, List, [], ◌∷◌, Result,
  ok, err, add_u64,
}
use aether_serve.Base.Text.{GoString}
use aether_serve.Float.{Float}
use aether_serve.Clock.{Time}
use aether_serve.Model.{Request, Chunk}
use aether_serve.Admission
use aether_serve.Admission.{Store, Panic, reserve_lease, release, tenant_limit, global_limit}
use aether_serve.Registry.{Registry, healthy_count}
use aether_serve.Routing.{Router}
use aether_serve.Config.{RouterConfig}
use aether_serve.Gateway.Stream.{chunk}
use aether_serve.Gateway.Commit.{Turn, event, Frame, Ending, forward}
use aether_serve.Gateway.Attempts.{
  Try, Answer, no_workers, timeout_error, upstream_error, committed, unanswered, answer_request,
  is_live, Context,
}
use aether_serve.Gateway.Request
use aether_serve.Gateway.Request.{Libraries, Body, parse_request}

pub record Server (F : Type 0) : Type 0 where
  pub config : RouterConfig F
  pub registry : Registry F
  pub admission : Store F
  pub router : Router

-- The HTTP request.
pub record Incoming : Type 0 where
  pub request_id : GoString
  pub timeout : GoString
  pub tenant : GoString
  pub random : Option (List ℕ)
  pub body : Body

-- What the handler meets: the clock when it parses, counts the healthy workers and reserves; the attempts; whether
-- the first token can be written; and the turns of the forwarding.
pub record Surroundings (F : Type 0) : Type 0 where
  pub parsed_at : Time
  pub counted_at : Time
  pub reserved_at : Time
  pub tries : ℕ → Try F
  pub wrote_first : Bool
  pub turns : List Turn

-- The response, by its status: 400, 503, 429, 500, then 504 and 502 before the stream begins, and 200 with the
-- frames of the stream.
pub data Response : Type 0 where
  bad_request : Request.Error → Response
  unavailable : Response
  too_many_requests : Admission.Error → Response
  internal_error : Admission.Error → Response
  gateway_timeout : Response
  bad_gateway : Answer → Response
  streamed : GoString → List Frame × Ending → Response
  silent : Response

-- The end of the loop over the attempts, and the stream that a first chunk begins.
abbrev pub respond : Bool → List Turn → Answer → Response
respond wrote turns no_workers = unavailable
respond wrote turns timeout_error = gateway_timeout
respond wrote turns (upstream_error f) = bad_gateway (upstream_error f)
respond wrote turns (committed worker_id c) =
    streamed worker_id (forward (event (chunk c) wrote ∷ turns))
respond wrote turns unanswered = silent

-- A refused reservation.
abbrev pub refuse : Admission.Error → Response
refuse tenant_limit = too_many_requests tenant_limit
refuse global_limit = too_many_requests global_limit
refuse e = internal_error e

module _ {F : Type 0} ⦃fl : Float F⦄ where
  -- What follows a granted reservation; the lease is released when the handler returns.
  unfoldable pub serve :
      Server F → Surroundings F → Request → ℕ → Result Panic (Server F × Response)
  serve s env request lease =
      let o = answer_request env.tries request s.router in
      elim (release s.admission (some lease)) [
        | err p ↦ err p
        | ok store ↦ ok (
          record s { admission = store; router = o.router },
          respond env.wrote_first env.turns o.answer,
        )
      ]

  -- What follows the check of the healthy workers, by the outcome of the reservation.
  unfoldable pub reserved :
      Server F
      → Surroundings F
      → Request
      → Store F × Result Admission.Error ℕ
      → Result Panic (Server F × Response)
  reserved s env request (store, ok lease) =
      serve (record s { admission = store }) env request lease
  reserved s env request (store, err e) = ok (record s { admission = store }, refuse e)

  -- What follows the parsing.
  unfoldable pub admit : Server F → Surroundings F → Request → Result Panic (Server F × Response)
  admit s env request =
      if healthy_count s.registry env.counted_at == 0
      then ok (s, unavailable)
      else reserved s env request (
          reserve_lease s.admission env.reserved_at request.tenant_id
            (add_u64 request.estimated_input_token request.max_output_tokens))

  unfoldable pub parsed :
      Server F → Surroundings F → Result Request.Error Request → Result Panic (Server F × Response)
  parsed s env (err e) = ok (s, bad_request e)
  parsed s env (ok request) = admit s env request

  unfoldable pub handle_chat :
      Libraries → Server F → Incoming → Surroundings F → Result Panic (Server F × Response)
  handle_chat lib s incoming env = parsed s env (
      parse_request lib s.config incoming.random incoming.request_id incoming.timeout
        incoming.tenant env.parsed_at incoming.body)

  -- `handleReady`: is the status 200?
  abbrev pub handle_ready : Registry F → Time → Context → Bool
  handle_ready r now root = ltb 0 (healthy_count r now) && is_live root
