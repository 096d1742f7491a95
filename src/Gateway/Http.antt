-- ===== src/Gateway/Http.antt =====
-- internal/gateway/http.go: what a handled request sends over HTTP: the status, the headers and the body. The encoding of
-- the body as JSON, which the code leaves to encoding/json, is not modelled.
pub mod Documented
use aether_serve.Base.{
  ℕ, Bool, true, false, if◌then◌else◌, Option, none, some, List, [], ◌∷◌, ◌++◌, Result, ok, err,
}
use aether_serve.Base.Text.{GoString, str, is_empty}
use aether_serve.Admission
use aether_serve.Gateway.{Fault}
use aether_serve.Gateway.Commit.{Frame, Ending}
use aether_serve.Gateway.Attempts.{Answer}
use aether_serve.Gateway.Request
use aether_serve.Float.{Float}
use aether_serve.Admission.{Panic}
use aether_serve.Gateway.Request.{Libraries, client_request_id}
use aether_serve.Gateway.Chat.{
  Server, Incoming, Surroundings, handle_chat, Response, bad_request, unavailable,
  too_many_requests, internal_error, gateway_timeout, bad_gateway, streamed, silent,
}

-- `apiErrorBody`.
pub record ApiError : Type 0 where
  pub message : GoString
  pub kind : GoString
  pub code : GoString
  pub request_id : GoString

pub data Content : Type 0 where
  nothing : Content
  fault : ApiError → Content
  status_text : GoString → Content
  frames : List Frame → Content

pub record HttpResponse : Type 0 where
  pub status : ℕ
  pub headers : List (GoString × GoString)
  pub content : Content

-- `writeJSON`, after the headers that are set.
unfoldable pub write_json : List (GoString × GoString) → ℕ → Content → HttpResponse
write_json headers status content = record {
  status = status;
  headers = headers ++ (str "Content-Type", str "application/json") ∷ [];
  content = content;
}

-- `writeAPIError`.
unfoldable pub write_api_error : ℕ → GoString → GoString → GoString → GoString → HttpResponse
write_api_error status request_id kind code message =
    write_json (if is_empty request_id then [] else (str "X-Request-ID", request_id) ∷ []) status
      (fault (record { message = message; kind = kind; code = code; request_id = request_id }))

-- `handleLive`, and the response of `handleReady`.
abbrev pub live : HttpResponse
live = write_json [] 200 (status_text (str "live"))

abbrev pub ready_response : Bool → HttpResponse
ready_response true = write_json [] 200 (status_text (str "ready"))
ready_response false = write_json [] 503 (status_text (str "not_ready"))

-- `writeStreamHeaders`, and the frames after it.
unfoldable pub stream_response : GoString → List Frame → HttpResponse
stream_response request_id fs = record {
  status = 200;
  headers =
      (str "Content-Type", str "text/event-stream; charset=utf-8")
      ∷ (str "Cache-Control", str "no-cache")
      ∷ (str "Connection", str "keep-alive")
      ∷ (str "X-Accel-Buffering", str "no")
      ∷ (str "X-Request-ID", request_id)
      ∷ [];
  content = frames fs;
}

-- The request's identifier in a refusal of the request: none where it has none.
abbrev pub known_id : GoString → Request.Error → GoString
known_id id Request.request_id_too_long = []
known_id id Request.control_character = []
known_id id Request.no_random_bytes = []
known_id id _ = id

-- The texts of the errors, as `Error` gives them.
pub record Texts : Type 0 where
  pub request : Request.Error → GoString
  pub admission : Admission.Error → GoString
  pub answer : Answer → GoString

-- What `handleChat` sends for a request with this identifier.
unfoldable pub http_response : Texts → GoString → Response → HttpResponse
http_response texts id (bad_request e) =
    write_api_error 400 (known_id id e) (str "invalid_request_error") (str "invalid_request")
      (texts.request e)
http_response texts id unavailable =
    write_api_error 503 id (str "service_unavailable") (str "no_healthy_workers")
      (str "no eligible healthy workers")
http_response texts id (too_many_requests e) =
    write_api_error 429 id (str "rate_limit_error") (str "admission_rejected") (texts.admission e)
http_response texts id (internal_error e) =
    write_api_error 500 id (str "internal_error") (str "internal_error") (texts.admission e)
http_response texts id gateway_timeout =
    write_api_error 504 id (str "timeout_error") (str "deadline_exceeded")
      (str "request deadline expired")
http_response texts id (bad_gateway a) =
    write_api_error 502 id (str "upstream_error") (str "worker_unavailable") (texts.answer a)
http_response texts id (streamed worker_id (fs, ending)) = stream_response id fs
-- The server's own response where a handler returns without a write.
http_response texts id silent = record { status = 200; headers = []; content = nothing }

abbrev pub id_or_empty : Result Request.Error GoString → GoString
id_or_empty (ok id) = id
id_or_empty (err e) = []

-- The request's identifier, empty where the header is refused.
unfoldable pub chat_id : Libraries → Incoming → GoString
chat_id lib incoming = id_or_empty (client_request_id lib incoming.random incoming.request_id)

module _ {F : Type 0} where
  abbrev pub send :
      (Response → HttpResponse)
      → Result Panic (Server F × Response)
      → Result Panic (Server F × HttpResponse)
  send f (ok (s, r)) = ok (s, f r)
  send f (err p) = err p

module _ {F : Type 0} ⦃fl : Float F⦄ where
  -- `handleChat`, to what it sends.
  unfoldable pub handle_chat_http :
      Texts
      → Libraries
      → Server F
      → Incoming
      → Surroundings F
      → Result Panic (Server F × HttpResponse)
  handle_chat_http texts lib s incoming env =
      send (http_response texts (chat_id lib incoming)) (handle_chat lib s incoming env)
