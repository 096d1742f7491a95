-- ===== src/Gateway/Http/Documented.antt =====
-- The responses against docs/api-contract.md.
use mathlib.Core.List.{Memᴰ}
use aether_serve.Base.{ℕ, ◌≡◌, refl, false, List, [], ◌∷◌, ap, sym, ◌⊎◌, ◌≤◌, length}
use aether_serve.Base.Text.{GoString, str, is_empty}
use aether_serve.Float.{Float}
use aether_serve.Gateway.Request
use aether_serve.Gateway.Chat.{
  Server, Incoming, Response, bad_request, unavailable, too_many_requests, internal_error,
  gateway_timeout, bad_gateway, streamed, silent,
}
use aether_serve.Gateway.Http.{
  Content, fault, frames, HttpResponse, Texts, known_id, write_json, write_api_error,
  stream_response, http_response, chat_id,
}
use aether_serve.Gateway.Chat.Settled.{IsProper}
use aether_serve.Gateway.Request.{Libraries, any_of}

-- A row of the contract's table of errors.
pub record Row : Type 0 where
  pub status : ℕ
  pub kind : GoString
  pub code : GoString

abbrev row : ℕ → GoString → GoString → Row
row n k c = record { status = n; kind = k; code = c }

abbrev pub rows : List Row
rows =
    row 400 (str "invalid_request_error") (str "invalid_request")
    ∷ row 429 (str "rate_limit_error") (str "admission_rejected")
    ∷ row 502 (str "upstream_error") (str "worker_unavailable")
    ∷ row 503 (str "service_unavailable") (str "no_healthy_workers")
    ∷ row 504 (str "timeout_error") (str "deadline_exceeded")
    ∷ row 500 (str "internal_error") (str "internal_error")
    ∷ []

-- An error body is a row of the table, and its identifier is that of the header, where it has one; anything else
-- is a stream with the status 200 and the request's identifier.
abbrev pub Accords : GoString → ℕ → List (GoString × GoString) → Content → Type 0
Accords id status headers (fault e) =
    Memᴰ (record { status = status; kind = e.kind; code = e.code }) rows
    × (is_empty e.request_id ≡ false → (e.request_id ≡ id) × Memᴰ (str "X-Request-ID", id) headers)
Accords id status headers (frames fs) = (status ≡ 200) × Memᴰ (str "X-Request-ID", id) headers
Accords id status headers _ = ⊥

abbrev pub IsDocumented : GoString → HttpResponse → Type 0
IsDocumented id h = Accords id h.status h.headers h.content

-- An error with one of the rows, and the request's identifier or none.
error-IsDocumented :
    (status : ℕ) (id known kind code message : GoString)
    → Memᴰ (row status kind code) rows
    → (is_empty known ≡ false → known ≡ id)
    → IsDocumented id (write_api_error status known kind code message)
unfolding write_api_error write_json
error-IsDocumented status id known kind code message m same =
    (m, λ e. (same e, rw e (Memᴰ.head (ap (λ x. (str "X-Request-ID", x)) (sym (same e))))))

known_id-same :
    (id : GoString) (e : Request.Error) → is_empty (known_id id e) ≡ false → known_id id e ≡ id
known_id-same id Request.request_id_too_long h = absurd (cc)
known_id-same id Request.control_character h = absurd (cc)
known_id-same id Request.no_random_bytes h = absurd (cc)
known_id-same id Request.invalid_json h = refl
known_id-same id Request.not_one_object h = refl
known_id-same id Request.missing_fields h = refl
known_id-same id Request.invalid_message h = refl
known_id-same id Request.max_tokens_outside h = refl
known_id-same id Request.token_limits h = refl
known_id-same id Request.invalid_timeout h = refl

pub http_response-IsDocumented :
    (texts : Texts) (id : GoString) (r : Response)
    → IsProper r
    → IsDocumented id (http_response texts id r)
unfolding http_response stream_response
http_response-IsDocumented texts id (bad_request e) p =
    error-IsDocumented 400 id (known_id id e) _ _ _ (Memᴰ.head refl) (known_id-same id e)
http_response-IsDocumented texts id unavailable p =
    error-IsDocumented 503 id id _ _ _ (Memᴰ.tail (Memᴰ.tail (Memᴰ.tail (Memᴰ.head refl))))
      (λ e. refl)
http_response-IsDocumented texts id (too_many_requests e) p =
    error-IsDocumented 429 id id _ _ _ (Memᴰ.tail (Memᴰ.head refl)) (λ e. refl)
http_response-IsDocumented texts id (internal_error e) p = absurd p
http_response-IsDocumented texts id gateway_timeout p =
    error-IsDocumented 504 id id _ _ _
      (Memᴰ.tail (Memᴰ.tail (Memᴰ.tail (Memᴰ.tail (Memᴰ.head refl))))) (λ e. refl)
http_response-IsDocumented texts id (bad_gateway a) p =
    error-IsDocumented 502 id id _ _ _ (Memᴰ.tail (Memᴰ.tail (Memᴰ.head refl))) (λ e. refl)
http_response-IsDocumented texts id (streamed w (fs, ending)) p =
    (refl, Memᴰ.tail (Memᴰ.tail (Memᴰ.tail (Memᴰ.tail (Memᴰ.head refl)))))
http_response-IsDocumented texts id silent p = absurd p

-- A header that can be an identifier: at most 128 bytes, and no control character.
abbrev pub IsFit : Libraries → GoString → Type 0
IsFit lib header = (length header ≤ 128) × (any_of lib.is_control (lib.runes header) ≡ false)

-- What becomes of the identifier of a header: it is that of the request, or it is not fit, and the request is refused with
-- the status 400 and leaves the server as it was.
abbrev pub IsKept :
    {F : Type 0} → Libraries → Server F → Incoming → Server F → HttpResponse → Type 0
IsKept lib s incoming t h =
    (IsFit lib incoming.request_id × (chat_id lib incoming ≡ incoming.request_id))
    ⊎ ((¬ IsFit lib incoming.request_id) × (h.status ≡ 400) × (t ≡ s))
