-- ===== src/Gateway/Request/Bounds.antt =====
-- What a request that was read is bounded by.
use aether_serve.Base.{
  List, ℕ, ◌+◌, ◌*◌, ◌≤◌, ◌<◌, ◌^◌, ◌≡◌, false, ◌∷◌, Option, none, some, ok, arith, bind-ok,
}
use aether_serve.Base.Int.{ℤ, pos_part, ltb_ℤ}
use aether_serve.Base.Text.{GoString}
use aether_serve.Clock.{Time, Duration}
use aether_serve.Model.{Request}
use aether_serve.Config.{RouterConfig}
use aether_serve.Tokenizer.{estimate}
use aether_serve.Gateway.Request.{
  Libraries, Body, ChatRequest, clamp, wrap_i64, limited, effective_timeout, output_limit,
  check_input, client_request_id, read_body, parse_request,
}

clamp-within :
    (low high t : ℤ)
    → ltb_ℤ high low ≡ false
    → (ltb_ℤ (clamp low high t) low ≡ false) × (ltb_ℤ high (clamp low high t) ≡ false)
clamp-within low high t h = ground arith

limited-within :
    {F : Type 0} (c : RouterConfig F) (parsed : Option ℤ) (d : Duration)
    → ltb_ℤ c.max_request_timeout c.min_request_timeout ≡ false
    → limited c parsed ≡ ok d
    → (ltb_ℤ d c.min_request_timeout ≡ false) × (ltb_ℤ c.max_request_timeout d ≡ false)
limited-within c none d h e = absurd (cc)
limited-within c (some ms) d h e = ground (
  arith,
  clamp-within c.min_request_timeout c.max_request_timeout (wrap_i64 (pos_part ms * 1000000)) h,
)

module _ {F : Type 0} (lib : Libraries) (c : RouterConfig F) where
  -- Where the configured maximum is not below the minimum: a timeout that a client's header asks for, if it is
  -- accepted, lies between the two, also when its milliseconds overflow the 64-bit duration.
  pub effective_timeout-within :
      (b : ℕ) (header : GoString) (d : Duration)
      → ltb_ℤ c.max_request_timeout c.min_request_timeout ≡ false
      → effective_timeout lib c (b ∷ header) ≡ ok d
      → (ltb_ℤ d c.min_request_timeout ≡ false) × (ltb_ℤ c.max_request_timeout d ≡ false)
  unfolding effective_timeout
  effective_timeout-within b header d h e = limited-within c (lib.parse_int (b ∷ header)) d h e

  checked-bounds :
      (input : ChatRequest)
      → c.max_input_tokens + c.max_output_tokens < 2 ^ 64
      → check_input lib c input ≡ ok tt
      → let out : ℕ = output_limit c input.max_tokens in
        (0 < out)
        × (out ≤ c.max_output_tokens)
        × (estimate lib.split input.messages ≤ c.max_input_tokens)
        × (estimate lib.split input.messages + out ≤ c.max_context_tokens)
  unfolding check_input
  checked-bounds input fits e = ground arith

  -- Where the input and output limits do not overflow together: a request that was read asks for at least one output
  -- token, and its input, its output and their sum are within the configured limits.
  pub parse_request-within :
      (random : Option (List ℕ)) (id_header timeout_header tenant_header : GoString) (now : Time)
      (body : Body) (r : Request)
      → c.max_input_tokens + c.max_output_tokens < 2 ^ 64
      → parse_request lib c random id_header timeout_header tenant_header now body ≡ ok r
      → (0 < r.max_output_tokens)
        × (r.max_output_tokens ≤ c.max_output_tokens)
        × (r.estimated_input_token ≤ c.max_input_tokens)
        × (r.estimated_input_token + r.max_output_tokens ≤ c.max_context_tokens)
  unfolding parse_request
  parse_request-within random id_header timeout_header tenant_header now body r fits e =
      let (id, _, e₁) = bind-ok (client_request_id lib random id_header) _ e in
      let (input, _, e₂) = bind-ok (read_body body) _ e₁ in
      let (_, q, e₃) = bind-ok (check_input lib c input) _ e₂ in
      let (timeout, _, e₄) = bind-ok (effective_timeout lib c timeout_header) _ e₃ in
      ground (arith, checked-bounds input fits q, e₄)
