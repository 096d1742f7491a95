-- ===== src/Gateway/Request.antt =====
-- internal/gateway/http.go: reading a request. The library's calls are
-- parameters (`Libraries`), and the decoded body is an input.
pub mod Bounds
use aether_serve.Base.{
  set, get_or, ℕ, ◌+◌, ◌-◌, ◌*◌, ◌%◌, ◌^◌, Bool, true, false, ◌||◌, ◌&&◌, not, ltb, ◌==◌,
  if◌then◌else◌, Option, none, some, List, [], ◌∷◌, ◌++◌, length, take, drop, Result, ok, err,
  ◌>>=◌, ◌>>◌, reject_if, add_u64,
}
use aether_serve.Base.Int.{ℤ, pos, negsuc, pos_part, ◌+ℤ◌, leb_ℤ, ltb_ℤ}
use aether_serve.Base.Text.{GoString, str, str_eq, is_empty}
use aether_serve.Clock.{Time, Duration}
use aether_serve.Model.{Message, Request, PrefixFingerprint}
use aether_serve.Prefix.{fingerprints}
use aether_serve.Tokenizer.{tokens, estimate}
use aether_serve.Config.{RouterConfig}

-- `strings.Fields`, `strconv.ParseInt` in base 10 and 64 bits, the runes of a string with `unicode.IsControl`,
-- SHA-256 in hex, and `hex.EncodeToString`.
pub record Libraries : Type 0 where
  pub split : GoString → List GoString
  pub parse_int : GoString → Option ℤ
  pub runes : GoString → List ℕ
  pub is_control : ℕ → Bool
  pub digest : GoString → GoString
  pub encode_hex : List ℕ → GoString

-- The body, decoded.
pub record ChatRequest : Type 0 where
  pub model : GoString
  pub messages : List Message
  pub stream : Option Bool
  pub max_tokens : Option ℕ

-- What decoding gives: no JSON object of this form, more than one value, or the request.
pub data Body : Type 0 where
  malformed trailing : Body
  decoded : ChatRequest → Body

pub data Error : Type 0 where
  request_id_too_long control_character no_random_bytes invalid_json not_one_object : Error
  missing_fields invalid_message max_tokens_outside token_limits invalid_timeout : Error

unfoldable pub any_of : (ℕ → Bool) → List ℕ → Bool
any_of p [] = false
any_of p (x ∷ xs) = p x || any_of p xs

-- The version and the variant of a UUID: `b & 0x0f | 0x40` at 6 and `b & 0x3f | 0x80` at 8.
abbrev pub mark_uuid : List ℕ → List ℕ
mark_uuid bytes =
    let marked = set bytes 6 (get_or bytes 6 0 % 16 + 64) in
    set marked 8 (get_or marked 8 0 % 64 + 128)

-- `encoded[:8] + "-" + encoded[8:12] + "-" + encoded[12:16] + "-" + encoded[16:20] + "-" + encoded[20:]`.
abbrev pub dashed : GoString → GoString
dashed s =
    take 8 s
    ++ str "-"
    ++ take 4 (drop 8 s)
    ++ str "-"
    ++ take 4 (drop 12 s)
    ++ str "-"
    ++ take 4 (drop 16 s)
    ++ str "-"
    ++ drop 20 s

-- `clientRequestID`; `random` is the 16 bytes of `rand.Read`, or none when it fails.
unfoldable pub client_request_id : Libraries → Option (List ℕ) → GoString → Result Error GoString
client_request_id lib none [] = err no_random_bytes
client_request_id lib (some bytes) [] = ok (dashed (lib.encode_hex (mark_uuid bytes)))
client_request_id lib random (b ∷ raw) =
    reject_if (ltb 128 (length (b ∷ raw))) request_id_too_long
    >> reject_if (any_of lib.is_control (lib.runes (b ∷ raw))) control_character
    >> ok (b ∷ raw)

abbrev pub supported_role : GoString → Bool
supported_role role =
    str_eq role (str "system") || str_eq role (str "user") || str_eq role (str "assistant")

unfoldable pub valid_messages : List Message → Result Error (Unit {0})
valid_messages [] = ok tt
valid_messages (m ∷ ms) =
    reject_if (is_empty m.content || not (supported_role m.role)) invalid_message
    >> valid_messages ms

-- A signed 64-bit word.
abbrev pub wrap_i64 : ℕ → ℤ
wrap_i64 n = let r : ℕ = n % 2 ^ 64 in if ltb r (2 ^ 63) then pos r else negsuc (2 ^ 64 - 1 - r)

abbrev pub clamp : ℤ → ℤ → ℤ → ℤ
clamp low high t =
    let raised : ℤ = if ltb_ℤ t low then low else t in if ltb_ℤ high raised then high else raised

-- A timeout of the header, in milliseconds, as a duration within the limits.
abbrev pub limited : {F : Type 0} → RouterConfig F → Option ℤ → Result Error Duration
limited c none = err invalid_timeout
limited c (some ms) =
    if leb_ℤ ms (pos 0)
    then err invalid_timeout
    else ok (clamp c.min_request_timeout c.max_request_timeout (wrap_i64 (pos_part ms * 1000000)))

abbrev pub is_streaming : Option Bool → Bool
is_streaming (some true) = true
is_streaming _ = false

abbrev pub no_messages : List Message → Bool
no_messages [] = true
no_messages _ = false

abbrev pub output_limit : {F : Type 0} → RouterConfig F → Option ℕ → ℕ
output_limit c none = c.default_max_output_tokens
output_limit c (some n) = n

-- `ensureEOF` and the decoding before it.
abbrev pub read_body : Body → Result Error ChatRequest
read_body malformed = err invalid_json
read_body trailing = err not_one_object
read_body (decoded input) = ok input

module _ {F : Type 0} (lib : Libraries) (c : RouterConfig F) where
  unfoldable pub effective_timeout : GoString → Result Error Duration
  effective_timeout [] = ok c.request_timeout
  effective_timeout (b ∷ header) = limited c (lib.parse_int (b ∷ header))

  -- The checks of the body.
  unfoldable pub check_input : ChatRequest → Result Error (Unit {0})
  check_input input =
      reject_if
        (not (str_eq input.model c.model)
          || not (is_streaming input.stream)
          || no_messages input.messages)
        missing_fields
      >> valid_messages input.messages
      >> reject_if
          (output_limit c input.max_tokens == 0
            || ltb c.max_output_tokens (output_limit c input.max_tokens))
          max_tokens_outside
      >> reject_if
          (ltb c.max_input_tokens (estimate lib.split input.messages)
            || ltb c.max_context_tokens
                (add_u64 (estimate lib.split input.messages) (output_limit c input.max_tokens)))
          token_limits

  -- `parseRequest`, with the headers and the time at its end; a deadline before the zero Time is the zero Time.
  unfoldable pub parse_request :
      Option (List ℕ) → GoString → GoString → GoString → Time → Body → Result Error Request
  parse_request random id_header timeout_header tenant_header now body =
      client_request_id lib random id_header >>= λ id. read_body body >>= λ input.
      check_input input >>= λ _. effective_timeout timeout_header >>= λ timeout. ok (record {
        id = id;
        attempt_id = [];
        tenant_id = if is_empty tenant_header then str "public" else tenant_header;
        model = input.model;
        messages = input.messages;
        estimated_input_token = estimate lib.split input.messages;
        expected_output_token = output_limit c input.max_tokens;
        max_output_tokens = output_limit c input.max_tokens;
        prefix_fingerprints = fingerprints lib.digest (tokens lib.split input.messages);
        deadline = pos_part (pos now +ℤ timeout);
      })
