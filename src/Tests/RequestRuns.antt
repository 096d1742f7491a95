-- ===== src/Tests/RequestRuns.antt =====
-- Reading a request. Each byte is a token here, and every header parses as one number.
use aether_serve.Base.{◌+◌, ◌≤◌, ◌<◌, refl, true, none, some, List, [], ◌∷◌, arith, ltb}
use aether_serve.Base.Int.{pos}
use aether_serve.Base.Text.{GoString, str, str_eq}
use aether_serve.Model.{Request}
use aether_serve.Prefix.{fingerprints}
use aether_serve.Tokenizer.{canonicalize}
use aether_serve.Gateway.Request.{
  Libraries, Body, decoded, any_of, client_request_id, valid_messages, effective_timeout,
  check_input, parse_request,
}
use aether_serve.Gateway.Request.Bounds.{parse_request-within}
use aether_serve.Tests.WorkerRuns.{router_config}

abbrev split_bytes : GoString → List GoString
split_bytes [] = []
split_bytes (b ∷ s) = (b ∷ []) ∷ split_bytes s

abbrev pub lib : Libraries
lib = record {
  split = split_bytes;
  parse_int = λ s. some (pos 99999999999999);
  runes = λ s. s;
  is_control = λ r. ltb r 32;
  digest = λ s. s;
  encode_hex = λ bytes. bytes;
}

abbrev pub body : Body
body = decoded (record {
  model = str "m";
  messages = record { role = str "user"; content = str "hi" } ∷ [];
  stream = some true;
  max_tokens = none;
})

abbrev parsed : Request
parsed = record {
  id = str "q";
  attempt_id = [];
  tenant_id = str "public";
  model = str "m";
  messages = record { role = str "user"; content = str "hi" } ∷ [];
  estimated_input_token = 8;
  expected_output_token = 8;
  max_output_tokens = 8;
  prefix_fingerprints = [];
  deadline = 15;
}

parse_request-within_example : (0 < 8) × (8 ≤ 16) × (8 ≤ 100) × (8 + 8 ≤ 200)
unfolding parse_request client_request_id any_of check_input valid_messages effective_timeout
    canonicalize fingerprints str_eq
parse_request-within_example =
    parse_request-within lib router_config none (str "q") [] [] 5 body parsed (omega arith) refl
