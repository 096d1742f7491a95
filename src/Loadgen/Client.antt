-- ===== src/Loadgen/Client.antt =====
-- cmd/loadgen/main.go: `execute`, the client of the wall-clock mode. The HTTP exchange and the scanner's lines are inputs.
pub mod Stream
use aether_serve.Base.{
  ℕ, Bool, true, false, ltb, leb, ◌||◌, ◌&&◌, if◌then◌else◌, Option, none, some, List, [], ◌∷◌,
}
use aether_serve.Base.Int.{ℤ}
use aether_serve.Base.Text.{GoString, str, str_eq}
use aether_serve.Float.{Float, of_ℕ, zero_float}
use aether_serve.Clock.{Time, Duration, sub}
use aether_serve.Loadgen.{Sample}

-- The loop over the lines: is there a token event before the end marker, given whether there was one?
unfoldable pub scan : Bool → List GoString → Bool
scan first [] = first
scan first (line ∷ lines) =
    let rest = scan (first || str_eq line (str "event: token")) lines in
    if str_eq line (str "data: [DONE]") then first || str_eq line (str "event: token") else rest

-- What the exchange gives: an error before a response, or a response by its status, the text of the status, the lines of
-- its body and the scanner's error.
pub data Exchange : Type 0 where
  no_response : GoString → Exchange
  response : ℕ → GoString → List GoString → Option GoString → Exchange

module _ {F : Type 0} ⦃fl : Float F⦄ where
  abbrev pub unsuccessful : ℕ → ℕ → GoString → Sample F
  unsuccessful index status error = record {
    request = index;
    ttft_ms = zero_float;
    latency_ms = zero_float;
    status = status;
    error = error;
  }

  -- What follows the loop, with the two times in milliseconds.
  unfoldable pub measured : ℕ → ℕ → Bool → Option GoString → F → F → Sample F
  measured index status first (some e) ttft latency = unsuccessful index status e
  measured index status false none ttft latency =
      unsuccessful index status (str "stream had no token event")
  measured index status true none ttft latency = record {
    request = index;
    ttft_ms = ttft;
    latency_ms = latency;
    status = status;
    error = [];
  }

  unfoldable pub execute : ℕ → Exchange → F → F → Sample F
  execute index (no_response e) ttft latency = unsuccessful index 0 e
  execute index (response status text lines ended) ttft latency =
      if ltb status 200 || leb 300 status
      then unsuccessful index status text
      else measured index status (scan false lines) ended ttft latency
