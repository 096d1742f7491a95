-- ===== src/Loadgen/Workload.antt =====
-- cmd/loadgen/main.go: `workloadItems`. The random generator, the file and the decoding of its lines are parameters.
pub mod Items
use aether_serve.Base.{
  ℕ, zero, suc, ◌+◌, ◌*◌, ◌%◌, ◌^◌, ◌<◌, Bool, true, false, ltb, if◌then◌else◌, Option, none, some,
  List, [], ◌∷◌, ◌++◌, Result, ok, err, ◌>>=◌,
}
use aether_serve.Base.Int.{ℤ, pos, leb_ℤ, pos_part}
use aether_serve.Base.Text.{GoString, str, decimal}
use aether_serve.Model.{Message}
use aether_serve.Gateway.Request.{wrap_i64}
use aether_serve.Loadgen.{WorkItem}

-- The values of the workload flag.
pub data Kind : Type 0 where
  uniform high_prefix_sharing hot_prefix mixed_lengths mixed_outputs : Kind
  heterogeneous_workers slowdown failure_before_first failure_during_streaming bursty : Kind
  other : GoString → Kind

pub data Error : Type 0 where
  open_failed decode_failed scan_failed : GoString → Error
  requests_not_positive : Error
  unknown_workload : GoString → Error

-- `rand.New(rand.NewPCG(seed, ...))` and its `IntN`.
pub record Random (S : Type 0) : Type 0 where
  pub seeded : ℕ → S
  pub int_n : S → ℕ → ℕ × S

-- `os.Open`, the lines that the scanner yields and the error that it ends with, and `json.Unmarshal` of a line.
pub record Traces : Type 0 where
  pub scan : GoString → Result GoString (List GoString × Option GoString)
  pub decode : GoString → Result GoString WorkItem

-- The loop over the lines of a trace.
unfoldable pub decode_lines : Traces → List GoString → Result Error (List WorkItem)
decode_lines traces [] = ok []
decode_lines traces (line ∷ lines) = elim (traces.decode line) [
  | err e ↦ err (decode_failed e)
  | ok item ↦ decode_lines traces lines >>= λ items. ok (item ∷ items)
]

-- `return items, scanner.Err()`.
abbrev pub scanned : Option GoString → List WorkItem → Result Error (List WorkItem)
scanned none items = ok items
scanned (some e) items = err (scan_failed e)

unfoldable pub read_trace : Traces → GoString → Result Error (List WorkItem)
read_trace traces path = elim (traces.scan path) [
  | err e ↦ err (open_failed e)
  | ok (lines, ended) ↦ decode_lines traces lines >>= scanned ended
]

-- `strings.Repeat`.
abbrev pub repeat : ℕ → GoString → GoString
repeat zero s = []
repeat (suc n) s = s ++ repeat n s

-- The fault of an item.
abbrev pub fault_of : Kind → GoString
fault_of slowdown = str "slowdown"
fault_of failure_before_first = str "before_first"
fault_of failure_during_streaming = str "midstream"
fault_of _ = []

module _ {S : Type 0} (random : Random S) where
  -- The `switch` on the workload.
  unfoldable pub prompt : Kind → ℕ → S → Result Error (GoString × S)
  prompt uniform i s = ok (str "request-" ++ decimal i, s)
  prompt high_prefix_sharing i s = ok (repeat 5 (str "shared system prompt and document "), s)
  prompt hot_prefix i s =
      let (n, s') = random.int_n s 10 in
      ok ((if ltb n 8 then repeat 8 (str "hot prefix prompt ") else str "cold-" ++ decimal i), s')
  prompt mixed_lengths i s =
      let (n, s') = random.int_n s 64 in ok (repeat (1 + n) (str "mixed "), s')
  prompt mixed_outputs i s = ok (str "mixed output prompt", s)
  prompt heterogeneous_workers i s = ok (str "heterogeneous worker routing prompt", s)
  prompt slowdown i s = ok (str "slowdown injection prompt", s)
  prompt failure_before_first i s = ok (str "pre-first-token failure prompt", s)
  prompt failure_during_streaming i s = ok (str "midstream failure prompt", s)
  prompt bursty i s = ok (str "bursty shared prompt", s)
  prompt (other kind) i s = err (unknown_workload kind)

  -- The tokens of an item; a workload of mixed outputs draws a second time.
  unfoldable pub max_tokens : Kind → S → ℕ × S
  max_tokens mixed_outputs s = let (n, s') = random.int_n (random.int_n s 24).1 64 in (1 + n, s')
  max_tokens kind s = let (n, s') = random.int_n s 24 in (8 + n, s')

  abbrev pub item_of : Kind → ℕ → GoString → ℕ → WorkItem
  item_of kind i text tokens = record {
    arrival_ms = wrap_i64 (i * 5);
    tenant_id = str "benchmark";
    messages = record { role = str "user"; content = text ++ str " " ++ decimal i } ∷ [];
    max_tokens = pos tokens;
    fault = fault_of kind;
  }

  -- The loop, with `left` items to go from `i` on.
  unfoldable pub items_from : Kind → ℕ → ℕ → S → Result Error (List WorkItem)
  items_from kind zero i s = ok []
  items_from kind (suc left) i s = prompt kind i s >>= λ drawn.
      let (tokens, s') = max_tokens kind drawn.1 in
      items_from kind left (suc i) s' >>= λ items. ok (item_of kind i drawn.0 tokens ∷ items)

  unfoldable pub workload_items : Traces → Kind → ℤ → ℕ → GoString → Result Error (List WorkItem)
  workload_items traces kind count seed [] =
      if leb_ℤ count (pos 0)
      then err requests_not_positive
      else items_from kind (pos_part count) 0 (random.seeded seed)
  workload_items traces kind count seed (c ∷ path) = read_trace traces (c ∷ path)
