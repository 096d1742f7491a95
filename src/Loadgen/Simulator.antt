-- ===== src/Loadgen/Simulator.antt =====
-- cmd/loadgen/main.go: the routing simulator, which runs items through the router's own code over three workers.
pub mod Prefixes
pub mod Eligible
pub mod Selected
use aether_serve.Base.{
  ℕ, zero, suc, ◌+◌, ◌-◌, ◌*◌, ◌%◌, ◌^◌, Bool, true, false, ltb, if◌then◌else◌, Option, none, some,
  List, [], ◌∷◌, ◌++◌, map, length, drop, Result, ok, err, ◌>>=◌, add_u64,
}
use aether_serve.Base.Int.{ℤ, pos, negsuc}
use aether_serve.Base.Text.{GoString, str, str_eq, decimal}
use aether_serve.Base.Sort.{find_by}
use aether_serve.Float.{Float, of_ℕ, zero_float}
use aether_serve.Clock.{Duration}
use aether_serve.Model.{
  Message, PrefixFingerprint, Worker, WorkerState, healthy, Request, CandidateEvaluation,
  RoutingDecision, protocol_version,
}
use aether_serve.Prefix.{fingerprints}
use aether_serve.Tokenizer.{tokens, estimate}
use aether_serve.Routing
use aether_serve.Routing.{Router, Policy, contains, select}
use aether_serve.Loadgen.{WorkItem, Sample}

-- The loop over the additions; `seen` holds the digests of `current`.
unfoldable pub append_unseen :
    List GoString → List PrefixFingerprint → List PrefixFingerprint → List PrefixFingerprint
append_unseen seen current [] = current
append_unseen seen current (p ∷ additions) =
    if contains seen p.sha256
    then append_unseen seen current additions
    else append_unseen (p.sha256 ∷ seen) (current ++ p ∷ []) additions

-- `current[len(current)-64:]` where there are more.
abbrev pub last_64 : List PrefixFingerprint → List PrefixFingerprint
last_64 ps = if ltb 64 (length ps) then drop (length ps - 64) ps else ps

-- `appendUniquePrefixes`.
unfoldable pub append_unique_prefixes :
    List PrefixFingerprint → List PrefixFingerprint → List PrefixFingerprint
append_unique_prefixes current additions =
    last_64 (append_unseen (map (λ p. p.sha256) current) current additions)

pub record Simulator (F : Type 0) : Type 0 where
  pub router : Router
  pub workers : List (Worker F)

module _ {F : Type 0} ⦃fl : Float F⦄ where
  abbrev pub sim_worker : GoString → ℕ → ℕ → Worker F
  sim_worker id prefill decode = record {
    id = id;
    data_address = id;
    model = str "mock-llm";
    protocol_version = protocol_version;
    state = record {
      status_version = 1;
      status = healthy;
      waiting_request_count = 0;
      waiting_token_count = 0;
      running_request_count = 0;
      running_work_tokens = 0;
      kv_usage = record { capacity_tokens = 8192; used_tokens = 0 };
      prefill_tokens_per_second = fl.literal prefill 0;
      decode_tokens_per_second = fl.literal decode 0;
      decode_scheduling_quantum_tokens = 1;
      cached_prefixes = [];
      observed_at = 0;
    };
    last_heartbeat = 0;
    stale = false;
  }

  -- `newRoutingSimulator`.
  unfoldable pub new : Policy → ℕ → Result Routing.Error (Simulator F)
  new policy seed = Routing.new policy seed >>= λ router. ok (record {
    router = router;
    workers =
        sim_worker (str "sim-a") 1200 120
        ∷ sim_worker (str "sim-b") 800 80
        ∷ sim_worker (str "sim-c") 500 50
        ∷ [];
  })

  -- The load of a worker at an item, by the worker's index `k`.
  abbrev pub loaded : ℕ → ℕ → Worker F → Worker F
  loaded index k w = record w {
    state = record (w.state) {
      waiting_token_count = (index * (k + 3) + k * 11) % 48;
      running_work_tokens = (index + k * 5) % 20;
      running_request_count = (index + k) % 3;
      status_version = add_u64 w.state.status_version 1;
    };
  }

  -- The loop over the workers, from index `k` on.
  unfoldable pub load_from : ℕ → ℕ → List (Worker F) → List (Worker F)
  load_from index k [] = []
  load_from index k (w ∷ ws) = loaded index k w ∷ load_from index (suc k) ws

  -- `worker.State.CachedPrefixes = appendUniquePrefixes(...)`, on the first worker of that name.
  unfoldable pub remember : GoString → List PrefixFingerprint → List (Worker F) → List (Worker F)
  remember id ps [] = []
  remember id ps (w ∷ ws) =
      if str_eq w.id id
      then record w {
        state = record (w.state) {
          cached_prefixes = append_unique_prefixes w.state.cached_prefixes ps;
        };
      }
        ∷ ws
      else w ∷ remember id ps ws

  abbrev pub failed_sample : ℕ → ℕ → GoString → Sample F
  failed_sample index status error = record {
    request = index;
    ttft_ms = zero_float;
    latency_ms = zero_float;
    status = status;
    error = error;
  }

  -- The zero candidate, where the decision names none.
  abbrev pub predicted : GoString → List (CandidateEvaluation F) → F
  predicted id candidates =
      elim (find_by (λ (c : CandidateEvaluation F). c.worker_id) id candidates) [
        | none ↦ zero_float
        | some c ↦ c.predicted_ttft
      ]

  -- The sample of a request that a worker answers.
  abbrev pub answered : ℕ → WorkItem → F → F → Sample F
  answered index item predicted_ttft decode_rate =
      let ttft : F = fl.mul predicted_ttft (fl.literal 1000 0) in
      record {
        request = index;
        ttft_ms = ttft;
        latency_ms =
            fl.add ttft (fl.mul (fl.div (fl.of_ℤ item.max_tokens) decode_rate) (fl.literal 1000 0));
        status = 200;
        error =
            if str_eq item.fault (str "midstream") then str "simulated midstream failure" else [];
      }

-- `uint64` of an int.
abbrev pub to_u64 : ℤ → ℕ
to_u64 (pos n) = n % 2 ^ 64
to_u64 (negsuc n) = 2 ^ 64 - 1 - n % 2 ^ 64

module _ (split : GoString → List GoString) (digest : GoString → GoString) where
  abbrev pub request_of : ℕ → WorkItem → Request
  request_of index item = record {
    id = str "sim-" ++ decimal index;
    attempt_id = [];
    tenant_id = item.tenant_id;
    model = str "mock-llm";
    messages = item.messages;
    estimated_input_token = estimate split item.messages;
    expected_output_token = to_u64 item.max_tokens;
    max_output_tokens = to_u64 item.max_tokens;
    prefix_fingerprints = fingerprints digest (tokens split item.messages);
    deadline = 0;
  }

module _ {F : Type 0} ⦃fl : Float F⦄ (split : GoString → List GoString)
    (digest : GoString → GoString) where
  -- What follows a decision without an error, with the worker that it names.
  unfoldable pub serve_item :
      Simulator F → ℕ → WorkItem → RoutingDecision F → Option (Worker F) → Simulator F × Sample F
  serve_item sim index item d none =
      (sim, failed_sample index 503 (str "selected worker disappeared"))
  serve_item sim index item d (some w) = (
    record sim {
      workers =
          remember d.selected_worker (request_of split digest index item).prefix_fingerprints
            sim.workers;
    },
    answered index item (predicted d.selected_worker d.candidates) w.state.decode_tokens_per_second,
  )

  -- What follows the decision; 503 with the text of `ErrNoEligibleWorkers`.
  unfoldable pub decided :
      Simulator F → ℕ → WorkItem → RoutingDecision F → Option Routing.Error → Simulator F × Sample F
  decided sim index item d (some e) = (sim, failed_sample index 503 (str "no eligible workers"))
  decided sim index item d none =
      if str_eq item.fault (str "before_first")
      then (sim, failed_sample index 502 (str "simulated pre-first-token failure"))
      else serve_item sim index item d
          (find_by (λ (w : Worker F). w.id) d.selected_worker sim.workers)

  -- `run`, with the time that the decision takes.
  unfoldable pub run : Simulator F → Duration → ℕ → WorkItem → Simulator F × Sample F
  run sim elapsed index item =
      let workers = load_from index 0 sim.workers in
      let (router, d, e) =
        select sim.router elapsed (request_of split digest index item) workers [] in
      decided (record { router = router; workers = workers }) index item d e

  -- The loop of `main` in the mode of the simulation.
  unfoldable pub run_all :
      Simulator F → (ℕ → Duration) → ℕ → List WorkItem → Simulator F × List (Sample F)
  run_all sim elapsed index [] = (sim, [])
  run_all sim elapsed index (item ∷ items) =
      let (sim', s) = run sim (elapsed index) index item in
      let (sim'', samples) = run_all sim' elapsed (suc index) items in (sim'', s ∷ samples)
