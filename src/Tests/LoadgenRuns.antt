-- ===== src/Tests/LoadgenRuns.antt =====
-- The load generator.

use aether_serve.Base.{ok, err, ℕ, ◌<◌, ◌≡◌, refl, true, false, none, List, [], ◌∷◌, arith}
use aether_serve.Base.Int.{ℤ, pos, leb_ℤ}
use aether_serve.Base.Text.{GoString, str}
use aether_serve.Model.{PrefixFingerprint}
use aether_serve.Routing
use aether_serve.Routing.{Policy}
use aether_serve.Gateway.Commit.{closed, event, forward}
use aether_serve.Gateway.Stream.{chunk}
use aether_serve.Gateway.Sse.{write_body}
use aether_serve.Loadgen.{WorkItem, is_success}
use aether_serve.Loadgen.Simulator.{Simulator, sim_worker, new}
use aether_serve.Loadgen.Client.{response, execute}
use aether_serve.Loadgen.Client.Stream.{execute-forward}
use aether_serve.Loadgen.Workload.{Random, Traces, Kind}
use aether_serve.Loadgen.Simulation.{Report, simulate}
use aether_serve.Loadgen.Simulation.Counts.{simulate_lem}
use aether_serve.Tests.Fixtures.{integers}
use aether_serve.Tests.GatewayRuns.{chunk_of}

abbrev item : GoString → WorkItem
item fault = record {
  arrival_ms = pos 0;
  tenant_id = str "benchmark";
  messages = record { role = str "user"; content = str "hi" } ∷ [];
  max_tokens = pos 8;
  fault = fault;
}

abbrev items : List WorkItem
items = item [] ∷ item (str "before_first") ∷ item (str "midstream") ∷ []

abbrev simulator : Simulator ℤ
simulator = record {
  router = record { policy = Policy.predicted_ttft; cursor = 7 };
  workers =
      sim_worker (str "sim-a") 1200 120
      ∷ sim_worker (str "sim-b") 800 80
      ∷ sim_worker (str "sim-c") 500 50
      ∷ [];
}

abbrev split_all : GoString → List GoString
split_all s = s ∷ []

positive : (n : ℕ) → 0 < n → leb_ℤ (integers.literal n 0) (pos 0) ≡ false
positive n h = ground arith

abbrev block : PrefixFingerprint
block = record { token_count = 16; sha256 = str "h" }

-- The worker's stream ends without a completion after the first token.
execute-forward_example :
    is_success (
      execute 0
        (response 200
          (str "OK")
          (write_body
            (λ f. [])
            (forward (event (chunk (chunk_of 0 (str "x"))) true ∷ closed ∷ [])).0)
          none)
        (pos 1)
        (pos 2))
    ≡ true
execute-forward_example =
    execute-forward (λ f. []) 0 (str "OK") (chunk_of 0 (str "x")) (closed ∷ []) (pos 1) (pos 2) refl

-- Every draw is 0.
abbrev zeros : Random ℕ
zeros = record { seeded = λ s. s; int_n = λ s n. (0, s) }

abbrev no_traces : Traces
no_traces = record { scan = λ path. err path; decode = λ line. err line }

simulate_lem_example :
    (report : Report ℤ) × (simulate zeros no_traces split_all
        (λ s. s)
        (record {
          workload = Kind.failure_during_streaming;
          requests = pos 3;
          seed = 7;
          policy = Policy.predicted_ttft;
          trace = [];
        })
        (λ n. pos 0)
      ≡ ok report)
    × (report.requests ≡ 3)
    × (report.counts ≡ record { completed = 0; failed = 3 })
unfolding new Routing.new
simulate_lem_example =
    simulate_lem zeros no_traces split_all (λ s. s) Kind.failure_during_streaming 2 7
      Policy.predicted_ttft simulator (λ n. pos 0) tt (λ s n h. h) positive refl
