-- ===== src/Tests/WorkerRuns.antt =====
-- The mock worker and the configurations.
use aether_serve.Base.{refl, List, [], ◌∷◌, arith}
use aether_serve.Base.Int.{ℤ, pos}
use aether_serve.Base.Text.{str}
use aether_serve.Routing.{Policy}
use aether_serve.Config.{RouterConfig, WorkerConfig}
use aether_serve.Model.{PrefixFingerprint, healthy}
use aether_serve.MockWorker.{Worker, held, add_prefixes}
use aether_serve.MockWorker.Counters.{Action, queues, turns_away, starts, finishes}
use aether_serve.MockWorker.Cache.{IsSound, add_prefixes-IsSound}
use aether_serve.Tests.Fixtures.{integers}

abbrev pub router_config : RouterConfig ℤ
router_config = record {
  http_address = str ":80";
  control_address = str ":90";
  model = str "m";
  default_max_output_tokens = 8;
  max_output_tokens = 16;
  max_input_tokens = 100;
  max_context_tokens = 200;
  request_timeout = pos 10;
  min_request_timeout = pos 1;
  max_request_timeout = pos 20;
  heartbeat_stale_after = pos 5;
  sse_buffer_size = pos 4;
  slow_client_timeout = pos 3;
  shutdown_timeout = pos 3;
  routing = record { policy = Policy.round_robin; round_robin_seed = 0 };
  admission = record {
    global_inflight_tokens = 100;
    tenant_rate_per_second = pos 10;
    tenant_burst_tokens = pos 50;
  };
}

abbrev pub worker_config : WorkerConfig ℤ
worker_config = record {
  id = str "w";
  data_address = str ":1";
  advertised_address = [];
  router_control_address = str ":90";
  model = str "m";
  heartbeat_interval = pos 1;
  queue_capacity = pos 4;
  prefill_tokens_per_second = pos 10;
  decode_tokens_per_second = pos 10;
  decode_scheduling_quantum_tokens = 1;
  cache_capacity_tokens = 40;
  cache_prefix_limit = pos 2;
  seed = 1;
  failure = record {
    fail_before_first_count = pos 0;
    fail_after_tokens = pos 0;
    slowdown_multiplier = pos 1;
  };
}

abbrev pub fresh : Worker ℤ
fresh = record {
  config = worker_config;
  state = record {
    status_version = 0;
    status = healthy;
    waiting_request_count = 0;
    waiting_token_count = 0;
    running_request_count = 0;
    running_work_tokens = 0;
    kv_usage = record { capacity_tokens = 40; used_tokens = 0 };
    prefill_tokens_per_second = pos 10;
    decode_tokens_per_second = pos 10;
    decode_scheduling_quantum_tokens = 1;
    cached_prefixes = [];
    observed_at = 0;
  };
  cache = [];
  cache_order = [];
  fail_before_remaining = pos 0;
  data_address = str ":1";
}

abbrev actions : List Action
actions = queues 5 ∷ queues 7 ∷ starts ∷ turns_away 3 ∷ finishes ∷ []

-- Three blocks of 16, of which the limit keeps two.
abbrev pub blocks : List PrefixFingerprint
blocks =
    record { token_count = 16; sha256 = str "h" }
    ∷ record { token_count = 16; sha256 = str "i" }
    ∷ record { token_count = 16; sha256 = str "j" }
    ∷ []

add_prefixes-IsSound_example : IsSound (pos 2) 40 (held (add_prefixes fresh blocks))
add_prefixes-IsSound_example =
    add_prefixes-IsSound fresh blocks refl (omega arith)
      (omega arith, (omega arith, (omega arith, tt)))
      (record { distinct = tt; cached = tt; tokens = refl }, (refl, omega arith))
