-- ===== src/Config.antt =====
-- internal/config/config.go: the two configurations, their loading and their validation. Reading a file and
-- decoding YAML, which the code leaves to the os and yaml packages, are parameters.
pub mod Limits
use aether_serve.Base.{ℕ, ◌||◌, ltb, ◌==◌, List, Result, ok, err, ◌>>=◌, ◌>>◌, reject_if}
use aether_serve.Base.Int.{ℤ, pos, ltb_ℤ, leb_ℤ}
use aether_serve.Base.Text.{GoString, is_empty}
use aether_serve.Float.{Float, zero_float, of_ℕ}
use aether_serve.Clock.{Duration}
use aether_serve.Admission
use aether_serve.Routing
use aether_serve.Routing.{Policy}

pub record RoutingConfig : Type 0 where
  pub policy : Policy
  pub round_robin_seed : ℕ

pub record RouterConfig (F : Type 0) : Type 0 where
  pub http_address : GoString
  pub control_address : GoString
  pub model : GoString
  pub default_max_output_tokens : ℕ
  pub max_output_tokens : ℕ
  pub max_input_tokens : ℕ
  pub max_context_tokens : ℕ
  pub request_timeout : Duration
  pub min_request_timeout : Duration
  pub max_request_timeout : Duration
  pub heartbeat_stale_after : Duration
  pub sse_buffer_size : ℤ
  pub slow_client_timeout : Duration
  pub shutdown_timeout : Duration
  pub routing : RoutingConfig
  pub admission : Admission.Config F

pub record FailureConfig (F : Type 0) : Type 0 where
  pub fail_before_first_count : ℤ
  pub fail_after_tokens : ℤ
  pub slowdown_multiplier : F

pub record WorkerConfig (F : Type 0) : Type 0 where
  pub id : GoString
  pub data_address : GoString
  pub advertised_address : GoString
  pub router_control_address : GoString
  pub model : GoString
  pub heartbeat_interval : Duration
  pub queue_capacity : ℤ
  pub prefill_tokens_per_second : F
  pub decode_tokens_per_second : F
  pub decode_scheduling_quantum_tokens : ℕ
  pub cache_capacity_tokens : ℕ
  pub cache_prefix_limit : ℤ
  pub seed : ℕ
  pub failure : FailureConfig F

pub data Error : Type 0 where
  missing_address invalid_output_limit invalid_token_limits invalid_timeouts not_positive : Error
  invalid_rates invalid_failure : Error
  read_failed decode_failed : GoString → Error
  routing_error : Routing.Error → Error
  admission_error : Admission.Error → Error

-- `if _, err := f(); err != nil { return err }`.
abbrev pub check : {E A : Type 0} → (E → Error) → Result E A → Result Error (Unit {0})
check wrap (ok a) = ok tt
check wrap (err e) = err (wrap e)

module _ {F : Type 0} ⦃fl : Float F⦄ where
  unfoldable pub validate_router : RouterConfig F → Result Error (Unit {0})
  validate_router c =
      reject_if (is_empty c.http_address || is_empty c.control_address || is_empty c.model)
        missing_address
      >> reject_if
          (c.default_max_output_tokens == 0
            || ltb c.max_output_tokens c.default_max_output_tokens
            || c.max_output_tokens == 0)
          invalid_output_limit
      >> reject_if (c.max_input_tokens == 0 || ltb c.max_context_tokens c.max_input_tokens)
          invalid_token_limits
      >> reject_if
          (leb_ℤ c.request_timeout (pos 0)
            || leb_ℤ c.min_request_timeout (pos 0)
            || ltb_ℤ c.max_request_timeout c.min_request_timeout
            || ltb_ℤ c.max_request_timeout c.request_timeout)
          invalid_timeouts
      >> reject_if
          (leb_ℤ c.heartbeat_stale_after (pos 0)
            || leb_ℤ c.sse_buffer_size (pos 0)
            || leb_ℤ c.slow_client_timeout (pos 0)
            || leb_ℤ c.shutdown_timeout (pos 0))
          not_positive
      >> check routing_error (Routing.new c.routing.policy c.routing.round_robin_seed)
      >> check admission_error (Admission.new c.admission)

  unfoldable pub validate_worker : WorkerConfig F → Result Error (Unit {0})
  validate_worker c =
      reject_if
        (is_empty c.id
          || is_empty c.data_address
          || is_empty c.router_control_address
          || is_empty c.model)
        missing_address
      >> reject_if
          (leb_ℤ c.heartbeat_interval (pos 0)
            || leb_ℤ c.queue_capacity (pos 0)
            || leb_ℤ c.cache_prefix_limit (pos 0)
            || c.cache_capacity_tokens == 0)
          not_positive
      >> reject_if
          (fl.le c.prefill_tokens_per_second zero_float
            || fl.le c.decode_tokens_per_second zero_float
            || c.decode_scheduling_quantum_tokens == 0)
          invalid_rates
      >> reject_if
          (ltb_ℤ c.failure.fail_before_first_count (pos 0)
            || ltb_ℤ c.failure.fail_after_tokens (pos 0)
            || fl.lt c.failure.slowdown_multiplier (of_ℕ 1))
          invalid_failure

-- `os.ReadFile`, and the strict decoding of YAML into a configuration.
pub record Files (A : Type 0) : Type 0 where
  pub read_file : GoString → Result GoString (List ℕ)
  pub decode : List ℕ → Result GoString A

-- `load`.
unfoldable pub load : {A : Type 0} → Files A → GoString → Result Error A
load files path = elim (files.read_file path) [
  | err e ↦ err (read_failed e)
  | ok bytes ↦ elim (files.decode bytes) [ err e ↦ err (decode_failed e) | ok c ↦ ok c ]
]

-- The configuration that the code returns beside an error of the validation is left out.
module _ {F : Type 0} ⦃fl : Float F⦄ where
  unfoldable pub load_router : Files (RouterConfig F) → GoString → Result Error (RouterConfig F)
  load_router files path = load files path >>= λ c. validate_router c >>= λ _. ok c

  unfoldable pub load_worker : Files (WorkerConfig F) → GoString → Result Error (WorkerConfig F)
  load_worker files path = load files path >>= λ c. validate_worker c >>= λ _. ok c
