-- ===== src/MockWorker.antt =====
-- internal/mockworker/worker.go: the state that a worker reports. The methods that change it run
-- under the worker's mutex, so each is one step.
pub mod Counters
pub mod Cache
pub mod Job
pub mod Session
pub mod Dispatch
pub mod Queue
pub mod Registration
use aether_serve.Base.{
  ℕ, Bool, true, false, ◌&&◌, ◌||◌, not, ltb, leb, ◌==◌, if◌then◌else◌, Option, none, some, List,
  [], ◌∷◌, ◌++◌, map, length, Result, ok, err, ◌>>=◌, add_u64, sub_u64, add_u32, sub_u32,
}
use aether_serve.Base.Int.{ℤ, pos, ltb_ℤ}
use aether_serve.Base.Text.{GoString}
use aether_serve.Base.Map.{Map, lookup, insert, erase}
use aether_serve.Float.{Float, of_ℕ, zero_float}
use aether_serve.Clock.{Time}
use aether_serve.Model.{PrefixFingerprint, KvUsage, WorkerState, healthy}
use aether_serve.Registry.{clone_state}
use aether_serve.Config.{WorkerConfig, Error, validate_worker}

pub record Worker (F : Type 0) : Type 0 where
  pub config : WorkerConfig F
  pub state : WorkerState F
  pub cache : Map PrefixFingerprint
  pub cache_order : List GoString
  pub fail_before_remaining : ℤ
  pub data_address : GoString

-- `if x > 0 { x-- }`.
abbrev pub decrement : ℕ → ℕ
decrement x = if ltb 0 x then sub_u32 x 1 else x

-- `if x >= work { x -= work } else { x = 0 }`.
abbrev pub take_off : ℕ → ℕ → ℕ
take_off x work = if leb work x then sub_u64 x work else 0

-- `w.cache[key]`, the zero fingerprint for a missing key.
abbrev pub cached : Map PrefixFingerprint → GoString → PrefixFingerprint
cached cache key = elim (lookup key cache) [
  | none ↦ record { token_count = 0; sha256 = [] }
  | some p ↦ p
]

-- The cache, the order of its keys and the tokens used.
pub record Held : Type 0 where
  pub cache : Map PrefixFingerprint
  pub order : List GoString
  pub used : ℕ

-- The inner loop of `addPrefixes`: the oldest entries go while there are too many or they are too large.
unfoldable pub evict : ℤ → ℕ → Map PrefixFingerprint → List GoString → ℕ → Held
evict limit capacity cache [] used = record { cache = cache; order = []; used = used }
evict limit capacity cache (key ∷ order) used =
    let rest =
      evict limit capacity (erase key cache) order (take_off used (cached cache key).token_count) in
    if ltb_ℤ limit (pos (length (key ∷ order))) || ltb capacity used
    then rest
    else record { cache = cache; order = key ∷ order; used = used }

-- A fingerprint joins unless its key is known.
unfoldable pub remember : ℤ → ℕ → Held → PrefixFingerprint → Option PrefixFingerprint → Held
remember limit capacity h p (some q) = h
remember limit capacity h p none =
    evict limit capacity (insert p.sha256 p h.cache) (h.order ++ p.sha256 ∷ [])
      (add_u64 h.used p.token_count)

-- One round of the outer loop.
unfoldable pub add_prefix : ℤ → ℕ → Held → PrefixFingerprint → Held
add_prefix limit capacity h p = remember limit capacity h p (lookup p.sha256 h.cache)

unfoldable pub add_all : ℤ → ℕ → Held → List PrefixFingerprint → Held
add_all limit capacity h [] = h
add_all limit capacity h (p ∷ ps) = add_all limit capacity (add_prefix limit capacity h p) ps

module _ {F : Type 0} where
  -- The cache of a worker.
  abbrev pub held : Worker F → Held
  held w = record { cache = w.cache; order = w.cache_order; used = w.state.kv_usage.used_tokens }

  unfoldable pub add_prefixes : Worker F → List PrefixFingerprint → Worker F
  add_prefixes w ps =
      let h = add_all w.config.cache_prefix_limit w.state.kv_usage.capacity_tokens (held w) ps in
      record w {
        state = record (w.state) { kv_usage = record (w.state.kv_usage) { used_tokens = h.used } };
        cache = h.cache;
        cache_order = h.order;
      }

  unfoldable pub add_waiting : Worker F → ℕ → Worker F
  add_waiting w work = record w {
    state = record (w.state) {
      waiting_request_count = add_u32 w.state.waiting_request_count 1;
      waiting_token_count = add_u64 w.state.waiting_token_count work;
    };
  }

  unfoldable pub remove_waiting : Worker F → ℕ → Worker F
  remove_waiting w work = record w {
    state = record (w.state) {
      waiting_request_count = decrement w.state.waiting_request_count;
      waiting_token_count = take_off w.state.waiting_token_count work;
    };
  }

  unfoldable pub move_to_running : Worker F → ℕ → Worker F
  move_to_running w work = record w {
    state = record (w.state) {
      waiting_request_count = decrement w.state.waiting_request_count;
      waiting_token_count = take_off w.state.waiting_token_count work;
      running_request_count = add_u32 w.state.running_request_count 1;
      running_work_tokens = add_u64 w.state.running_work_tokens work;
    };
  }

  unfoldable pub finish_running : Worker F → ℕ → Worker F
  finish_running w work = record w {
    state = record (w.state) {
      running_request_count = decrement w.state.running_request_count;
      running_work_tokens = take_off w.state.running_work_tokens work;
    };
  }

  abbrev pub active_requests : Worker F → ℕ
  active_requests w = add_u32 w.state.waiting_request_count w.state.running_request_count

  -- The worker with its version raised, and the state that is sent.
  unfoldable pub next_state : Worker F → Time → Worker F × WorkerState F
  next_state w now =
      let state : WorkerState F = record (w.state) {
        status_version = add_u64 w.state.status_version 1;
        observed_at = now;
        cached_prefixes = map (cached w.cache) w.cache_order;
      } in
      (record w { state = state }, clone_state state)

module _ {F : Type 0} ⦃fl : Float F⦄ where
  unfoldable pub new : WorkerConfig F → Result Error (Worker F)
  new config = validate_worker config >>= λ _. ok (record {
    config = config;
    state = record {
      status_version = 0;
      status = healthy;
      waiting_request_count = 0;
      waiting_token_count = 0;
      running_request_count = 0;
      running_work_tokens = 0;
      kv_usage = record { capacity_tokens = config.cache_capacity_tokens; used_tokens = 0 };
      prefill_tokens_per_second = config.prefill_tokens_per_second;
      decode_tokens_per_second = config.decode_tokens_per_second;
      decode_scheduling_quantum_tokens = config.decode_scheduling_quantum_tokens;
      cached_prefixes = [];
      observed_at = 0;
    };
    cache = [];
    cache_order = [];
    fail_before_remaining = config.failure.fail_before_first_count;
    data_address = config.data_address;
  })

  unfoldable pub normalized_work : ℕ → ℕ → F → F → ℕ
  normalized_work input output prefill_rate decode_rate =
      add_u64 input (fl.ceil_u64 (fl.div (fl.mul (of_ℕ output) prefill_rate) decode_rate))
