-- ===== src/Registry.antt =====
-- internal/registry/registry.go: the workers that have registered. A method is one atomic step, as it
-- runs under the registry's mutex; the time that it reads is an argument. Values are copied here, so
-- the clones of the code, which cut the sharing of slices, copy what is already separate.
pub mod Valid
pub mod Invariant
pub mod Snapshot
pub mod Versions
use aether_serve.Base.{
  ℕ, suc, Bool, true, false, ◌||◌, ◌&&◌, not, ltb, ◌==◌, if◌then◌else◌, Option, none, some, List,
  [], ◌∷◌, ◌++◌, map, Result, ok, err, ◌>>=◌, ◌>>◌, reject_if,
}
use aether_serve.Base.Int.{ℤ, pos, leb_ℤ, ltb_ℤ}
use aether_serve.Base.Text.{GoString, str_eq, is_empty}
use aether_serve.Base.Map.{Map, lookup, insert, values}
use aether_serve.Base.Sort.{sort_by}
use aether_serve.Float.{Float, zero_float}
use aether_serve.Clock.{Time, Duration, sub}
use aether_serve.Model.{
  PrefixFingerprint, WorkerStatus, healthy, draining, unhealthy, KvUsage, WorkerState, Worker,
  protocol_version,
}

pub data Error : Type 0 where
  unknown_worker state_version_regression stale_timeout_not_positive : Error
  missing_identity version_not_positive invalid_kv_usage rates_not_positive : Error
  quantum_not_positive invalid_prefix : Error
  unsupported_protocol : GoString → Error
  invalid_status : WorkerStatus → Error

pub record Registry (F : Type 0) : Type 0 where
  pub workers : Map (Worker F)
  pub stale_after : Duration

-- `New`; the clock is an argument of the methods.
unfoldable pub new : {F : Type 0} → Duration → Result Error (Registry F)
new stale_after =
    if leb_ℤ stale_after (pos 0)
    then err stale_timeout_not_positive
    else ok (record { workers = []; stale_after = stale_after })

-- The `switch` on the status.
abbrev pub known_status : WorkerStatus → Result Error (Unit {0})
known_status healthy = ok tt
known_status draining = ok tt
known_status unhealthy = ok tt
known_status (WorkerStatus.other s) = err (invalid_status (WorkerStatus.other s))

-- The loop over the cached prefixes.
unfoldable pub valid_prefixes : List PrefixFingerprint → Result Error (Unit {0})
valid_prefixes [] = ok tt
valid_prefixes (p ∷ ps) =
    if p.token_count == 0 || is_empty p.sha256 then err invalid_prefix else valid_prefixes ps

unfoldable pub clone_state : {F : Type 0} → WorkerState F → WorkerState F
clone_state s = record s { cached_prefixes = [] ++ s.cached_prefixes }

unfoldable pub clone_worker : {F : Type 0} → Worker F → Worker F
unfolding clone_state
clone_worker w = record w { state = clone_state w.state }

module _ {F : Type 0} ⦃fl : Float F⦄ where
  unfoldable pub validate_state : WorkerState F → Result Error (Unit {0})
  validate_state s = do
    reject_if (s.status_version == 0) version_not_positive
    known_status s.status
    reject_if
        (s.kv_usage.capacity_tokens == 0 || ltb s.kv_usage.capacity_tokens s.kv_usage.used_tokens)
        invalid_kv_usage
    reject_if
        (fl.le s.prefill_tokens_per_second zero_float
          || fl.le s.decode_tokens_per_second zero_float)
        rates_not_positive
    reject_if (s.decode_scheduling_quantum_tokens == 0) quantum_not_positive
    valid_prefixes s.cached_prefixes

  unfoldable pub validate : Worker F → Result Error (Unit {0})
  validate w = do
    reject_if (is_empty w.id || is_empty w.data_address || is_empty w.model) missing_identity
    reject_if (not (str_eq w.protocol_version protocol_version))
        (unsupported_protocol w.protocol_version)
    validate_state w.state

  unfoldable pub register : Registry F → Time → Worker F → Registry F × Result Error (Unit {0})
  unfolding clone_worker
  register r now worker = elim (validate worker) [
    | err e ↦ (r, err e)
    | ok _ ↦
        let stored : Worker F =
          clone_worker (record worker { last_heartbeat = now; stale = false }) in
        (record r { workers = insert worker.id stored r.workers }, ok tt)
  ]

  -- What `Heartbeat` does with the entry that it finds.
  unfoldable pub beat :
      Registry F → Time → GoString → WorkerState F → Worker F → Registry F × Result Error (Unit {0})
  unfolding clone_state
  beat r now worker_id state worker =
      if not (ltb worker.state.status_version state.status_version)
      then (r, err state_version_regression)
      else (
        record r {
          workers =
              insert worker_id
                (record worker { state = clone_state state; last_heartbeat = now; stale = false })
                r.workers;
        },
        ok tt,
      )

  unfoldable pub heartbeat :
      Registry F → Time → GoString → WorkerState F → Registry F × Result Error (Unit {0})
  heartbeat r now worker_id state = elim (validate_state state) [
    | err e ↦ (r, err e)
    | ok _ ↦ elim (lookup worker_id r.workers) [
      | none ↦ (r, err unknown_worker)
      | some worker ↦ beat r now worker_id state worker
    ]
  ]

module _ {F : Type 0} where
  -- The copy of an entry that a snapshot holds.
  unfoldable pub mark : Duration → Time → Worker F → Worker F
  unfolding clone_worker
  mark stale_after now worker = record (clone_worker worker) {
    stale = ltb_ℤ stale_after (sub now worker.last_heartbeat);
  }

  unfoldable pub snapshot : Registry F → Time → List (Worker F)
  snapshot r now =
      sort_by (λ (w : Worker F). w.id) (map (mark r.stale_after now) (values r.workers))

-- `status == WorkerHealthy`.
abbrev pub is_healthy : WorkerStatus → Bool
is_healthy healthy = true
is_healthy draining = false
is_healthy unhealthy = false
is_healthy (WorkerStatus.other s) = false

module _ {F : Type 0} where
  -- The loop of `HealthyCount`.
  unfoldable pub count_healthy : List (Worker F) → ℕ
  count_healthy [] = 0
  count_healthy (w ∷ ws) =
      if not w.stale && is_healthy w.state.status then suc (count_healthy ws) else count_healthy ws

  unfoldable pub healthy_count : Registry F → Time → ℕ
  healthy_count r now = count_healthy (snapshot r now)
