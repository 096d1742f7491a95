-- ===== src/Routing/Eligibility.antt =====
-- Which workers `ineligibility` lets pass, and which reasons a registry's snapshot can meet.
use mathlib.Core.List.{Memᴰ}
use mathlib.Core.List.Permᴰ
use aether_serve.Base.{
  ◌≤◌, ◌<◌, ◌≡◌, ◌↔◌, ◌⊎◌, false, none, some, List, arith, All, All-perm, All-map, All-mem, All-imp,
}
use aether_serve.Base.Text.{GoString, str_eq_iff, is_empty}
use aether_serve.Base.Map.{values}
use aether_serve.Base.Sort.{sort_by-perm}
use aether_serve.Float.{Float, zero_float}
use aether_serve.Clock.{Time, Duration}
use aether_serve.Model.{
  Worker, Request, Rejection, excluded_attempt_worker, stale_heartbeat, incompatible_worker,
  healthy, protocol_version,
}
use aether_serve.Registry.{Registry, snapshot, mark, clone_worker, clone_state}
use aether_serve.Registry.Valid.{WorkerIsValid}
use aether_serve.Registry.Invariant.{IsWellFormed, EntryIsValid}
use aether_serve.Routing.{Policy, contains, ineligibility}

module _ {F : Type 0} ⦃fl : Float F⦄ where
  pub record IsEligible (policy : Policy) (request : Request) (excluded : List GoString)
      (w : Worker F) : Type 0 where
    pub not_excluded : contains excluded w.id ≡ false
    pub fresh : w.stale ≡ false
    pub protocol : w.protocol_version ≡ protocol_version
    pub address : is_empty w.data_address ≡ false
    pub model : w.model ≡ request.model
    pub status : w.state.status ≡ healthy
    pub capacity : 0 < w.state.kv_usage.capacity_tokens
    pub usage : w.state.kv_usage.used_tokens ≤ w.state.kv_usage.capacity_tokens
    pub metrics :
        (policy ≡ Policy.round_robin)
        ⊎ ((fl.le w.state.prefill_tokens_per_second zero_float ≡ false)
            × (fl.le w.state.decode_tokens_per_second zero_float ≡ false)
            × (0 < w.state.decode_scheduling_quantum_tokens))

  -- A worker passes exactly when it is not excluded, fresh, of the protocol, addressed, of the request's
  -- model, healthy, within its cache capacity, and, unless the policy is round robin, has positive metrics.
  pub IsEligible-iff :
      (policy : Policy) (request : Request) (w : Worker F) (excluded : List GoString)
      → (ineligibility policy request w excluded ≡ none) ↔ IsEligible policy request excluded w
  unfolding ineligibility
  IsEligible-iff policy request w excluded = (
    λ e.
        ground
          (arith, str_eq_iff w.protocol_version protocol_version, str_eq_iff w.model request.model),
    λ v.
        ground
          (arith, str_eq_iff w.protocol_version protocol_version, str_eq_iff w.model request.model),
  )

  marked_valid :
      (d : Duration) (now : Time) (w : Worker F) → WorkerIsValid w → WorkerIsValid (mark d now w)
  unfolding mark clone_worker clone_state
  marked_valid d now w v = ground arith

  pub snapshot_valid :
      (r : Registry F) (now : Time) → IsWellFormed r → All WorkerIsValid (snapshot r now)
  unfolding snapshot
  snapshot_valid r now v = All-perm WorkerIsValid (Permᴰ.symm (sort_by-perm _ _)) (
      All-map WorkerIsValid (mark r.stale_after now) (values r.workers) (
        All-map _ (λ (e : GoString × Worker F). e.1) r.workers
          (All-imp EntryIsValid _ (λ e h. marked_valid r.stale_after now e.1 h.1) r.workers
            v.entries)))

  valid_rejection :
      (policy : Policy) (request : Request) (w : Worker F) (excluded : List GoString)
      (reason : Rejection)
      → WorkerIsValid w
      → ineligibility policy request w excluded ≡ some reason
      → (reason ≡ excluded_attempt_worker)
        ⊎ (reason ≡ stale_heartbeat)
        ⊎ (reason ≡ incompatible_worker)
        ⊎ (reason ≡ Rejection.unhealthy)
  unfolding ineligibility
  valid_rejection policy request w excluded reason v e =
      ground (arith, str_eq_iff w.protocol_version protocol_version)

  -- Over a snapshot of a well-formed registry the router never rejects a worker for its protocol, its
  -- cache metadata or a missing metric: only exclusion, staleness, another model or its status can.
  pub snapshot_rejections :
      (r : Registry F) (now : Time) (policy : Policy) (request : Request) (excluded : List GoString)
      (w : Worker F) (reason : Rejection)
      → IsWellFormed r
      → Memᴰ w (snapshot r now)
      → ineligibility policy request w excluded ≡ some reason
      → (reason ≡ excluded_attempt_worker)
        ⊎ (reason ≡ stale_heartbeat)
        ⊎ (reason ≡ incompatible_worker)
        ⊎ (reason ≡ Rejection.unhealthy)
  snapshot_rejections r now policy request excluded w reason v m e =
      valid_rejection policy request w excluded reason
        (All-mem WorkerIsValid (snapshot_valid r now v) m) e
