-- ===== src/Registry/Valid.antt =====
-- What `validate` and `validateState` accept.
use aether_serve.Base.{◌≤◌, ◌<◌, ◌≡◌, ◌↔◌, refl, false, List, [], ◌∷◌, arith, ok, All}
use aether_serve.Base.Text.{str_eq_iff, is_empty}
use aether_serve.Float.{Float, zero_float}
use aether_serve.Model.{PrefixFingerprint, WorkerStatus, WorkerState, Worker, protocol_version}
use aether_serve.Registry.{valid_prefixes, validate_state, validate}

-- One of the three named statuses.
abbrev pub IsKnown : WorkerStatus → Type 0
IsKnown (WorkerStatus.other s) = ⊥
IsKnown _ = Unit {0}

abbrev pub PrefixIsValid : PrefixFingerprint → Type 0
PrefixIsValid p = (0 < p.token_count) × (is_empty p.sha256 ≡ false)

pub valid_prefixes_iff :
    (ps : List PrefixFingerprint) → (valid_prefixes ps ≡ ok tt) ↔ All PrefixIsValid ps
unfolding valid_prefixes
valid_prefixes_iff [] = (λ e. tt, λ h. refl)
valid_prefixes_iff (p ∷ ps) = (
  λ e. ground (arith, (valid_prefixes_iff ps).0),
  λ h. ground (arith, (valid_prefixes_iff ps).1 h.1),
)

module _ {F : Type 0} ⦃fl : Float F⦄ where
  pub record StateIsValid (s : WorkerState F) : Type 0 where
    pub version : 0 < s.status_version
    pub known : IsKnown s.status
    pub capacity : 0 < s.kv_usage.capacity_tokens
    pub usage : s.kv_usage.used_tokens ≤ s.kv_usage.capacity_tokens
    pub prefill : fl.le s.prefill_tokens_per_second zero_float ≡ false
    pub decode : fl.le s.decode_tokens_per_second zero_float ≡ false
    pub quantum : 0 < s.decode_scheduling_quantum_tokens
    pub prefixes : All PrefixIsValid s.cached_prefixes

  -- A state passes exactly when every one of its fields is in order.
  pub validate_state_iff : (s : WorkerState F) → (validate_state s ≡ ok tt) ↔ StateIsValid s
  unfolding validate_state
  validate_state_iff s = (
    λ e. ground (arith, (valid_prefixes_iff s.cached_prefixes).0),
    λ v. ground (arith, (valid_prefixes_iff s.cached_prefixes).1 v.prefixes),
  )

  pub record WorkerIsValid (w : Worker F) : Type 0 where
    pub identity : is_empty w.id ≡ false
    pub address : is_empty w.data_address ≡ false
    pub model : is_empty w.model ≡ false
    pub protocol : w.protocol_version ≡ protocol_version
    pub state : StateIsValid w.state

  pub validate_iff : (w : Worker F) → (validate w ≡ ok tt) ↔ WorkerIsValid w
  unfolding validate
  validate_iff w = (
    λ e.
        ground
          (arith, str_eq_iff w.protocol_version protocol_version, (validate_state_iff w.state).0),
    λ v. ground (
      arith,
      str_eq_iff w.protocol_version protocol_version,
      (validate_state_iff w.state).1 v.state,
    ),
  )
