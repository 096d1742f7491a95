-- ===== src/Admission.antt =====
-- internal/admission/admission.go: token-aware admission. A method of the controller is one atomic
-- step, as it runs under the controller's mutex; the time that it reads is an argument.
pub mod Ledger
pub mod Buckets
use aether_serve.Base.{
  ℕ, Bool, true, false, ◌||◌, ltb, ◌==◌, if◌then◌else◌, Option, none, some, List, [], ◌∷◌, ◌++◌,
  Result, ok, err, get_elem?, set, length, add_u64, sub_u64,
}
use aether_serve.Base.Text.{GoString, str, is_empty}
use aether_serve.Base.Map.{Map, lookup, insert}
use aether_serve.Float.{Float, of_ℕ, zero_float, seconds}
use aether_serve.Clock.{Time, is_zero, sub}

pub data Error : Type 0 where
  limits_not_positive cost_not_positive tenant_limit global_limit : Error

pub record Config (F : Type 0) : Type 0 where
  pub global_inflight_tokens : ℕ
  pub tenant_rate_per_second : F
  pub tenant_burst_tokens : F

pub record Bucket (F : Type 0) : Type 0 where
  pub tokens : F
  pub last : Time

pub record Controller (F : Type 0) : Type 0 where
  pub config : Config F
  pub used : ℕ
  pub buckets : Map (Bucket F)

-- What a `*Lease` points to: `released` is the state of its `sync.Once`.
pub record Lease : Type 0 where
  pub cost : ℕ
  pub released : Bool

-- The controller and the leases that it has handed out; a handle is an index into `leases`.
pub record Store (F : Type 0) : Type 0 where
  pub controller : Controller F
  pub leases : List Lease

pub data Panic : Type 0 where
  reservation_underflow : Panic

-- The tenant that a request without one belongs to.
abbrev pub tenant_key : GoString → GoString
tenant_key tenant = if is_empty tenant then str "public" else tenant

-- `InFlight`.
abbrev pub in_flight : {F : Type 0} → Controller F → ℕ
in_flight c = c.used

module _ {F : Type 0} ⦃fl : Float F⦄ where
  -- `New`; the clock is an argument of the methods.
  unfoldable pub new : Config F → Result Error (Controller F)
  new config =
      if config.global_inflight_tokens == 0
        || fl.le config.tenant_rate_per_second zero_float
        || fl.le config.tenant_burst_tokens zero_float
      then err limits_not_positive
      else ok (record { config = config; used = 0; buckets = [] })

  abbrev pub min : F → F → F
  min a b = if fl.lt a b then a else b

  -- A missing key reads as the zero `bucket`.
  abbrev pub stored : Controller F → GoString → Bucket F
  stored c tenant = elim (lookup tenant c.buckets) [
    | none ↦ record { tokens = zero_float; last = 0 }
    | some b ↦ b
  ]

  -- The bucket brought up to `now`.
  unfoldable pub refill : Config F → Bucket F → Time → Bucket F
  refill config b now =
      if is_zero b.last
      then record { tokens = config.tenant_burst_tokens; last = now }
      else record {
        tokens =
            min config.tenant_burst_tokens
              (fl.add b.tokens (fl.mul (seconds (sub now b.last)) config.tenant_rate_per_second));
        last = now;
      }

  -- The two limits, in the order of the code; each refusal stores the refilled bucket.
  unfoldable pub charge : Controller F → GoString → Bucket F → ℕ → Controller F × Result Error ℕ
  charge c tenant b cost =
      let refused : Controller F = record c { buckets = insert tenant b c.buckets } in
      if fl.lt b.tokens (of_ℕ cost)
      then (refused, err tenant_limit)
      else if ltb (sub_u64 c.config.global_inflight_tokens c.used) cost
      then (refused, err global_limit)
      else (
        record c {
          used = add_u64 c.used cost;
          buckets = insert tenant (record b { tokens = fl.sub b.tokens (of_ℕ cost) }) c.buckets;
        },
        ok cost,
      )

  -- `Reserve`; the result is the cost of the lease.
  unfoldable pub reserve : Controller F → Time → GoString → ℕ → Controller F × Result Error ℕ
  reserve c now tenant cost =
      if cost == 0
      then (c, err cost_not_positive)
      else charge c (tenant_key tenant) (refill c.config (stored c (tenant_key tenant)) now) cost

  -- `Reserve` with the lease that it allocates.
  unfoldable pub reserve_lease : Store F → Time → GoString → ℕ → Store F × Result Error ℕ
  reserve_lease s now tenant cost =
      let (c, r) = reserve s.controller now tenant cost in
      elim r [
        | ok granted ↦ (
          record {
            controller = c;
            leases = s.leases ++ record { cost = granted; released = false } ∷ [];
          },
          ok (length s.leases),
        )
        | err e ↦ (record s { controller = c }, err e)
      ]

  -- The body of `once.Do`.
  unfoldable pub give_back : Store F → ℕ → Lease → Result Panic (Store F)
  give_back s i lease =
      if ltb s.controller.used lease.cost
      then err reservation_underflow
      else ok (record {
        controller = record (s.controller) { used = sub_u64 (s.controller).used lease.cost };
        leases = set s.leases i (record lease { released = true });
      })

  -- `Release` of a lease; `none` is the nil pointer, and an index out of range is no pointer.
  unfoldable pub release : Store F → Option ℕ → Result Panic (Store F)
  release s none = ok s
  release s (some i) = elim (get_elem? s.leases i) [
    | none ↦ ok s
    | some lease ↦ if lease.released then ok s else give_back s i lease
  ]
