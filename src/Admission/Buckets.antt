-- ===== src/Admission/Buckets.antt =====
-- The tenants' buckets: which one a reservation writes, and what it may hold.
use aether_serve.Base.{ℕ, ◌≡◌, ◌≢◌, false, some, arith, Result, err, All, if_both, ltb, sub_u64}
use aether_serve.Base.Text.{GoString, str_eq_iff}
use aether_serve.Base.Map.{lookup, lookup-insert, All-insert}
use aether_serve.Float.{Float, OrderLaws, of_ℕ}
use aether_serve.Clock.{Time}
use aether_serve.Admission.{
  Config, Bucket, Controller, Error, tenant_key, stored, refill, charge, reserve, in_flight,
}

module _ {F : Type 0} ⦃fl : Float F⦄ where
  -- A reservation, granted or refused, leaves every other tenant's bucket as it was.
  pub reserve-isolated :
      (c : Controller F) (now : Time) (tenant other : GoString) (cost : ℕ)
      → other ≢ tenant_key tenant
      → lookup other (reserve c now tenant cost).0.buckets ≡ lookup other c.buckets
  unfolding reserve charge
  reserve-isolated c now tenant other cost ne =
      grind (arith, str_eq_iff (tenant_key tenant) other, lookup-insert)

  -- A refused reservation of a positive cost debits nothing: the in-flight total is unchanged, and the
  -- tenant's bucket is the one refilled to the time of the call.
  pub reserve_refused :
      (c : Controller F) (now : Time) (tenant : GoString) (cost : ℕ) (e : Error)
      → cost ≢ 0
      → (reserve c now tenant cost).1 ≡ err e
      → let c' : Controller F = (reserve c now tenant cost).0 in
        let key = tenant_key tenant in
        (in_flight c' ≡ in_flight c)
        × (lookup key c'.buckets ≡ some (refill c.config (stored c key) now))
  unfolding reserve charge
  reserve_refused c now tenant cost e pos r =
      grind (arith, str_eq_iff (tenant_key tenant) (tenant_key tenant), lookup-insert)

  -- No bucket holds more than the configured burst.
  abbrev pub IsCapped : Controller F → Type 0
  IsCapped c = All (λ e. fl.lt c.config.tenant_burst_tokens e.1.tokens ≡ false) c.buckets

  refill-capped :
      (laws : OrderLaws F) (config : Config F) (b : Bucket F) (now : Time)
      → fl.lt config.tenant_burst_tokens (refill config b now).tokens ≡ false
  unfolding refill
  refill-capped laws config b now = ground (arith, laws.lt_irrefl config.tenant_burst_tokens)

  charge-IsCapped :
      (laws : OrderLaws F) (c : Controller F) (key : GoString) (b : Bucket F) (cost : ℕ)
      → fl.lt c.config.tenant_burst_tokens b.tokens ≡ false
      → IsCapped c
      → IsCapped (charge c key b cost).0
  unfolding charge
  charge-IsCapped laws c key b cost p h =
      let Capped : GoString × Bucket F → Type 0 =
        λ e. fl.lt c.config.tenant_burst_tokens e.1.tokens ≡ false in
      let refused = All-insert Capped key b c.buckets h p in
      if_both P (fl.lt b.tokens (of_ℕ cost)) _ _ refused (
        if_both P (ltb (sub_u64 c.config.global_inflight_tokens c.used) cost) _ _ refused
          (All-insert Capped key _ c.buckets h (laws.sub_bounded _ _ cost p)))
    where
      P : Controller F × Result Error ℕ → Type 0
      P r = IsCapped r.0

  -- Where the order laws of floats hold and no bucket holds more than the burst: after a reservation,
  -- granted or refused, no bucket does.
  pub reserve-IsCapped :
      (laws : OrderLaws F) (c : Controller F) (now : Time) (tenant : GoString) (cost : ℕ)
      → IsCapped c
      → IsCapped (reserve c now tenant cost).0
  unfolding reserve
  reserve-IsCapped laws c now tenant cost h =
      let key = tenant_key tenant in
      let b : Bucket F = refill c.config (stored c key) now in
      ground (
        arith,
        h,
        charge-IsCapped laws c key b cost (refill-capped laws c.config (stored c key) now) h,
      )
