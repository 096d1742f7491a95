-- ===== src/Config/Limits.antt =====
-- What a validated router configuration is good for.
use aether_serve.Base.{[], ◌≡◌, refl, false, Result, ok, err, arith}
use aether_serve.Base.Int.{pos, leb_ℤ}
use aether_serve.Float.{Float}
use aether_serve.Admission
use aether_serve.Admission.{Controller}
use aether_serve.Registry
use aether_serve.Registry.{Registry}
use aether_serve.Routing
use aether_serve.Routing.{Router, Policy}
use aether_serve.Config.{RouterConfig, Error, check, validate_router}

check_ok :
    {E A : Type 0} (wrap : E → Error) (r : Result E A) → check wrap r ≡ ok tt → (a : A) × (r ≡ ok a)
check_ok wrap (ok a) e = (a, refl)
check_ok wrap (err x) e = absurd (cc)

module _ {F : Type 0} ⦃fl : Float F⦄ where
  checked :
      (c : RouterConfig F)
      → validate_router c ≡ ok tt
      → (check Error.routing_error (Routing.new c.routing.policy c.routing.round_robin_seed)
          ≡ ok tt)
        × (check Error.admission_error (Admission.new c.admission) ≡ ok tt)
        × (leb_ℤ c.heartbeat_stale_after (pos 0) ≡ false)
  unfolding validate_router
  checked c e = ground arith

  -- With a validated configuration the router's three components can all be built: no later
  -- constructor refuses what validation let pass.
  pub validated_builds :
      (c : RouterConfig F)
      → validate_router c ≡ ok tt
      → ((g : Registry F) × (Registry.new c.heartbeat_stale_after ≡ ok g))
        × ((a : Controller F) × (Admission.new c.admission ≡ ok a))
        × ((r : Router) × (Routing.new c.routing.policy c.routing.round_robin_seed ≡ ok r))
  unfolding Registry.new
  validated_builds c e =
      let (r, a, stale) = checked c e in
      (
        (record { workers = []; stale_after = c.heartbeat_stale_after }, ground (arith, stale)),
        check_ok Error.admission_error (Admission.new c.admission) a,
        check_ok Error.routing_error (Routing.new c.routing.policy c.routing.round_robin_seed) r,
      )
