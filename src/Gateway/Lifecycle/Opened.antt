-- ===== src/Gateway/Lifecycle/Opened.antt =====
-- The server that a loaded configuration makes.
use aether_serve.Base.{
  ◌^◌, ◌<◌, ◌≡◌, refl, [], Result, ok, err, bind-ok, arith, ok-injective, subst, ap, ◌∙◌,
}
use aether_serve.Base.Text.{GoString}
use aether_serve.Base.Sort.{sort_by}
use aether_serve.Float.{Float}
use aether_serve.Clock.{Time, Duration}
use aether_serve.Config.{RouterConfig, Files, load, load_router, validate_router}
use aether_serve.Config.Limits.{validated_builds}
use aether_serve.Admission
use aether_serve.Admission.{Controller}
use aether_serve.Admission.Ledger.{IsBalanced}
use aether_serve.Registry
use aether_serve.Registry.{Registry, healthy_count, count_healthy, snapshot}
use aether_serve.Registry.Invariant.{IsWellFormed}
use aether_serve.Model.{Request}
use aether_serve.Gateway.Request
use aether_serve.Gateway.Request.{Libraries, parse_request}
use aether_serve.Gateway.Chat.{
  Server, Incoming, Surroundings, Response, bad_request, unavailable, parsed, admit, handle_chat,
}
use aether_serve.Gateway.Lifecycle.{new}

-- A response to a request that is refused before it is reserved.
abbrev pub IsEarly : Response → Type 0
IsEarly (bad_request e) = Unit {0}
IsEarly unavailable = Unit {0}
IsEarly _ = ⊥

empty_registry :
    (F : Type 0) (d : Duration) (now : Time)
    → healthy_count {F = F} (record { workers = []; stale_after = d }) now ≡ 0
unfolding healthy_count count_healthy snapshot sort_by
empty_registry F d now = refl

module _ {F : Type 0} ⦃fl : Float F⦄ where
  pub load_router-valid :
      (files : Files (RouterConfig F)) (path : GoString) (c : RouterConfig F)
      → load_router files path ≡ ok c
      → validate_router c ≡ ok tt
  unfolding load_router
  load_router-valid files path c e =
      let (a, _, e₁) = bind-ok (load files path) _ e in
      let (_, q, e₂) = bind-ok (validate_router a) _ e₁ in
      subst (λ (c : RouterConfig F). validate_router c ≡ ok tt) (ok-injective e₂) q

  registry_empty :
      (d : Duration) (g : Registry F)
      → Registry.new d ≡ ok g
      → g ≡ record { workers = []; stale_after = d }
  unfolding Registry.new
  registry_empty d g e = ground arith

  admission-IsBalanced :
      (config : Admission.Config F) (c : Controller F)
      → config.global_inflight_tokens < 2 ^ 64
      → Admission.new config ≡ ok c
      → IsBalanced (record { controller = c; leases = [] })
  unfolding Admission.new
  admission-IsBalanced config c fits e = ground arith

  -- A handler that refuses the request and changes nothing.
  abbrev pub IsRefused : Server F → Result Admission.Panic (Server F × Response) → Type 0
  IsRefused s out = (r : Response) × (out ≡ ok (s, r)) × IsEarly r

  admit-IsRefused :
      (s : Server F) (env : Surroundings F) (request : Request)
      → healthy_count s.registry env.counted_at ≡ 0
      → IsRefused s (admit s env request)
  unfolding admit
  admit-IsRefused s env request e = (unavailable, rw e refl, tt)

  parsed-IsRefused :
      (s : Server F) (env : Surroundings F) (r : Result Request.Error Request)
      → healthy_count s.registry env.counted_at ≡ 0
      → IsRefused s (parsed s env r)
  unfolding parsed
  parsed-IsRefused s env (err e) h = (bad_request e, refl, tt)
  parsed-IsRefused s env (ok request) h = admit-IsRefused s env request h

  -- A router configuration that loads, whose global limit fits a 64-bit word, builds a server: its admission is balanced,
  -- its registry well-formed, and until a worker registers it refuses every request, as malformed or for the lack of a
  -- healthy worker, without a panic or a change.
  pub load_router-new :
      (files : Files (RouterConfig F)) (path : GoString) (c : RouterConfig F)
      → load_router files path ≡ ok c
      → c.admission.global_inflight_tokens < 2 ^ 64
      → (s : Server F) × (new c ≡ ok s)
        × IsBalanced s.admission
        × IsWellFormed s.registry
        × ((lib : Libraries) (incoming : Incoming) (env : Surroundings F)
            → IsRefused s (handle_chat lib s incoming env))
  unfolding new handle_chat
  load_router-new files path c e fits =
      let valid = load_router-valid files path c e in
      let ((g, gq), (a, aq), (r, rq)) = validated_builds c valid in
      let empty = registry_empty c.heartbeat_stale_after g gq in
      (
        record {
          config = c;
          registry = g;
          admission = record { controller = a; leases = [] };
          router = r;
        },
        rw (valid, gq, aq, rq) refl,
        admission-IsBalanced c.admission a fits aq,
        rw empty (record { keys = tt; entries = tt }),
        λ lib incoming env. parsed-IsRefused _ env _ (
            ap (λ (g : Registry F). healthy_count g env.counted_at) empty
            ∙ empty_registry F c.heartbeat_stale_after env.counted_at),
      )
