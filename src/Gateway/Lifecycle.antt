-- ===== src/Gateway/Lifecycle.antt =====
-- internal/gateway/server.go: `New`, `Start`, the addresses and `Close`. What the operating system and the servers answer
-- is an input; the goroutines that `Start` leaves running are not modelled.
pub mod Opened
pub mod Closed
use aether_serve.Base.{
  ℕ, Bool, true, false, Option, none, some, List, [], ◌∷◌, Result, ok, err, ◌>>=◌, ◌>>◌,
  if◌then◌else◌,
}
use aether_serve.Base.Text.{GoString, str_eq}
use aether_serve.Float.{Float}
use aether_serve.Config
use aether_serve.Config.{RouterConfig, validate_router}
use aether_serve.Admission
use aether_serve.Registry
use aether_serve.Routing
use aether_serve.Gateway.Chat.{Server}

pub data Error : Type 0 where
  config_error : Config.Error → Error
  registry_error : Registry.Error → Error
  admission_error : Admission.Error → Error
  routing_error : Routing.Error → Error

-- `if err != nil { return nil, err }`.
abbrev pub pass : {E A : Type 0} → (E → Error) → Result E A → Result Error A
pass wrap (ok a) = ok a
pass wrap (err e) = err (wrap e)

-- `New`.
unfoldable pub new : {F : Type 0} ⦃fl : Float F⦄ → RouterConfig F → Result Error (Server F)
new config = do
  pass config_error (validate_router config)
  registry ← pass registry_error (Registry.new config.heartbeat_stale_after)
  admission ← pass admission_error (Admission.new config.admission)
  router ← pass routing_error (Routing.new config.routing.policy config.routing.round_robin_seed)
  ok (record {
    config = config;
    registry = registry;
    admission = record { controller = admission; leases = [] };
    router = router;
  })

-- A listener that is closed is no longer among the open ones.
unfoldable pub close_listener : GoString → List GoString → List GoString
close_listener a [] = []
close_listener a (b ∷ listening) = if str_eq b a then listening else b ∷ close_listener a listening

-- What `Start` and `Close` change of a server: the listeners, which are set together with the servers; whether it is
-- closed, ready and cancelled; and the addresses on which the process listens.
pub record Process : Type 0 where
  pub http_listener : Option GoString
  pub control_listener : Option GoString
  pub closed : Bool
  pub ready : Bool
  pub cancelled : Bool
  pub listening : List GoString

-- `Start`, with the two listeners that the system gives, by their addresses, or refuses.
unfoldable pub start :
    Result GoString GoString → Result GoString GoString → Process → Process × Option GoString
start (err e) control p = (p, some e)
start (ok http) (err e) p =
    (record p { listening = close_listener http (http ∷ p.listening) }, some e)
start (ok http) (ok control) p = (
  record p {
    http_listener = some http;
    control_listener = some control;
    listening = http ∷ control ∷ p.listening;
  },
  none,
)

-- `HTTPAddress` and `ControlAddress`.
abbrev pub address : Option GoString → GoString
address none = []
address (some a) = a

-- The errors of the parts that end, if any: the shutdown of the HTTP server; the context, where the graceful stop or
-- the active requests outlast it; and the closing of the pool.
pub record Endings : Type 0 where
  pub shutdown : Option GoString
  pub stop : Option GoString
  pub active : Option GoString
  pub clients : Option GoString

-- `if result == nil { result = err }`.
abbrev pub keep : Option GoString → Option GoString → Option GoString
keep none e = e
keep (some r) e = some r

-- A part that exists only where there is a listener.
abbrev pub if_set : {A : Type 0} → Option GoString → (GoString → A) → A → A
if_set none f otherwise = otherwise
if_set (some a) f otherwise = f a

-- The body of `closeOnce.Do`.
unfoldable pub close_once : Process → Endings → Process × Option GoString
close_once p e =
    let result = if_set p.http_listener (λ _. e.shutdown) none in
    let result = keep result (if_set p.control_listener (λ _. e.stop) none) in
    let listening = if_set p.http_listener (λ a. close_listener a p.listening) p.listening in
    let listening = if_set p.control_listener (λ a. close_listener a listening) listening in
    let result = keep result e.active in
    (
      record p { ready = false; cancelled = true; listening = listening; closed = true },
      keep result e.clients,
    )

-- `Close`.
unfoldable pub close : Process → Endings → Process × Option GoString
close p e = if p.closed then (p, none) else close_once p e
