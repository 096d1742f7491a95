-- ===== src/Tests/ServerRuns.antt =====
-- A server from its configuration to a request and its end.
use aether_serve.Base.{◌≡◌, refl, true, false, none, some, [], ◌∷◌, arith, ok}
use aether_serve.Base.Int.{ℤ}
use aether_serve.Base.Text.{str}
use aether_serve.Admission
use aether_serve.Admission.Ledger.{IsBalanced}
use aether_serve.Registry.Invariant.{IsWellFormed}
use aether_serve.Routing
use aether_serve.Config.{RouterConfig, Files, load, load_router, validate_router}
use aether_serve.Gateway.Http.{Texts}
use aether_serve.Gateway.Request.{Libraries}
use aether_serve.Gateway.Chat.{Server, Incoming, Surroundings, handle_chat}
use aether_serve.Gateway.Chat.Settled.{IsSettled, handle_chat-IsSettled}
use aether_serve.Gateway.Lifecycle
use aether_serve.Gateway.Lifecycle.{Endings, start, close}
use aether_serve.Gateway.Lifecycle.Opened.{IsRefused, load_router-new}
use aether_serve.Gateway.Lifecycle.Closed.{idle}
use aether_serve.Commands.{Host, router_main}
use aether_serve.Commands.Exits.{Exits, Succeeds, IsKind, router_main-Exits}
use aether_serve.Tests.Fixtures.{integers}
use aether_serve.Tests.RegistryRuns.{pair}
use aether_serve.Tests.RequestRuns.{lib, body}
use aether_serve.Tests.GatewayRuns.{flaky, router}
use aether_serve.Tests.WorkerRuns.{router_config}

-- A lease of 7 tokens is out.
abbrev busy : Server ℤ
busy = record {
  config = router_config;
  registry = pair;
  admission = record {
    controller = record { config = router_config.admission; used = 7; buckets = [] };
    leases = record { cost = 7; released = false } ∷ [];
  };
  router = router;
}

busy-IsBalanced : IsBalanced busy.admission
busy-IsBalanced = record { ledger = refl; within = omega arith; word = omega arith }

abbrev incoming : Incoming
incoming = record { request_id = str "q"; timeout = []; tenant = []; random = none; body = body }

abbrev met : Surroundings ℤ
met = record {
  parsed_at = 5;
  counted_at = 6;
  reserved_at = 6;
  tries = flaky;
  wrote_first = true;
  turns = [];
}

handle_chat-IsSettled_example : IsSettled busy (handle_chat lib busy incoming met)
handle_chat-IsSettled_example =
    handle_chat-IsSettled lib busy incoming met busy-IsBalanced (omega arith)

abbrev texts : Texts
texts = record { request = λ e. str "bad"; admission = λ e. str "full"; answer = λ a. str "down" }

-- One file, whatever its bytes.
abbrev files : Files (RouterConfig ℤ)
files = record { read_file = λ path. ok path; decode = λ bytes. ok router_config }

load_router-new_example :
    (s : Server ℤ) × (Lifecycle.new router_config ≡ ok s)
    × IsBalanced s.admission
    × IsWellFormed s.registry
    × ((lib : Libraries) (incoming : Incoming) (env : Surroundings ℤ)
        → IsRefused s (handle_chat lib s incoming env))
unfolding load_router load validate_router Routing.new Admission.new
load_router-new_example = load_router-new files (str "router.yaml") router_config refl (omega arith)

abbrev endings : Endings
endings = record { shutdown = none; stop = some (str "late"); active = none; clients = none }

abbrev quiet_endings : Endings
quiet_endings = record { shutdown = none; stop = none; active = none; clients = none }

abbrev host : Host
host = record { http = ok (str ":80"); control = ok (str ":90"); endings = quiet_endings }

router_main-Exits_example :
    Exits
      (str ":7" ∷ [])
      (Succeeds (load_router files (str "router.yaml")) × IsKind host)
      (router_main files (str "router.yaml") host (idle (str ":7" ∷ [])))
router_main-Exits_example = router_main-Exits files (str "router.yaml") host (str ":7" ∷ [])
