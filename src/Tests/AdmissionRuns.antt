-- ===== src/Tests/AdmissionRuns.antt =====
-- Admission at work.
use aether_serve.Base.{◌≤◌, ◌≡◌, refl, true, false, none, some, List, [], ◌∷◌, arith, ok, err}
use aether_serve.Base.Int.{ℤ, pos}
use aether_serve.Base.Text.{str, str_eq, ne_of_str_eq}
use aether_serve.Base.Map.{lookup, insert}
use aether_serve.Admission.{
  Config, Controller, Store, new, refill, global_limit, reserve, charge, reserve_lease, release,
  give_back, in_flight,
}
use aether_serve.Admission.Ledger.{
  Call, reserves, releases, run, step, outstanding, run-new_balanced,
}
use aether_serve.Admission.Buckets.{IsCapped, reserve-isolated, reserve-IsCapped}
use aether_serve.Tests.Fixtures.{integers, integers_order}

abbrev config : Config ℤ
config = record {
  global_inflight_tokens = 10;
  tenant_rate_per_second = pos 10;
  tenant_burst_tokens = pos 10;
}

abbrev fresh : Controller ℤ
fresh = record { config = config; used = 0; buckets = [] }

-- The history of `TestReservationReleasesExactlyOnce`, a second later refused by the global limit.
abbrev calls : List Call
calls =
    reserves 1 (str "tenant") 6
    ∷ releases (some 0)
    ∷ releases (some 0)
    ∷ releases none
    ∷ reserves 1 (str "tenant") 5
    ∷ reserves 1000000001 (str "tenant") 5
    ∷ []

abbrev one_out : Store ℤ
one_out = record {
  controller = record { config = config; used = 6; buckets = [] };
  leases = record { cost = 6; released = false } ∷ [];
}

-- The last reservation is granted after a refill; the fourth call is refused.
runs :
    run (record { controller = fresh; leases = [] }) calls
    ≡ ok (record {
      controller = record {
        config = config;
        used = 5;
        buckets = (str "tenant", record { tokens = pos 5; last = 1000000001 }) ∷ [];
      };
      leases = record { cost = 6; released = true } ∷ record { cost = 5; released = false } ∷ [];
    })
unfolding run step reserve_lease reserve charge refill release give_back lookup insert str_eq
runs = refl

-- A rejection by the global limit leaves the bucket full, as in `TestGlobalRejectionDoesNotChargeTenant`.
global_rejection : (reserve (record fresh { used = 8 }) 1 (str "t") 5) ≡ (
  record {
    config = config;
    used = 8;
    buckets = (str "t", record { tokens = pos 10; last = 1 }) ∷ [];
  },
  err global_limit,
)
unfolding reserve charge refill lookup insert str_eq
global_rejection = refl

run-new_balanced_example :
    (t : Store ℤ) × (run (record { controller = fresh; leases = [] }) calls ≡ ok t)
    × (in_flight t.controller ≡ outstanding t.leases)
    × (in_flight t.controller ≤ t.controller.config.global_inflight_tokens)
unfolding new
run-new_balanced_example = run-new_balanced config calls (omega arith) refl

reserve-isolated_example :
    lookup (str "u") (reserve fresh 1 (str "t") 5).0.buckets ≡ lookup (str "u") fresh.buckets
unfolding str_eq
reserve-isolated_example =
    reserve-isolated fresh 1 (str "t") (str "u") 5 (ne_of_str_eq (str "u") (str "t") refl)

reserve-IsCapped_example : IsCapped (reserve fresh 1 (str "t") 5).0
reserve-IsCapped_example = reserve-IsCapped integers_order fresh 1 (str "t") 5 tt
