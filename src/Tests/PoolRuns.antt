-- ===== src/Tests/PoolRuns.antt =====
-- The pool and the metrics.
use aether_serve.Base.{ℕ, ◌≡◌, refl, true, List, [], ◌∷◌}
use aether_serve.Base.Int.{ℤ, pos}
use aether_serve.Base.Text.{str}
use aether_serve.Base.Map.{lookup, insert, values}
use aether_serve.Pool.{asks, returns, dial, publish, miss, System, call, move, Reach, start, later}
use aether_serve.Pool.Owners.{count, is_live, Reach-settled}
use aether_serve.Base.Text.{GoString}
use mathlib.Core.List.{Permᴰ}
use aether_serve.Metrics
use aether_serve.Metrics.{Registry, Formats, page}
use aether_serve.Metrics.Page.{page-eq_of_perm}
use aether_serve.Metrics.Counts.{Call, adds, incs, observes}
use aether_serve.Tests.Fixtures.{integers}

-- One call dials a worker and returns the connection.
abbrev connected : System
connected = record {
  shared = record { connections = (str "w", 0) ∷ []; live = true ∷ [] };
  calls = returns 0 ∷ [];
}

reach : Reach connected
unfolding lookup insert
reach =
    later
      (later (later (later start (call (asks (str "w")) tt)) (move 0 refl (miss refl)))
        (move 0 refl dial))
      (move 0 refl (publish refl))

Reach-settled_example :
    count 0 (values connected.shared.connections) ≡ is_live connected.shared.live 0
Reach-settled_example = Reach-settled reach (refl, tt) 0

abbrev metric_calls : List (Call ℤ)
metric_calls = adds (str "n") 5 ∷ incs (str "m") ∷ incs (str "n") ∷ observes (str "n") (pos 2) ∷ []

abbrev formats : Formats ℤ
formats = record { runes = λ s. s; quote = λ s. s; general = λ x. [] }

abbrev counted : List (GoString × ℕ) → Registry ℤ
counted counters = record (Metrics.new) { counters = counters }

page-eq_of_perm_example :
    page formats (counted ((1 ∷ [], 2) ∷ (0 ∷ [], 1) ∷ []))
    ≡ page formats (counted ((0 ∷ [], 1) ∷ (1 ∷ [], 2) ∷ []))
page-eq_of_perm_example =
    page-eq_of_perm formats (counted ((1 ∷ [], 2) ∷ (0 ∷ [], 1) ∷ []))
      (counted ((0 ∷ [], 1) ∷ (1 ∷ [], 2) ∷ []))
      (record {
        counters = ((λ e. cc, tt), (tt, tt));
        labeled_counters = tt;
        gauges = tt;
        labeled_gauges = tt;
        histograms = tt;
      })
      (record {
        counters = Permᴰ.swap refl refl;
        labeled_counters = Permᴰ.nil;
        gauges = Permᴰ.nil;
        labeled_gauges = Permᴰ.nil;
        histograms = Permᴰ.nil;
      })
