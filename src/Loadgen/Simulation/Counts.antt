-- ===== src/Loadgen/Simulation/Counts.antt =====
-- What a simulated workload counts.
use aether_serve.Base.{
  ℕ, suc, ◌<◌, ◌≡◌, refl, sym, ap, subst, ◌∙◌, Bool, true, false, not, ◌&&◌, ltb, if◌then◌else◌,
  List, [], ◌∷◌, map, length, length-map, All, All-imp, All-map, ok,
}
use aether_serve.Base.Int.{pos}
use aether_serve.Base.Text.{GoString, str_eq, is_empty}
use aether_serve.Float.{Float, zero_float}
use aether_serve.Clock.{Duration}
use aether_serve.Routing.{Policy}
use aether_serve.Loadgen.{WorkItem, Sample, Tally, is_success, tally}
use aether_serve.Loadgen.Workload.{
  Random, Traces, Kind, fault_of, uniform, high_prefix_sharing, hot_prefix, mixed_lengths,
  mixed_outputs, heterogeneous_workers, slowdown, failure_before_first, failure_during_streaming,
  bursty, other,
}
use aether_serve.Loadgen.Workload.Items.{IsNamed, IsItem, StaysBelow, workload_items_lem}
use aether_serve.Loadgen.Simulator
use aether_serve.Loadgen.Simulator.{Simulator, run_all}
use aether_serve.Loadgen.Simulator.Selected.{outcome, outcome_of, run_all-new_outcomes}
use aether_serve.Loadgen.Simulation.{Report, simulated, loaded, simulate}

-- A workload whose requests are to fail.
abbrev pub fails : Kind → Bool
fails failure_before_first = true
fails failure_during_streaming = true
fails _ = false

-- `is_success` by what a sample says.
abbrev succeeded : ℕ × GoString → Bool
succeeded o = is_empty o.1 && not (ltb o.0 200) && ltb o.0 300

fault-success : (kind : Kind) → succeeded (outcome (fault_of kind)) ≡ not (fails kind)
unfolding str_eq
fault-success uniform = refl
fault-success high_prefix_sharing = refl
fault-success hot_prefix = refl
fault-success mixed_lengths = refl
fault-success mixed_outputs = refl
fault-success heterogeneous_workers = refl
fault-success slowdown = refl
fault-success failure_before_first = refl
fault-success failure_during_streaming = refl
fault-success bursty = refl
fault-success (other kind) = refl

flip :
    (bad : Bool) {m n : ℕ}
    → m ≡ n
    → ◌≡◌ {A = Tally}
        (record { completed = if not bad then m else 0; failed = if not bad then 0 else m })
        (record { completed = if bad then 0 else n; failed = if bad then n else 0 })
flip true e = rw e refl
flip false e = rw e refl

All-unmap :
    {A B : Type 0} (P : B → Type 0) (f : A → B) (xs : List A)
    → All P (map f xs)
    → All (λ x. P (f x)) xs
All-unmap P f [] h = tt
All-unmap P f (x ∷ xs) h = (h.0, All-unmap P f xs h.1)

module _ {F : Type 0} where
  -- The counts of samples that all succeed, or all fail.
  tally-all :
      (b : Bool) (samples : List (Sample F))
      → All (λ s. is_success s ≡ b) samples
      → tally samples ≡ record {
        completed = if b then length samples else 0;
        failed = if b then 0 else length samples;
      }
  unfolding tally
  tally-all true [] h = refl
  tally-all false [] h = refl
  tally-all true (s ∷ samples) h = rw (h.0, tally-all true samples h.1) refl
  tally-all false (s ∷ samples) h = rw (h.0, tally-all false samples h.1) refl

module _ {F S : Type 0} ⦃fl : Float F⦄ (random : Random S) (traces : Traces)
    (split : GoString → List GoString) (digest : GoString → GoString) where
  -- With a generator whose draws stay below their bound, and where the rates of the simulated workers are positive
  -- numbers: a simulation of a named workload with a positive count, under a policy that the router knows, reports that many
  -- requests; all of them complete, or, in the two workloads of failures, all fail.
  pub simulate_lem :
      (kind : Kind) (n seed : ℕ) (policy : Policy) (sim : Simulator F) (elapsed : ℕ → Duration)
      → IsNamed kind
      → StaysBelow random
      → ((m : ℕ) → 0 < m → fl.le (fl.literal m 0) zero_float ≡ false)
      → Simulator.new policy seed ≡ ok sim
      → (report : Report F) × (simulate random traces split digest
            (record {
              workload = kind;
              requests = pos (suc n);
              seed = seed;
              policy = policy;
              trace = [];
            })
            elapsed
          ≡ ok report)
        × (report.requests ≡ suc n)
        × (report.counts ≡ record {
          completed = if fails kind then 0 else suc n;
          failed = if fails kind then suc n else 0;
        })
  unfolding simulate loaded simulated
  simulate_lem kind n seed policy sim elapsed named below positive made =
      let (items, e, count, all) = workload_items_lem random traces kind n seed named below in
      let samples = (run_all split digest sim elapsed 0 items).1 in
      let says = run_all-new_outcomes split digest policy seed sim elapsed items positive made in
      let many : length samples ≡ suc n =
        sym (length-map outcome_of samples)
        ∙ ap length says
        ∙ length-map (λ (i : WorkItem). outcome i.fault) items
        ∙ count in
      let each : All (λ s. is_success s ≡ not (fails kind)) samples =
        All-unmap (λ o. succeeded o ≡ not (fails kind)) outcome_of samples
          (subst (All (λ o. succeeded o ≡ not (fails kind))) (sym says) (
            All-map _ _ items (
              All-imp (IsItem kind) _
                (λ i h. ap (λ f. succeeded (outcome f)) h.2 ∙ fault-success kind) items all))) in
      (
        record { requests = length items; counts = tally samples; samples = samples },
        rw (e, made) refl,
        count,
        tally-all (not (fails kind)) samples each ∙ flip (fails kind) many,
      )
