-- ===== src/Loadgen/Simulation.antt =====
-- cmd/loadgen/main.go: `main` in the mode of the deterministic simulation, from its flags to what it reports. The throughput,
-- the percentiles and the writing of the report are left out.
pub mod Counts
use aether_serve.Base.{ℕ, List, Result, ok, err, length}
use aether_serve.Base.Int.{ℤ}
use aether_serve.Base.Text.{GoString}
use aether_serve.Float.{Float}
use aether_serve.Clock.{Duration}
use aether_serve.Routing
use aether_serve.Routing.{Policy}
use aether_serve.Loadgen.{WorkItem, Sample, Tally, tally}
use aether_serve.Loadgen.Workload
use aether_serve.Loadgen.Workload.{Random, Traces, Kind, workload_items}
use aether_serve.Loadgen.Simulator
use aether_serve.Loadgen.Simulator.{Simulator, run_all}

-- The flags.
pub record Flags : Type 0 where
  pub workload : Kind
  pub requests : ℤ
  pub seed : ℕ
  pub policy : Policy
  pub trace : GoString

-- What ends the program with `fatal`.
pub data Error : Type 0 where
  workload_error : Workload.Error → Error
  routing_error : Routing.Error → Error

-- What `result` counts, with the samples.
pub record Report (F : Type 0) : Type 0 where
  pub requests : ℕ
  pub counts : Tally
  pub samples : List (Sample F)

module _ {F S : Type 0} ⦃fl : Float F⦄ (random : Random S) (traces : Traces)
    (split : GoString → List GoString) (digest : GoString → GoString) where
  -- What follows `newRoutingSimulator`.
  unfoldable pub simulated :
      (ℕ → Duration) → List WorkItem → Result Routing.Error (Simulator F) → Result Error (Report F)
  simulated elapsed items (err e) = err (routing_error e)
  simulated elapsed items (ok sim) =
      let samples = (run_all split digest sim elapsed 0 items).1 in
      ok (record { requests = length items; counts = tally samples; samples = samples })

  -- What follows `workloadItems`.
  unfoldable pub loaded :
      Flags → (ℕ → Duration) → Result Workload.Error (List WorkItem) → Result Error (Report F)
  loaded flags elapsed (err e) = err (workload_error e)
  loaded flags elapsed (ok items) = simulated elapsed items (Simulator.new flags.policy flags.seed)

  -- With the time that each decision takes.
  unfoldable pub simulate : Flags → (ℕ → Duration) → Result Error (Report F)
  simulate flags elapsed =
      loaded flags elapsed
        (workload_items random traces flags.workload flags.requests flags.seed flags.trace)
