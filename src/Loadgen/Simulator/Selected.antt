-- ===== src/Loadgen/Simulator/Selected.antt =====
-- What the samples of a simulation say.
use aether_serve.Base.{
  ℕ, suc, ◌<◌, ◌≡◌, ◌≢◌, refl, subst, false, Bool-cases, inl, inr, if◌then◌else◌, List, [], ◌∷◌,
  Option, none, some, arith, All, ok, bind-ok, ok-injective, map,
}
use aether_serve.Base.Text.{GoString, str, str_eq, is_empty}
use aether_serve.Base.Sort.{find_by}
use aether_serve.Float.{Float, zero_float}
use aether_serve.Clock.{Duration}
use aether_serve.Model.{Worker, RoutingDecision}
use aether_serve.Routing
use aether_serve.Routing.{
  Router, Policy, Candidate, Sifted, no_eligible_workers, ineligibility, contains, conclude, select,
}
use aether_serve.Loadgen.{WorkItem, Sample}
use aether_serve.Loadgen.Simulator.{
  Simulator, sim_worker, new, load_from, request_of, serve_item, decided, run, run_all,
}
use aether_serve.Loadgen.Simulator.Eligible.{
  IsOpen, load_from-IsOpen, remember-IsOpen, remember-nonempty, load_from-nonempty, select-works,
}

abbrev pub served : GoString → ℕ × GoString
served fault =
    (200, if str_eq fault (str "midstream") then str "simulated midstream failure" else [])

-- What a sample of an item says, by the fault of the item.
abbrev pub outcome : GoString → ℕ × GoString
outcome fault =
    if str_eq fault (str "before_first")
    then (502, str "simulated pre-first-token failure")
    else served fault

abbrev pub outcome_of : {F : Type 0} → Sample F → ℕ × GoString
outcome_of s = (s.status, s.error)

module _ {F : Type 0} ⦃fl : Float F⦄ (split : GoString → List GoString)
    (digest : GoString → GoString) where
  -- A simulator that can serve any item.
  abbrev IsServing : Simulator F → Type 0
  IsServing sim = (sim.workers ≢ []) × All IsOpen sim.workers

  serve_item-outcome :
      (sim : Simulator F) (index : ℕ) (item : WorkItem) (d : RoutingDecision F)
      (found : Option (Worker F))
      → found ≢ none
      → IsServing sim
      → let (sim', s) = serve_item split digest sim index item d found in
        (outcome_of s ≡ served item.fault) × IsServing sim'
  unfolding serve_item
  serve_item-outcome sim index item d none n v = absurd (n refl)
  serve_item-outcome sim index item d (some w) n v =
      (refl, (remember-nonempty _ _ sim.workers v.0, remember-IsOpen _ _ sim.workers v.1))

  decided-outcome :
      (sim : Simulator F) (index : ℕ) (item : WorkItem) (d : RoutingDecision F)
      (e : Option Routing.Error)
      → e ≡ none
      → find_by (λ (w : Worker F). w.id) d.selected_worker sim.workers ≢ none
      → IsServing sim
      → let (sim', s) = decided split digest sim index item d e in
        (outcome_of s ≡ outcome item.fault) × IsServing sim'
  unfolding decided
  decided-outcome sim index item d (some e) q n v = absurd (cc)
  decided-outcome sim index item d none q n v =
      elim (Bool-cases (str_eq item.fault (str "before_first"))) [
        | inl fails ↦ rw fails (refl, v)
        | inr serves ↦ rw serves (serve_item-outcome sim index item d _ n v)
      ]

  run-outcome :
      (sim : Simulator F) (elapsed : Duration) (index : ℕ) (item : WorkItem)
      → IsServing sim
      → let (sim', s) = run split digest sim elapsed index item in
        (outcome_of s ≡ outcome item.fault) × IsServing sim'
  unfolding run
  run-outcome sim elapsed index item v =
      let ws = load_from index 0 sim.workers in
      let n = load_from-nonempty index 0 sim.workers v.0 in
      let fit = load_from-IsOpen index 0 sim.workers v.1 in
      let (e, found) =
        select-works sim.router elapsed (request_of split digest index item) ws refl n fit in
      decided-outcome (record { router = _; workers = ws }) index item _ _ e found (n, fit)

  run_all-outcome :
      (sim : Simulator F) (elapsed : ℕ → Duration) (index : ℕ) (items : List WorkItem)
      → IsServing sim
      → map outcome_of (run_all split digest sim elapsed index items).1
        ≡ map (λ item. outcome item.fault) items
  unfolding run_all
  run_all-outcome sim elapsed index [] v = refl
  run_all-outcome sim elapsed index (item ∷ items) v =
      let (e, w) = run-outcome sim (elapsed index) index item v in
      let rest =
        run_all-outcome (run split digest sim (elapsed index) index item).0 elapsed (suc index)
          items w in
      cc

  -- Where the rates of the simulated workers are positive numbers: a simulation over any items, under any policy that
  -- the router knows, answers each item as its fault says, with status 502 for a failure before the first token and
  -- 200 for any other, with an error for a failure midstream; no item finds no worker, or one that is gone.
  pub run_all-new_outcomes :
      (policy : Policy) (seed : ℕ) (sim : Simulator F) (elapsed : ℕ → Duration)
      (items : List WorkItem)
      → ((n : ℕ) → 0 < n → fl.le (fl.literal n 0) zero_float ≡ false)
      → new policy seed ≡ ok sim
      → map outcome_of (run_all split digest sim elapsed 0 items).1
        ≡ map (λ item. outcome item.fault) items
  unfolding new
  run_all-new_outcomes policy seed sim elapsed items positive e =
      let (r, _, made) = bind-ok (Routing.new policy seed) _ e in
      let eligible : (n m : ℕ)
          → 0 < n
          → 0 < m
          → (id : GoString) → is_empty id ≡ false
          → IsOpen {F = F} (sim_worker id n m) =
        λ n m p q id i. (
          refl,
          refl,
          i,
          refl,
          refl,
          omega arith,
          omega arith,
          positive n p,
          positive m q,
          omega arith,
        ) in
      run_all-outcome sim elapsed 0 items (
        subst IsServing (ok-injective made) (
          λ e. cc,
          (
            eligible 1200 120 (omega arith) (omega arith) (str "sim-a") refl,
            (
              eligible 800 80 (omega arith) (omega arith) (str "sim-b") refl,
              (eligible 500 50 (omega arith) (omega arith) (str "sim-c") refl, tt),
            ),
          ),
        ))
