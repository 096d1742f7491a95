-- ===== src/Metrics/Counts.antt =====
-- What the counters and histograms say about a history of calls.
use aether_serve.Base.{
  ℕ, ◌+◌, ◌%◌, ◌^◌, ◌<◌, ◌≡◌, refl, if◌then◌else◌, List, [], ◌∷◌, arith, add_u64,
}
use aether_serve.Base.Text.{GoString, str_eq, str_eq_iff}
use aether_serve.Base.Map.{lookup, lookup-insert}
use aether_serve.Float.{Float}
use aether_serve.Metrics.{
  Registry, new, or_zero, or_empty, add, inc, inc_label, set_gauge, set_label, observe,
}

-- A call of a method.
pub data Call (F : Type 0) : Type 0 where
  adds : GoString → ℕ → Call F
  incs : GoString → Call F
  incs_label : GoString → GoString → GoString → Call F
  sets : GoString → F → Call F
  sets_label : GoString → GoString → GoString → F → Call F
  observes : GoString → F → Call F

module _ {F : Type 0} ⦃fl : Float F⦄ where
  unfoldable pub step : Registry F → Call F → Registry F
  step r (adds name value) = add r name value
  step r (incs name) = inc r name
  step r (incs_label name label value) = inc_label r name label value
  step r (sets name value) = set_gauge r name value
  step r (sets_label name label value number) = set_label r name label value number
  step r (observes name value) = observe r name value

  unfoldable pub run : Registry F → List (Call F) → Registry F
  run r [] = r
  run r (c ∷ cs) = run (step r c) cs

  -- What a call adds to a counter, and to the count of a histogram.
  abbrev pub amount : GoString → Call F → ℕ
  amount name (adds k value) = if str_eq k name then value else 0
  amount name (incs k) = if str_eq k name then 1 else 0
  amount name _ = 0

  abbrev pub observed : GoString → Call F → ℕ
  observed name (observes k value) = if str_eq k name then 1 else 0
  observed name _ = 0

  abbrev pub sum_of : (Call F → ℕ) → List (Call F) → ℕ
  sum_of f [] = 0
  sum_of f (c ∷ cs) = f c + sum_of f cs

  abbrev pub counter : Registry F → GoString → ℕ
  counter r name = or_zero (lookup name r.counters)

  abbrev pub observations : Registry F → GoString → ℕ
  observations r name = (or_empty (lookup name r.histograms)).count

  step-counter :
      (r : Registry F) (c : Call F) (name : GoString)
      → counter r name < 2 ^ 64
      → counter (step r c) name ≡ (counter r name + amount name c) % 2 ^ 64
  unfolding step add inc inc_label set_gauge set_label observe
  step-counter r (adds k value) name h = ground (
    arith,
    h,
    str_eq_iff k name,
    lookup-insert k name (add_u64 (or_zero (lookup k r.counters)) value) r.counters,
  )
  step-counter r (incs k) name h = ground (
    arith,
    h,
    str_eq_iff k name,
    lookup-insert k name (add_u64 (or_zero (lookup k r.counters)) 1) r.counters,
  )
  step-counter r (incs_label k label value) name h = omega (arith, h)
  step-counter r (sets k value) name h = omega (arith, h)
  step-counter r (sets_label k label value number) name h = omega (arith, h)
  step-counter r (observes k value) name h = omega (arith, h)

  step-observations :
      (r : Registry F) (c : Call F) (name : GoString)
      → observations r name < 2 ^ 64
      → observations (step r c) name ≡ (observations r name + observed name c) % 2 ^ 64
  unfolding step add inc inc_label set_gauge set_label observe
  step-observations r (observes k value) name h = ground (
    arith,
    h,
    str_eq_iff k name,
    lookup-insert k name
        (record {
          count = add_u64 (or_empty (lookup k r.histograms)).count 1;
          sum = fl.add (or_empty (lookup k r.histograms)).sum value;
        })
        r.histograms,
  )
  step-observations r (adds k value) name h = omega (arith, h)
  step-observations r (incs k) name h = omega (arith, h)
  step-observations r (incs_label k label value) name h = omega (arith, h)
  step-observations r (sets k value) name h = omega (arith, h)
  step-observations r (sets_label k label value number) name h = omega (arith, h)

  run-counts :
      (r : Registry F) (cs : List (Call F)) (name : GoString)
      → counter r name < 2 ^ 64
      → observations r name < 2 ^ 64
      → (counter (run r cs) name ≡ (counter r name + sum_of (amount name) cs) % 2 ^ 64)
        × (observations (run r cs) name
            ≡ (observations r name + sum_of (observed name) cs) % 2 ^ 64)
  unfolding run
  run-counts r [] name h k = (omega (arith, h), omega (arith, k))
  run-counts r (c ∷ cs) name h k =
      let e = step-counter r c name h in
      let f = step-observations r c name k in
      let rest = run-counts (step r c) cs name (omega (arith, e)) (omega (arith, f)) in
      (omega (arith, e, rest.0), omega (arith, f, rest.1))

  -- After any calls on a new registry, in whatever order and on whatever names, a counter is the sum of what was added
  -- to it, and a histogram's count the number of its observations, both around at 2^64.
  pub run-new_counts :
      (cs : List (Call F)) (name : GoString)
      → (counter (run new cs) name ≡ sum_of (amount name) cs % 2 ^ 64)
        × (observations (run new cs) name ≡ sum_of (observed name) cs % 2 ^ 64)
  unfolding lookup
  run-new_counts cs name =
      let zero_counter : counter (new {F = F}) name ≡ 0 = refl in
      let zero_count : observations (new {F = F}) name ≡ 0 = refl in
      let (a, b) = run-counts new cs name (omega arith) (omega arith) in
      (omega (arith, a), omega (arith, b))
