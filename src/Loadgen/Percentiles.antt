-- ===== src/Loadgen/Percentiles.antt =====
-- cmd/loadgen/main.go: `percentiles`. `sort.Float64s` is a parameter.
use mathlib.Core.List.{Memᴰ, Permᴰ}
use aether_serve.Base.{
  ℕ, suc, ◌-◌, ◌<◌, ◌≡◌, refl, ap, subst, ◌∙◌, true, if◌then◌else◌, Option, none, some, List, [],
  ◌∷◌, length, get_elem?, get_elem?-lt, length-perm, Bool-cases, inl, inr, ◌⊎◌, All, All-imp,
  All-perm, All-get_elem?,
}
use aether_serve.Float.{Float, of_ℕ, zero_float}
use aether_serve.Loadgen.{Sample, is_success}

-- Two indexings in turn.
abbrev pub both : {F : Type 0} → Option F → Option F → Option (F × F)
both (some low) (some high) = some (low, high)
both _ _ = none

module _ {F : Type 0} ⦃fl : Float F⦄ (sort : List F → List F) (value : Sample F → F) where
  -- The values of the samples that succeeded.
  unfoldable pub successes : List (Sample F) → List F
  successes [] = []
  successes (s ∷ samples) =
      let rest = successes samples in if is_success s then value s ∷ rest else rest

  -- The index of a percentile.
  abbrev pub rank : F → ℕ → ℕ
  rank percent count = fl.ceil_u64 (fl.mul percent (of_ℕ count)) - 1

  -- `at`; none is an index out of range.
  abbrev pub at_percent : List F → F → Option F
  at_percent values percent = get_elem? (sort values) (rank percent (length values))

  -- Both percentiles; none is a panic.
  abbrev pub of_values : List F → Option (F × F)
  of_values [] = some (zero_float, zero_float)
  of_values (v ∷ values) =
      both (at_percent (v ∷ values) (fl.literal 50 2)) (at_percent (v ∷ values) (fl.literal 95 2))

  unfoldable pub percentiles : List (Sample F) → Option (F × F)
  percentiles samples = of_values (successes samples)

  -- A sorting that reorders, and a product that rounds neither percentile of a count up past it.
  pub record Laws : Type 0 where
    pub reorders : (xs : List F) → Permᴰ xs (sort xs)
    pub median : (count : ℕ) → rank (fl.literal 50 2) (suc count) < suc count
    pub high : (count : ℕ) → rank (fl.literal 95 2) (suc count) < suc count

  at_percent-of :
      (P : F → Type 0) (v : F) (values : List F) (percent : F)
      → Laws
      → rank percent (suc (length values)) < suc (length values)
      → All P (v ∷ values)
      → (x : F) × (at_percent (v ∷ values) percent ≡ some x) × P x
  at_percent-of P v values percent laws lt all =
      let p = laws.reorders (v ∷ values) in
      let i : ℕ = rank percent (suc (length values)) in
      let (x, e) = get_elem?-lt (sort (v ∷ values)) i (subst (λ n. i < n) (length-perm p) lt) in
      (x, e, All-get_elem? P (sort (v ∷ values)) i (All-perm P p all) e)

  of_values-of :
      (P : F → Type 0) (values : List F)
      → Laws
      → All P values
      → (low : F) × (high : F) × (of_values values ≡ some (low, high))
        × (((values ≡ []) × (low ≡ zero_float) × (high ≡ zero_float)) ⊎ (P low × P high))
  of_values-of P [] laws all = (zero_float, zero_float, refl, inl (refl, refl, refl))
  of_values-of P (v ∷ values) laws all =
      let (low, e, m) =
        at_percent-of P v values (fl.literal 50 2) laws (laws.median (length values)) all in
      let (high, f, n) =
        at_percent-of P v values (fl.literal 95 2) laws (laws.high (length values)) all in
      (
        low,
        high,
        ap (λ o. both o (at_percent (v ∷ values) (fl.literal 95 2))) e ∙ ap (both (some low)) f,
        inr (m, n),
      )

  -- The value is that of a sample that succeeded.
  abbrev pub Stems : List (Sample F) → F → Type 0
  Stems samples x = (s : Sample F) × Memᴰ s samples × (is_success s ≡ true) × (value s ≡ x)

  successes-Stems : (samples : List (Sample F)) → All (Stems samples) (successes samples)
  unfolding successes
  successes-Stems [] = tt
  successes-Stems (s ∷ samples) =
      let later : All (Stems (s ∷ samples)) (successes samples) =
        All-imp (Stems samples) _ (λ x h. (h.0, Memᴰ.tail h.1, h.2, h.3)) (successes samples)
          (successes-Stems samples) in
      elim (Bool-cases (is_success s)) [
        | inl q ↦ rw q ((s, Memᴰ.head refl, q, refl), later)
        | inr q ↦ rw q later
      ]

  -- With a sorting that reorders its list, and a conversion that rounds neither percentile of a count up past it: the
  -- percentiles never index out of range; each is the value of a sample that succeeded, and both are zero where no sample
  -- succeeded.
  pub percentiles_lem :
      (samples : List (Sample F))
      → Laws
      → (low : F) × (high : F) × (percentiles samples ≡ some (low, high))
        × (((successes samples ≡ []) × (low ≡ zero_float) × (high ≡ zero_float))
            ⊎ (Stems samples low × Stems samples high))
  unfolding percentiles
  percentiles_lem samples laws =
      of_values-of (Stems samples) (successes samples) laws (successes-Stems samples)
