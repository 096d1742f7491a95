-- ===== src/Routing/Policies/Metric.antt =====
-- The policies of prefix affinity and predicted TTFT.
use mathlib.Core.List.{Memᴰ}
use aether_serve.Base.{
  ℕ, ◌<◌, ◌≡◌, ◌⊎◌, refl, true, false, ◌||◌, ltb, ◌==◌, if◌then◌else◌, none, List, arith,
}
use aether_serve.Base.Text.{GoString, str_lt, str_lt_asymm, str_lt_cotrans}
use aether_serve.Float.{Float}
use aether_serve.Clock.{Duration}
use aether_serve.Model.{Worker, Request}
use aether_serve.Routing.{
  Policy, least_waiting_tokens, prefix_affinity, predicted_ttft, Candidate, ineligibility,
  prefers_prefix, apply_policy, beats, less, select,
}
use aether_serve.Routing.Choose.{IsOrder}
use aether_serve.Routing.Policies.{scored, Unbeaten-from}

module _ {F : Type 0} ⦃fl : Float F⦄ where
  -- Scores that a metric policy tells apart: on them `<` is a strict weak order, and two of which one is
  -- below the other are more than 1e-12 apart.
  pub record Separated (S : F → Type 0) : Type 0 where
    pub lt_asymm : (x y : F) → S x → S y → fl.lt x y ≡ true → fl.lt y x ≡ false
    pub lt_cotrans :
        (x y z : F) → S x → S y → S z → fl.lt x z ≡ true → (fl.lt x y ≡ true) ⊎ (fl.lt y z ≡ true)
    pub apart :
        (x y : F)
        → S x
        → S y
        → fl.lt (fl.literal 1 12) (fl.abs (fl.sub x y)) ≡ (fl.lt x y || fl.lt y x)

  abbrev Scored : (F → Type 0) → Candidate F → Type 0
  Scored S c = S c.trace.score

  beats_separated :
      (S : F → Type 0) (sep : Separated S) (x y : Candidate F)
      → Scored S x
      → Scored S y
      → beats true x y ≡ (
          if fl.lt x.trace.score y.trace.score
          then true
          else if fl.lt y.trace.score x.trace.score
          then false
          else if x.trace.matched_tokens == y.trace.matched_tokens
          then str_lt x.worker.id y.worker.id
          else ltb y.trace.matched_tokens x.trace.matched_tokens)
  unfolding less
  beats_separated S sep x y p q = ground (arith, sep.apart x.trace.score y.trace.score p q)

  separated-IsOrder : (S : F → Type 0) → Separated S → IsOrder (beats true) (Scored S)
  separated-IsOrder S sep = record {
    asymm = λ x y p q h. ground (
      arith,
      beats_separated S sep x y p q,
      beats_separated S sep y x q p,
      sep.lt_asymm x.trace.score y.trace.score p q,
      str_lt_asymm x.worker.id y.worker.id,
    );
    cotrans = λ x y z p q r h. ground (
      arith,
      beats_separated S sep x z p r,
      beats_separated S sep x y p q,
      beats_separated S sep y z q r,
      sep.lt_asymm x.trace.score z.trace.score p r,
      sep.lt_asymm x.trace.score y.trace.score p q,
      sep.lt_asymm y.trace.score z.trace.score q r,
      sep.lt_cotrans x.trace.score y.trace.score z.trace.score p q r,
      sep.lt_cotrans z.trace.score y.trace.score x.trace.score r q p,
      sep.lt_cotrans y.trace.score x.trace.score z.trace.score q p r,
      sep.lt_cotrans x.trace.score z.trace.score y.trace.score p r q,
      sep.lt_cotrans y.trace.score z.trace.score x.trace.score q r p,
      sep.lt_cotrans z.trace.score x.trace.score y.trace.score r p q,
      str_lt_cotrans x.worker.id y.worker.id z.worker.id,
    );
  }

  -- The order that the documentation gives for these policies: the lower score, then more matched
  -- tokens, then the smaller identifier.
  abbrev pub Precedes : Candidate F → Candidate F → Type 0
  Precedes x y =
      (fl.lt x.trace.score y.trace.score ≡ true)
      ⊎ ((fl.lt y.trace.score x.trace.score ≡ false)
          × ((y.trace.matched_tokens < x.trace.matched_tokens)
              ⊎ ((y.trace.matched_tokens ≡ x.trace.matched_tokens)
                  × (str_lt y.worker.id x.worker.id ≡ false))))

  unbeaten-Precedes :
      (S : F → Type 0) (sep : Separated S) (x y : Candidate F)
      → Scored S x
      → Scored S y
      → beats true y x ≡ false
      → Precedes x y
  unbeaten-Precedes S sep x y p q h = ground (arith, beats_separated S sep y x q p)

  -- Prefix affinity and predicted TTFT (the policies that prefer a prefix), where the scores of the
  -- given workers are separated: a decision without an error selects an eligible worker that precedes every
  -- eligible worker by score, then by matched tokens, then by identifier.
  pub metric_minimal :
      (policy : Policy) (S : F → Type 0) (sep : Separated S) (cursor : ℕ) (elapsed : Duration)
      (request : Request) (workers : List (Worker F)) (excluded : List GoString)
      → prefers_prefix policy ≡ true
      → ((w : Worker F) → Memᴰ w workers → S (scored policy request w).trace.score)
      → let out =
          select (record { policy = policy; cursor = cursor }) elapsed request workers excluded in
        out.2 ≡ none
        → (w : Worker F) × Memᴰ w workers
          × (ineligibility policy request w excluded ≡ none)
          × (out.1.selected_worker ≡ w.id)
          × ((v : Worker F)
              → Memᴰ v workers
              → ineligibility policy request v excluded ≡ none
              → Precedes (scored policy request w) (scored policy request v))
  unfolding apply_policy
  metric_minimal Policy.round_robin S sep k elapsed request workers excluded p h e = absurd (cc)
  metric_minimal least_waiting_tokens S sep k elapsed request workers excluded p h e = absurd (cc)
  metric_minimal (Policy.other s) S sep k elapsed request workers excluded p h e = absurd (cc)
  metric_minimal prefix_affinity S sep k elapsed request workers excluded p h e =
      let (w, mw, ok, id, unbeaten) =
        Unbeaten-from (record { policy = prefix_affinity; cursor = k }) elapsed request workers
          excluded (Scored S) _ refl (λ el. refl) (separated-IsOrder S sep) h e in
      (
        w,
        mw,
        ok,
        id,
        λ v mv okv.
            unbeaten-Precedes S sep (scored prefix_affinity request w)
              (scored prefix_affinity request v) (h w mw) (h v mv) (unbeaten v mv okv),
      )
  metric_minimal predicted_ttft S sep k elapsed request workers excluded p h e =
      let (w, mw, ok, id, unbeaten) =
        Unbeaten-from (record { policy = predicted_ttft; cursor = k }) elapsed request workers
          excluded (Scored S) _ refl (λ el. refl) (separated-IsOrder S sep) h e in
      (
        w,
        mw,
        ok,
        id,
        λ v mv okv.
            unbeaten-Precedes S sep (scored predicted_ttft request w)
              (scored predicted_ttft request v) (h w mw) (h v mv) (unbeaten v mv okv),
      )
