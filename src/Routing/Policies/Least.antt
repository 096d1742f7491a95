-- ===== src/Routing/Policies/Least.antt =====
-- The policy of the least waiting tokens.
use mathlib.Core.List.{Memᴰ}
use aether_serve.Base.{
  ℕ, ◌^◌, ◌<◌, ◌≡◌, ◌⊎◌, refl, false, ltb, ◌==◌, if◌then◌else◌, none, List, arith, All, All-mem,
}
use aether_serve.Base.Text.{GoString, str_lt, str_lt_asymm, str_lt_cotrans}
use aether_serve.Float.{Float, ExactLaws, of_ℕ}
use aether_serve.Clock.{Duration}
use aether_serve.Model.{Worker, Request}
use aether_serve.Routing.{
  Policy, least_waiting_tokens, Router, Candidate, ineligibility, apply_policy, beats, less, select,
}
use aether_serve.Routing.Choose.{IsOrder}
use aether_serve.Routing.Policies.{scored, Unbeaten-from}

abbrev router : Policy → ℕ → Router
router policy cursor = record { policy = policy; cursor = cursor }

module _ {F : Type 0} ⦃fl : Float F⦄ where
  -- A candidate scored by a number of waiting tokens that a float64 holds exactly.
  abbrev IsExact : Candidate F → Type 0
  IsExact c =
      (c.trace.score ≡ of_ℕ c.worker.state.waiting_token_count)
      × (c.worker.state.waiting_token_count < 2 ^ 53)

  beats_exact :
      (laws : ExactLaws F) (x y : Candidate F)
      → IsExact x
      → IsExact y
      → let a = x.worker.state.waiting_token_count in
        let b = y.worker.state.waiting_token_count in
        beats false x y ≡ (if a == b then str_lt x.worker.id y.worker.id else ltb a b)
  unfolding less
  beats_exact laws x y p q =
      let a = x.worker.state.waiting_token_count in
      let b = y.worker.state.waiting_token_count in
      ground (arith, laws.apart-of_ℕ a b p.1 q.1, laws.lt-of_ℕ a b p.1 q.1)

  IsExact-IsOrder : (laws : ExactLaws F) → IsOrder (beats false) IsExact
  IsExact-IsOrder laws = record {
    asymm = λ x y p q h. ground (
      arith,
      beats_exact laws x y p q,
      beats_exact laws y x q p,
      str_lt_asymm x.worker.id y.worker.id,
    );
    cotrans = λ x y z p q r h. ground (
      arith,
      beats_exact laws x z p r,
      beats_exact laws x y p q,
      beats_exact laws y z q r,
      str_lt_cotrans x.worker.id y.worker.id z.worker.id,
    );
  }

  -- Least waiting tokens, at any cursor, where every worker reports fewer than 2^53 waiting tokens: a
  -- decision without an error selects an eligible worker such that each eligible worker has more
  -- waiting tokens, or as many and no smaller identifier.
  pub least_waiting_minimal :
      (laws : ExactLaws F) (cursor : ℕ) (elapsed : Duration) (request : Request)
      (workers : List (Worker F)) (excluded : List GoString)
      → All (λ w. w.state.waiting_token_count < 2 ^ 53) workers
      → let out = select (router least_waiting_tokens cursor) elapsed request workers excluded in
        out.2 ≡ none
        → (w : Worker F) × Memᴰ w workers
          × (ineligibility least_waiting_tokens request w excluded ≡ none)
          × (out.1.selected_worker ≡ w.id)
          × ((v : Worker F)
              → Memᴰ v workers
              → ineligibility least_waiting_tokens request v excluded ≡ none
              → (w.state.waiting_token_count < v.state.waiting_token_count)
                ⊎ ((w.state.waiting_token_count ≡ v.state.waiting_token_count)
                    × (str_lt v.id w.id ≡ false)))
  unfolding apply_policy
  least_waiting_minimal laws cursor elapsed request workers excluded small e =
      let small_of = λ (w : Worker F) (m : Memᴰ w workers). All-mem _ small m in
      let (w, mw, ok, id, unbeaten) =
        Unbeaten-from (router least_waiting_tokens cursor) elapsed request workers excluded IsExact
          _ refl (λ el. refl) (IsExact-IsOrder laws) (λ w m. (refl, small_of w m)) e in
      (
        w,
        mw,
        ok,
        id,
        λ v mv okv. ground (
          arith,
          unbeaten v mv okv,
          beats_exact laws (scored least_waiting_tokens request v)
              (scored least_waiting_tokens request w) (refl, small_of v mv) (refl, small_of w mw),
        ),
      )
