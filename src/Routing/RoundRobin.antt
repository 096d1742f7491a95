-- ===== src/Routing/RoundRobin.antt =====
-- Round robin: the cursor walks the ring of the eligible workers, sorted by identifier.
use native.Mathlib.Nat.{mod-lt, mod-add-mod, mod-eq_of_lt, add-mod_right}
use native.Mathlib.Decide.{dec_le}
use aether_serve.Base.{
  lt_of_get_elem?, ℕ, zero, suc, ◌+◌, ◌-◌, ◌%◌, ◌^◌, ◌<◌, ◌≡◌, refl, sym, ap, subst, ◌∙◌, none,
  some, List, [], ◌∷◌, arith, length, get_elem?, get_elem?-lt, get_or-get_elem?, add_u64,
}
use aether_serve.Base.Text.{GoString}
use aether_serve.Base.Sort.{sort_by}
use aether_serve.Float.{Float}
use aether_serve.Clock.{Duration}
use aether_serve.Model.{Worker, Request}
use aether_serve.Routing.{round_robin, Router, Candidate, Sifted, apply_policy, conclude, select}
use aether_serve.Routing.Sift.{passing}
use aether_serve.Routing.Outcome.{id_of, select-conclude, selected-worker}

abbrev ring : ℕ → Router
ring cursor = record { policy = round_robin; cursor = cursor }

-- The turn at which the ring of n comes to the place i.
turn : (cursor i n : ℕ) → i < n → (k : ℕ) × (k < n) × ((cursor + k) % n ≡ i)
turn cursor i n h = elim (dec_le (cursor % n) i) [
  | yes p ↦ (
    i - cursor % n,
    omega arith,
    sym (mod-add-mod cursor n (i - cursor % n))
        ∙ ap (λ (t : ℕ). t % n) (omega arith)
        ∙ mod-eq_of_lt h,
  )
  | no p ↦ (
    i + n - cursor % n,
    omega (arith, mod-lt cursor {m = n}),
    sym (mod-add-mod cursor n (i + n - cursor % n))
        ∙ ap (λ (t : ℕ). t % n) (omega (arith, mod-lt cursor {m = n}))
        ∙ add-mod_right i n
        ∙ mod-eq_of_lt h,
  )
]

module _ {F : Type 0} ⦃fl : Float F⦄ where
  -- The workers that round robin walks over.
  abbrev pub eligible_ring : Request → List (Worker F) → List GoString → List (Candidate F)
  eligible_ring request workers excluded =
      passing round_robin request excluded (sort_by id_of workers)

  conclude-ring :
      (cursor : ℕ) (elapsed : Duration) (request : Request) (sifted : Sifted F)
      (cs : List (Candidate F)) (c : Candidate F)
      → get_elem? cs (cursor % length cs) ≡ some c
      → let out = conclude (ring cursor) elapsed request sifted cs in
        (out.0 ≡ ring (add_u64 cursor 1))
        × (out.1.selected_worker ≡ c.worker.id)
        × (out.1.cursor ≡ cursor)
        × (out.2 ≡ none)
  unfolding conclude apply_policy
  conclude-ring cursor elapsed request sifted [] c e = absurd (cc)
  conclude-ring cursor elapsed request sifted (d ∷ cs) c e = (
    refl,
    ap id_of (selected-worker (ring cursor) round_robin d cs)
        ∙ ap (λ (x : Candidate F). x.worker.id)
            (get_or-get_elem? (d ∷ cs) (cursor % length (d ∷ cs)) d e),
    refl,
    refl,
  )

  -- One decision: the worker at `cursor % n` of the n eligible ones in identifier order is selected, the cursor is
  -- recorded, and it moves on by one, around at 2^64.
  pub round_robin_step :
      (cursor : ℕ) (elapsed : Duration) (request : Request) (workers : List (Worker F))
      (excluded : List GoString) (c : Candidate F)
      → let cs = eligible_ring request workers excluded in
        get_elem? cs (cursor % length cs) ≡ some c
        → let out = select (ring cursor) elapsed request workers excluded in
          (out.0 ≡ ring (add_u64 cursor 1))
          × (out.1.selected_worker ≡ c.worker.id)
          × (out.1.cursor ≡ cursor)
          × (out.2 ≡ none)
  round_robin_step cursor elapsed request workers excluded c e =
      rw (select-conclude (ring cursor) elapsed request workers excluded)
        (conclude-ring cursor elapsed request _ (eligible_ring request workers excluded) c e)

  module _ (elapsed : Duration) (request : Request) (workers : List (Worker F))
      (excluded : List GoString) where
    -- The router after k decisions on the same workers and request.
    unfoldable pub after : ℕ → Router → Router
    after zero r = r
    after (suc k) r = after k (select r elapsed request workers excluded).0

    after-ring :
        (k cursor : ℕ)
        → 0 < length (eligible_ring request workers excluded)
        → cursor + k < 2 ^ 64
        → after k (ring cursor) ≡ ring (cursor + k)
    unfolding after
    after-ring zero cursor pos h = ap ring (omega arith)
    after-ring (suc k) cursor pos h =
        let cs = eligible_ring request workers excluded in
        let (c, e) = get_elem?-lt cs (cursor % length cs) (mod-lt cursor pos) in
        let moved = (round_robin_step cursor elapsed request workers excluded c e).0 in
        let next : add_u64 cursor 1 ≡ cursor + 1 = omega arith in
        ap (after k) (moved ∙ ap ring next)
        ∙ after-ring k (cursor + 1) pos (omega arith)
        ∙ ap ring (omega arith)

    -- Among the n decisions from any cursor that does not reach 2^64 in them, with n eligible workers
    -- that stay the same, each eligible worker is selected by one.
    pub round_robin_fair :
        (cursor i : ℕ) (c : Candidate F)
        → let cs = eligible_ring request workers excluded in
          cursor + length cs < 2 ^ 64
          → get_elem? cs i ≡ some c
          → (k : ℕ) × (k < length cs)
            × ((select (after k (ring cursor)) elapsed request workers excluded).1.selected_worker
                ≡ c.worker.id)
    round_robin_fair cursor i c h e =
        let cs = eligible_ring request workers excluded in
        let bound : i < length cs = lt_of_get_elem? cs i e in
        let (k, less, at) = turn cursor i (length cs) bound in
        let here = after-ring k cursor (omega arith) (omega arith) in
        let e' = subst (λ j. get_elem? cs j ≡ some c) (sym at) e in
        (
          k,
          less,
          ap (λ (r : Router). (select r elapsed request workers excluded).1.selected_worker) here
              ∙ (round_robin_step (cursor + k) elapsed request workers excluded c e').1,
        )
