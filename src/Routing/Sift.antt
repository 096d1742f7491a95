-- ===== src/Routing/Sift.antt =====
-- The loop of `Select` over the sorted workers.
use mathlib.Core.List.{Memᴰ}
use aether_serve.Base.{
  ◌+◌, ◌≡◌, ◌≢◌, refl, sym, ap, subst, ◌∙◌, ◌↔◌, none, some, List, [], ◌∷◌, ◌++◌, append_assoc,
  append-nil, arith, length, length-append, Option-cases, inl, inr, All,
}
use aether_serve.Base.Text.{GoString}
use aether_serve.Float.{Float}
use aether_serve.Model.{Worker, Request, Rejection}
use aether_serve.Routing.{Policy, Candidate, Sifted, ineligibility, evaluate, sift_one, sift}

module _ {F : Type 0} ⦃fl : Float F⦄ (policy : Policy) (request : Request)
    (excluded : List GoString) where
  abbrev pub candidate : Worker F → Candidate F
  candidate w = record { worker = w; trace = evaluate request w }

  -- The workers that pass, in the order of the list, each with its trace.
  unfoldable pub passing : List (Worker F) → List (Candidate F)
  passing [] = []
  passing (w ∷ ws) = elim (ineligibility policy request w excluded) [
    | some _ ↦ passing ws
    | none ↦ candidate w ∷ passing ws
  ]

  passing-pass :
      (w : Worker F) (ws : List (Worker F))
      → ineligibility policy request w excluded ≡ none
      → passing (w ∷ ws) ≡ candidate w ∷ passing ws
  unfolding passing
  passing-pass w ws e = rw (e, passing)

  passing-fail :
      (w : Worker F) (ws : List (Worker F)) {x : Rejection}
      → ineligibility policy request w excluded ≡ some x
      → passing (w ∷ ws) ≡ passing ws
  unfolding passing
  passing-fail w ws e = rw (e, passing)

  sift_one-pass :
      (acc : Sifted F) (w : Worker F)
      → ineligibility policy request w excluded ≡ none
      → (sift_one policy request excluded acc w).eligible ≡ acc.eligible ++ candidate w ∷ []
  unfolding sift_one
  sift_one-pass acc w e = rw (e, sift_one)

  sift_one-fail :
      (acc : Sifted F) (w : Worker F) {x : Rejection}
      → ineligibility policy request w excluded ≡ some x
      → (sift_one policy request excluded acc w).eligible ≡ acc.eligible
  unfolding sift_one
  sift_one-fail acc w e = rw (e, sift_one)

  -- A round adds one entry.
  sift_one-length :
      (acc : Sifted F) (w : Worker F)
      → let out = sift_one policy request excluded acc w in
        length out.rejected + length out.eligible ≡ length acc.rejected + length acc.eligible + 1
  unfolding sift_one
  sift_one-length acc w = elim (Option-cases (ineligibility policy request w excluded)) [
    | inl e ↦ rw (e, sift_one) (omega (arith, length-append {0}))
    | inr (_, e) ↦ rw (e, sift_one) (omega (arith, length-append {0}))
  ]

  pub sift-eligible :
      (acc : Sifted F) (ws : List (Worker F))
      → (sift policy request excluded acc ws).eligible ≡ acc.eligible ++ passing ws
  unfolding sift passing
  sift-eligible acc [] = sym (append-nil acc.eligible)
  sift-eligible acc (w ∷ ws) = elim (Option-cases (ineligibility policy request w excluded)) [
    | inl e ↦
        sift-eligible (sift_one policy request excluded acc w) ws
        ∙ rw (sift_one-pass acc w e, passing-pass w ws e)
            (append_assoc acc.eligible (candidate w ∷ []) (passing ws))
    | inr (x, e) ↦
        sift-eligible (sift_one policy request excluded acc w) ws
        ∙ rw (sift_one-fail acc w e, passing-fail w ws e)
  ]

  -- Every worker ends on one of the two lists.
  pub sift-length :
      (acc : Sifted F) (ws : List (Worker F))
      → let out = sift policy request excluded acc ws in
        length out.rejected + length out.eligible
        ≡ length acc.rejected + length acc.eligible + length ws
  unfolding sift
  sift-length acc [] = omega arith
  sift-length acc (w ∷ ws) =
      omega (arith, sift-length (sift_one policy request excluded acc w) ws, sift_one-length acc w)

  -- What an entry of `passing ws` comes from.
  abbrev pub Passes : Candidate F → List (Worker F) → Type 0
  Passes c ws =
      (w : Worker F) × Memᴰ w ws
      × (ineligibility policy request w excluded ≡ none)
      × (c ≡ candidate w)

  Passes-tail :
      (c : Candidate F) (w : Worker F) (ws : List (Worker F)) → Passes c ws → Passes c (w ∷ ws)
  Passes-tail c w ws (v, m, e, q) = (v, Memᴰ.tail m, e, q)

  Passes-cons :
      (c : Candidate F) (w : Worker F) (ws : List (Worker F))
      → ineligibility policy request w excluded ≡ none
      → (Memᴰ c (passing ws) → Passes c ws)
      → Memᴰ c (candidate w ∷ passing ws)
      → Passes c (w ∷ ws)
  Passes-cons c w ws e rec (Memᴰ.head q) = (w, Memᴰ.head refl, e, q)
  Passes-cons c w ws e rec (Memᴰ.tail m) = Passes-tail c w ws (rec m)

  pub mem-passing : (c : Candidate F) (ws : List (Worker F)) → Memᴰ c (passing ws) → Passes c ws
  unfolding passing
  mem-passing c [] m = elim m [ ]
  mem-passing c (w ∷ ws) m = elim (Option-cases (ineligibility policy request w excluded)) [
    | inl e ↦ Passes-cons c w ws e (mem-passing c ws) (subst (Memᴰ c) (passing-pass w ws e) m)
    | inr (_, e) ↦ Passes-tail c w ws (mem-passing c ws (subst (Memᴰ c) (passing-fail w ws e) m))
  ]

  pub passing-mem :
      (w : Worker F) (ws : List (Worker F))
      → Memᴰ w ws
      → ineligibility policy request w excluded ≡ none
      → Memᴰ (candidate w) (passing ws)
  passing-mem w [] m e = elim m [ ]
  passing-mem w (v ∷ ws) (Memᴰ.head q) e =
      rw (passing-pass v ws (subst (λ u. ineligibility policy request u excluded ≡ none) q e))
        (Memᴰ.head (ap candidate q))
  passing-mem w (v ∷ ws) (Memᴰ.tail m) e =
      elim (Option-cases (ineligibility policy request v excluded)) [
        | inl p ↦ rw (passing-pass v ws p) (Memᴰ.tail (passing-mem w ws m e))
        | inr (_, p) ↦ rw (passing-fail v ws p) (passing-mem w ws m e)
      ]

  -- Nothing passes exactly when each worker has a reason.
  pub passing-nil_iff :
      (ws : List (Worker F))
      → (passing ws ≡ []) ↔ All (λ w. ineligibility policy request w excluded ≢ none) ws
  unfolding passing
  passing-nil_iff [] = (λ e. tt, λ h. refl)
  passing-nil_iff (w ∷ ws) =
      (λ e. ground (arith, (passing-nil_iff ws).0), λ h. ground (arith, (passing-nil_iff ws).1 h.1))
