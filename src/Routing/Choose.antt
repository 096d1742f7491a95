-- ===== src/Routing/Choose.antt =====
-- The loops of the metric policies: where the selected index lies, and what the selected candidate is.
use mathlib.Core.List.{Memᴰ}
use native.Mathlib.Numerals.{one-add}
use aether_serve.Base.{
  ℕ, suc, ◌+◌, ◌≡◌, ◌⊎◌, refl, subst, Bool, true, false, if◌then◌else◌, some, List, [], ◌∷◌, arith,
  get_elem?, get_or, get_or-get_elem?, All, All-mem, if_both,
}
use aether_serve.Float.{Float}
use aether_serve.Routing.{Candidate, beats, choose_from, choose}

-- The last entry that comes before the best so far, over a test `b`.
module _ {ℓ} {A : Type ℓ} (b : A → A → Bool) where
  unfoldable pub winner : A → List A → A
  winner best [] = best
  winner best (c ∷ cs) = winner (if b c best then c else best) cs

  pub winner-mem : (best : A) (cs : List A) → Memᴰ (winner best cs) (best ∷ cs)
  unfolding winner
  winner-mem best [] = Memᴰ.head refl
  winner-mem best (c ∷ cs) = widen (b c best) (winner-mem (if b c best then c else best) cs)
    where
      widen : (t : Bool) {x : A} → Memᴰ x ((if t then c else best) ∷ cs) → Memᴰ x (best ∷ c ∷ cs)
      widen true m = Memᴰ.tail m
      widen false (Memᴰ.head e) = Memᴰ.head e
      widen false (Memᴰ.tail m) = Memᴰ.tail (Memᴰ.tail m)

  -- On the entries that satisfy `P` the test is a strict weak order.
  pub record IsOrder {κ} (P : A → Type κ) : Type (ℓ ⊔ κ) where
    pub asymm : (x y : A) → P x → P y → b x y ≡ true → b y x ≡ false
    pub cotrans : (x y z : A) → P x → P y → P z → b x z ≡ true → (b x y ≡ true) ⊎ (b y z ≡ true)

  -- What does not come before the better of two is behind neither.
  beside_better {κ} :
      (P : A → Type κ) (o : IsOrder P) (best c w : A)
      → P best
      → P c
      → P w
      → b (if b c best then c else best) w ≡ false
      → (b best w ≡ false) × (b c w ≡ false)
  beside_better P o best c w p q r h =
      ground (arith, o.asymm c best q p, o.cotrans best c w p q r, o.cotrans c best w q p r)

  irrefl {κ} : (P : A → Type κ) (o : IsOrder P) (x : A) → P x → b x x ≡ false
  irrefl P o x p = ground (arith, o.asymm x x p p)

  -- Then nothing comes before the winner.
  pub winner_least {κ} :
      (P : A → Type κ) (best : A) (cs : List A)
      → IsOrder P
      → P best
      → All P cs
      → All (λ x. b x (winner best cs) ≡ false) (best ∷ cs)
  unfolding winner
  winner_least P best [] o p ps = (irrefl P o best p, tt)
  winner_least P best (c ∷ cs) o p ps =
      let next : A = if b c best then c else best in
      let pn : P next = if_both P (b c best) c best ps.0 p in
      let rest = winner_least P next cs o pn ps.1 in
      let pw : P (winner next cs) = All-mem P (pn, ps.1) (winner-mem next cs) in
      let (x, y) = beside_better P o best c (winner next cs) p ps.0 pw rest.0 in (x, (y, rest.1))

module _ {F : Type 0} ⦃fl : Float F⦄ (prefer : Bool) where
  -- The loop returns the place of the winner.
  choose_from-winner :
      (all cs : List (Candidate F)) (selected i : ℕ) (best : Candidate F)
      → get_elem? all selected ≡ some best
      → ((j : ℕ) → get_elem? all (i + j) ≡ get_elem? cs j)
      → get_elem? all (choose_from prefer selected best i cs) ≡ some (winner (beats prefer) best cs)
  unfolding choose_from winner
  choose_from-winner all [] selected i best e h = e
  choose_from-winner all (c ∷ cs) selected i best e h =
      choose_from-winner all cs (if beats prefer c best then i else selected) (suc i)
        (if beats prefer c best then c else best)
        (if_place (beats prefer c best) (subst (λ k. get_elem? all k ≡ some c) (omega arith) (h 0))
          e)
        (λ j. subst (λ k. get_elem? all k ≡ get_elem? cs j) (omega arith) (h (suc j)))
    where
      if_place :
          (t : Bool)
          → get_elem? all i ≡ some c
          → get_elem? all selected ≡ some best
          → get_elem? all (if t then i else selected) ≡ some (if t then c else best)
      if_place true x y = x
      if_place false x y = y

  pub choose-winner :
      (c d : Candidate F) (cs : List (Candidate F))
      → get_or (c ∷ cs) (choose prefer (c ∷ cs)) d ≡ winner (beats prefer) c cs
  unfolding choose
  choose-winner c d cs =
      get_or-get_elem? (c ∷ cs) (choose_from prefer 0 c 1 cs) d
        (choose_from-winner (c ∷ cs) cs 0 1 c refl (λ j. rw one-add refl))
