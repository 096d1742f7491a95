-- ===== src/Routing/Policies.antt =====
-- The metric policies: the selected worker against the eligible ones.
pub mod Least
pub mod Metric
use mathlib.Core.List.{Memᴰ, Permᴰ}
use mathlib.Core.List.Permᴰ
use aether_serve.Base.{
  ℕ, zero, suc, ◌+◌, ◌^◌, ◌≤◌, ◌<◌, ◌≡◌, ◌≢◌, ◌⊎◌, inl, inr, refl, sym, ap, subst, ◌∙◌, Bool, true,
  false, not, ◌||◌, ltb, ◌==◌, if◌then◌else◌, Option, none, some, List, [], ◌∷◌, map, arith, get_or,
  mem-perm, mem-map, map-mem, All, All-mem, All-of_mem,
}
use aether_serve.Base.Text.{GoString, str_lt, str_lt_asymm, str_lt_cotrans}
use aether_serve.Base.Sort.{sort_by, sort_by-perm}
use aether_serve.Float.{Float, ExactLaws, of_ℕ}
use aether_serve.Clock.{Duration}
use aether_serve.Model.{Worker, Request, RoutingDecision}
use aether_serve.Routing.{
  Policy, least_waiting_tokens, prefix_affinity, predicted_ttft, Router, Candidate, Selection,
  Sifted, Error, ineligibility, evaluate, with_score, score_of, prefers_prefix, by_metric,
  apply_policy, beats, less, choose, conclude, sift, select,
}
use aether_serve.Routing.Choose.{IsOrder, winner, winner-mem, winner_least, choose-winner}
use aether_serve.Routing.Sift.{passing, candidate, mem-passing, passing-mem}
use aether_serve.Routing.Outcome.{id_of, select-conclude}

module _ {F : Type 0} ⦃fl : Float F⦄ where
  -- A worker's candidate with its score under a policy.
  abbrev pub scored : Policy → Request → Worker F → Candidate F
  scored policy request w =
      let c : Candidate F = record { worker = w; trace = evaluate request w } in
      with_score c (score_of policy c)

  abbrev rescore : Policy → Candidate F → Candidate F
  rescore policy c = with_score c (score_of policy c)

  -- What a metric policy guarantees of the decision, in terms of `beats`.
  abbrev Unbeaten : Router → Duration → Request → List (Worker F) → List GoString → Type 0
  Unbeaten r elapsed request workers excluded =
      (w : Worker F) × Memᴰ w workers
      × (ineligibility r.policy request w excluded ≡ none)
      × ((select r elapsed request workers excluded).1.selected_worker ≡ w.id)
      × ((v : Worker F)
          → Memᴰ v workers
          → ineligibility r.policy request v excluded ≡ none
          → beats (prefers_prefix r.policy) (scored r.policy request v) (scored r.policy request w)
            ≡ false)

  conclude-winner :
      (r : Router) (elapsed : Duration) (request : Request) (sifted : Sifted F) (c : Candidate F)
      (cs : List (Candidate F))
      → apply_policy r r.policy (c ∷ cs) ≡ by_metric r r.policy (c ∷ cs)
      → let best =
          winner
            (beats (prefers_prefix r.policy))
            (rescore r.policy c)
            (map (rescore r.policy) cs) in
        (conclude r elapsed request sifted (c ∷ cs)).1.selected_worker ≡ best.worker.id
  unfolding conclude
  conclude-winner r elapsed request sifted c cs e =
      ap (λ (s : Selection F). (get_or s.scored s.index c).worker.id) e
      ∙ ap (λ (x : Candidate F). x.worker.id)
          (choose-winner (prefers_prefix r.policy) (rescore r.policy c) c
            (map (rescore r.policy) cs))

  -- A candidate that passed stands for an eligible worker among those given.
  origin :
      (r : Router) (request : Request) (workers : List (Worker F)) (excluded : List GoString)
      (cs : List (Candidate F))
      → passing r.policy request excluded (sort_by id_of workers) ≡ cs
      → (y : Candidate F) → Memᴰ y (map (rescore r.policy) cs)
      → (w : Worker F) × Memᴰ w workers
        × (ineligibility r.policy request w excluded ≡ none)
        × (y ≡ scored r.policy request w)
  origin r request workers excluded cs q y m =
      let (x, mx, ex) = map-mem (rescore r.policy) y cs m in
      let (w, mw, ok, ew) =
        mem-passing r.policy request excluded x (sort_by id_of workers)
          (subst (Memᴰ x) (sym q) mx) in
      (w, mem-perm (sort_by-perm id_of workers) mw, ok, ex ∙ ap (rescore r.policy) ew)

  -- Each eligible worker has its scored candidate in the loop.
  entry :
      (r : Router) (request : Request) (workers : List (Worker F)) (excluded : List GoString)
      (cs : List (Candidate F))
      → passing r.policy request excluded (sort_by id_of workers) ≡ cs
      → (v : Worker F) → Memᴰ v workers
      → ineligibility r.policy request v excluded ≡ none
      → Memᴰ (scored r.policy request v) (map (rescore r.policy) cs)
  entry r request workers excluded cs q v m ok = mem-map (rescore r.policy) (
      subst (Memᴰ (candidate r.policy request excluded v)) q (
        passing-mem r.policy request excluded v (sort_by id_of workers)
          (mem-perm (Permᴰ.symm (sort_by-perm id_of workers)) m) ok))

  empty-error :
      (r : Router) (elapsed : Duration) (request : Request) (sifted : Sifted F)
      → (conclude r elapsed request sifted []).2 ≢ none
  unfolding conclude
  empty-error r elapsed request sifted e = cc

  Unbeaten-from :
      (r : Router) (elapsed : Duration) (request : Request) (workers : List (Worker F))
      (excluded : List GoString) (P : Candidate F → Type 0) (cs : List (Candidate F))
      → passing r.policy request excluded (sort_by id_of workers) ≡ cs
      → ((el : List (Candidate F)) → apply_policy r r.policy el ≡ by_metric r r.policy el)
      → IsOrder (beats (prefers_prefix r.policy)) P
      → ((w : Worker F) → Memᴰ w workers → P (scored r.policy request w))
      → (select r elapsed request workers excluded).2 ≡ none
      → Unbeaten r elapsed request workers excluded
  Unbeaten-from r elapsed request workers excluded P [] q metric o p e = absurd (
      empty-error r elapsed request _ (
        subst (λ out. out.2 ≡ none)
          (select-conclude r elapsed request workers excluded ∙ ap (conclude r elapsed request _) q)
          e))
  Unbeaten-from r elapsed request workers excluded P (c ∷ cs) q metric o p e =
      let f = rescore r.policy in
      let best = winner (beats (prefers_prefix r.policy)) (f c) (map f cs) in
      let (w, mw, ok, ew) =
        origin r request workers excluded (c ∷ cs) q best
          (winner-mem (beats (prefers_prefix r.policy)) (f c) (map f cs)) in
      let good = All-of_mem P (map f (c ∷ cs)) (λ y my.
        let (x, mx, _, ex) = origin r request workers excluded (c ∷ cs) q y my in
        subst P (sym ex) (p x mx)) in
      let least =
        winner_least (beats (prefers_prefix r.policy)) P (f c) (map f cs) o good.0 good.1 in
      (
        w,
        mw,
        ok,
        ap (λ (out : Router × RoutingDecision F × Option Error). out.1.selected_worker)
              (select-conclude r elapsed request workers excluded
                ∙ ap (conclude r elapsed request _) q)
            ∙ conclude-winner r elapsed request _ c cs (metric (c ∷ cs))
            ∙ ap (λ (x : Candidate F). x.worker.id) ew,
        λ v mv okv.
            subst (λ x. beats (prefers_prefix r.policy) (scored r.policy request v) x ≡ false) ew
              (All-mem _ least (entry r request workers excluded (c ∷ cs) q v mv okv)),
      )
