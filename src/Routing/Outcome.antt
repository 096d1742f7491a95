-- ===== src/Routing/Outcome.antt =====
-- What a decision says: who is selected, when nobody is, and the order of the workers.
use mathlib.Core.List.{Memᴰ, Permᴰ}
use mathlib.Core.List.Permᴰ
use aether_serve.Base.{
  ℕ, zero, suc, ◌+◌, ◌≡◌, ◌≢◌, ◌↔◌, refl, sym, ap, subst, ◌∙◌, Option, none, some, List, [], ◌∷◌,
  map, arith, length, length-append, length-map, get_or, get_or-map, get_or-mem, mem-perm,
  length-perm, All, All-perm,
}
use aether_serve.Base.Text.{GoString}
use aether_serve.Base.Sort.{Distinct, sort_by, sort_by-perm, sort_by-eq_of_perm}
use aether_serve.Float.{Float}
use aether_serve.Clock.{Duration}
use aether_serve.Model.{Worker, Request, RoutingDecision}
use aether_serve.Routing.{
  Policy, Router, Candidate, Sifted, Error, no_eligible_workers, ineligibility, with_score,
  number_from, mark_cursor, apply_policy, label, conclude, sift, select,
}
use aether_serve.Routing.Sift.{
  passing, sift-eligible, sift-length, Passes, mem-passing, passing-nil_iff,
}

module _ {F : Type 0} ⦃fl : Float F⦄ where
  abbrev pub id_of : Worker F → GoString
  id_of w = w.id

  abbrev worker_of : Candidate F → Worker F
  worker_of c = c.worker

  map-score :
      (g : Candidate F → F) (cs : List (Candidate F))
      → map worker_of (map (λ c. with_score c (g c)) cs) ≡ map worker_of cs
  map-score g [] = refl
  map-score g (c ∷ cs) = ap (◌∷◌ (c.worker)) (map-score g cs)

  map-number_from :
      (i : ℕ) (cs : List (Candidate F)) → map worker_of (number_from i cs) ≡ map worker_of cs
  unfolding number_from
  map-number_from i [] = refl
  map-number_from i (c ∷ cs) = ap (◌∷◌ (c.worker)) (map-number_from (suc i) cs)

  map-mark_cursor :
      (i : ℕ) (cs : List (Candidate F)) → map worker_of (mark_cursor i cs) ≡ map worker_of cs
  unfolding mark_cursor
  map-mark_cursor i [] = refl
  map-mark_cursor zero (c ∷ cs) = refl
  map-mark_cursor (suc i) (c ∷ cs) = ap (◌∷◌ (c.worker)) (map-mark_cursor i cs)

  -- No policy changes which workers the candidates stand for, nor their order.
  scored-workers :
      (r : Router) (policy : Policy) (cs : List (Candidate F))
      → map worker_of (apply_policy r policy cs).scored ≡ map worker_of cs
  unfolding apply_policy
  scored-workers r Policy.round_robin cs =
      map-mark_cursor _ (number_from 0 cs) ∙ map-number_from 0 cs
  scored-workers r Policy.least_waiting_tokens cs = map-score _ cs
  scored-workers r Policy.prefix_affinity cs = map-score _ cs
  scored-workers r Policy.predicted_ttft cs = map-score _ cs
  scored-workers r (Policy.other s) cs = refl

  pub selected-worker :
      (r : Router) (policy : Policy) (c : Candidate F) (cs : List (Candidate F))
      → let s = apply_policy r policy (c ∷ cs) in
        (get_or s.scored s.index c).worker ≡ (get_or (c ∷ cs) s.index c).worker
  selected-worker r policy c cs =
      let s = apply_policy r policy (c ∷ cs) in
      sym (get_or-map worker_of s.scored s.index c)
      ∙ ap (λ ws. get_or ws s.index (c.worker)) (scored-workers r policy (c ∷ cs))
      ∙ get_or-map worker_of (c ∷ cs) s.index c

  abbrev start : Sifted F
  start = record { versions = []; rejected = []; eligible = [] }

  -- `select` in terms of the workers that pass.
  pub select-conclude :
      (r : Router) (elapsed : Duration) (request : Request) (workers : List (Worker F))
      (excluded : List GoString)
      → let sorted = sort_by id_of workers in
        select r elapsed request workers excluded
        ≡ conclude r elapsed request
            (sift r.policy request excluded start sorted)
            (passing r.policy request excluded sorted)
  unfolding select
  select-conclude r elapsed request workers excluded =
      ap (conclude r elapsed request (sift r.policy request excluded start (sort_by id_of workers)))
        (sift-eligible r.policy request excluded start (sort_by id_of workers))

  conclude-selected :
      (r : Router) (elapsed : Duration) (request : Request) (excluded : List GoString)
      (ws : List (Worker F)) (sifted : Sifted F) (cs : List (Candidate F))
      → ((x : Candidate F) → Memᴰ x cs → Passes r.policy request excluded x ws)
      → (conclude r elapsed request sifted cs).2 ≡ none
      → (w : Worker F) × Memᴰ w ws
        × (ineligibility r.policy request w excluded ≡ none)
        × ((conclude r elapsed request sifted cs).1.selected_worker ≡ w.id)
  unfolding conclude
  conclude-selected r elapsed request excluded ws sifted [] h e = absurd (cc)
  conclude-selected r elapsed request excluded ws sifted (c ∷ cs) h e =
      let i : ℕ = (apply_policy r r.policy (c ∷ cs)).index in
      let (w, m, ok, q) = h (get_or (c ∷ cs) i c) (get_or-mem c cs i) in
      (w, m, ok, ap id_of (selected-worker r r.policy c cs ∙ ap worker_of q))

  -- A decision without an error selects one of the given workers, and that worker is eligible.
  pub select-eligible :
      (r : Router) (elapsed : Duration) (request : Request) (workers : List (Worker F))
      (excluded : List GoString)
      → (select r elapsed request workers excluded).2 ≡ none
      → (w : Worker F) × Memᴰ w workers
        × (ineligibility r.policy request w excluded ≡ none)
        × ((select r elapsed request workers excluded).1.selected_worker ≡ w.id)
  select-eligible r elapsed request workers excluded e =
      let sorted = sort_by id_of workers in
      let same = select-conclude r elapsed request workers excluded in
      let (w, m, ok, q) =
        conclude-selected r elapsed request excluded sorted
          (sift r.policy request excluded start sorted) (passing r.policy request excluded sorted)
          (λ x. mem-passing r.policy request excluded x sorted)
          (subst (λ out. out.2 ≡ none) same e) in
      (
        w,
        mem-perm (sort_by-perm id_of workers) m,
        ok,
        ap (λ (out : Router × RoutingDecision F × Option Error). out.1.selected_worker) same ∙ q,
      )

  conclude-error_iff :
      (r : Router) (elapsed : Duration) (request : Request) (sifted : Sifted F)
      (cs : List (Candidate F))
      → ((conclude r elapsed request sifted cs).2 ≡ some no_eligible_workers) ↔ (cs ≡ [])
  unfolding conclude
  conclude-error_iff r elapsed request sifted [] = (λ e. refl, λ h. refl)
  conclude-error_iff r elapsed request sifted (c ∷ cs) = (λ e. absurd (cc), λ h. absurd (cc))

  -- A decision fails exactly when every given worker has a reason to be passed over.
  pub select-error_iff :
      (r : Router) (elapsed : Duration) (request : Request) (workers : List (Worker F))
      (excluded : List GoString)
      → ((select r elapsed request workers excluded).2 ≡ some no_eligible_workers)
        ↔ All (λ w. ineligibility r.policy request w excluded ≢ none) workers
  select-error_iff r elapsed request workers excluded =
      let sorted = sort_by id_of workers in
      let same = select-conclude r elapsed request workers excluded in
      let perm = sort_by-perm id_of workers in
      let failed =
        conclude-error_iff r elapsed request (sift r.policy request excluded start sorted)
          (passing r.policy request excluded sorted) in
      let none_passes = passing-nil_iff r.policy request excluded sorted in
      (
        λ e.
            All-perm _ perm
              (none_passes.0 (failed.0 (subst (λ out. out.2 ≡ some no_eligible_workers) same e))),
        λ h. rw same (failed.1 (none_passes.1 (All-perm _ (Permᴰ.symm perm) h))),
      )

  -- The order in which the workers are given, each identifier once, does not change a decision.
  pub select-eq_of_perm :
      (r : Router) (elapsed : Duration) (request : Request) (workers others : List (Worker F))
      (excluded : List GoString)
      → Permᴰ workers others
      → Distinct id_of workers
      → select r elapsed request workers excluded ≡ select r elapsed request others excluded
  unfolding select
  select-eq_of_perm r elapsed request workers others excluded d h =
      rw (sort_by-eq_of_perm id_of d h)

  length-label : (id : GoString) (cs : List (Candidate F)) → length (label id cs) ≡ length cs
  unfolding label
  length-label id [] = refl
  length-label id (c ∷ cs) = ap suc (length-label id cs)

  length-scored :
      (r : Router) (policy : Policy) (cs : List (Candidate F))
      → length (apply_policy r policy cs).scored ≡ length cs
  length-scored r policy cs =
      sym (length-map worker_of (apply_policy r policy cs).scored)
      ∙ ap length (scored-workers r policy cs)
      ∙ length-map worker_of cs

  conclude-traces :
      (r : Router) (elapsed : Duration) (request : Request) (sifted : Sifted F)
      (cs : List (Candidate F))
      → length (conclude r elapsed request sifted cs).1.candidates
        ≡ length sifted.rejected + length cs
  unfolding conclude
  conclude-traces r elapsed request sifted [] = omega arith
  conclude-traces r elapsed request sifted (c ∷ cs) =
      let s = apply_policy r r.policy (c ∷ cs) in
      let id : GoString = (get_or s.scored s.index c).worker.id in
      omega (
        arith,
        length-append sifted.rejected (label id s.scored),
        length-label id s.scored,
        length-scored r r.policy (c ∷ cs),
      )

  -- Every decision, with or without an error, traces each given worker once: there are as many
  -- candidate evaluations as workers.
  pub select-traces :
      (r : Router) (elapsed : Duration) (request : Request) (workers : List (Worker F))
      (excluded : List GoString)
      → length (select r elapsed request workers excluded).1.candidates ≡ length workers
  select-traces r elapsed request workers excluded =
      let sorted = sort_by id_of workers in
      let sifted = sift r.policy request excluded start sorted in
      ap (λ out. length (out.1.candidates)) (select-conclude r elapsed request workers excluded)
      ∙ omega (
        arith,
        conclude-traces r elapsed request sifted (passing r.policy request excluded sorted),
        sift-length r.policy request excluded start sorted,
        ap length (sift-eligible r.policy request excluded start sorted),
        length-perm (sort_by-perm id_of workers),
      )
