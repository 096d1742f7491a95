-- ===== src/Loadgen/Simulator/Eligible.antt =====
-- The simulated workers stay eligible, so that a decision finds one.
use mathlib.Core.List.{Memᴰ}
use aether_serve.Base.{
  ℕ, suc, ◌≤◌, ◌<◌, ◌≡◌, ◌≢◌, refl, sym, subst, false, Bool-cases, inl, inr, List, [], ◌∷◌, none,
  some, arith, All,
}
use aether_serve.Base.Text.{GoString, str, str_eq, str_eq_iff, str_eq_refl, is_empty}
use aether_serve.Base.Sort.{find_by}
use aether_serve.Float.{Float, zero_float}
use aether_serve.Clock.{Duration}
use aether_serve.Model.{Worker, Request, healthy, protocol_version, PrefixFingerprint}
use aether_serve.Routing.{
  Router, Policy, Candidate, Sifted, no_eligible_workers, ineligibility, contains, conclude, select,
}
use aether_serve.Routing.Outcome.{select-conclude, select-eligible, select-error_iff}
use aether_serve.Loadgen.Simulator.{load_from, remember}

module _ {F : Type 0} ⦃fl : Float F⦄ where
  -- A worker that no policy passes over for a request of the simulation.
  abbrev pub IsOpen : Worker F → Type 0
  IsOpen w =
      (w.stale ≡ false)
      × (w.protocol_version ≡ protocol_version)
      × (is_empty w.data_address ≡ false)
      × (w.model ≡ str "mock-llm")
      × (w.state.status ≡ healthy)
      × (0 < w.state.kv_usage.capacity_tokens)
      × (w.state.kv_usage.used_tokens ≤ w.state.kv_usage.capacity_tokens)
      × (fl.le w.state.prefill_tokens_per_second zero_float ≡ false)
      × (fl.le w.state.decode_tokens_per_second zero_float ≡ false)
      × (0 < w.state.decode_scheduling_quantum_tokens)

  IsOpen-eligible :
      (policy : Policy) (request : Request) (w : Worker F)
      → request.model ≡ str "mock-llm"
      → IsOpen w
      → ineligibility policy request w [] ≡ none
  unfolding ineligibility contains
  IsOpen-eligible policy request w m v =
      ground
        (arith, str_eq_iff w.protocol_version protocol_version, str_eq_iff w.model request.model)

  pub load_from-IsOpen :
      (index k : ℕ) (ws : List (Worker F)) → All IsOpen ws → All IsOpen (load_from index k ws)
  unfolding load_from
  load_from-IsOpen index k [] v = tt
  load_from-IsOpen index k (w ∷ ws) v = (v.0, load_from-IsOpen index (suc k) ws v.1)

  conclude-error :
      (r : Router) (elapsed : Duration) (request : Request) (sifted : Sifted F)
      (cs : List (Candidate F))
      → ((conclude r elapsed request sifted cs).2 ≢ some no_eligible_workers)
      → (conclude r elapsed request sifted cs).2 ≡ none
  unfolding conclude
  conclude-error r elapsed request sifted [] n = absurd (n refl)
  conclude-error r elapsed request sifted (c ∷ cs) n = refl

  pub remember-IsOpen :
      (id : GoString) (ps : List PrefixFingerprint) (ws : List (Worker F))
      → All IsOpen ws
      → All IsOpen (remember id ps ws)
  unfolding remember
  remember-IsOpen id ps [] v = tt
  remember-IsOpen id ps (w ∷ ws) v = elim (Bool-cases (str_eq w.id id)) [
    | inl q ↦ rw q v
    | inr q ↦ rw q (v.0, remember-IsOpen id ps ws v.1)
  ]

  pub remember-nonempty :
      (id : GoString) (ps : List PrefixFingerprint) (ws : List (Worker F))
      → ws ≢ []
      → remember id ps ws ≢ []
  unfolding remember
  remember-nonempty id ps [] n = n
  remember-nonempty id ps (w ∷ ws) n = elim (Bool-cases (str_eq w.id id)) [
    | inl q ↦ rw q (λ e. cc)
    | inr q ↦ rw q (λ e. cc)
  ]

  pub load_from-nonempty :
      (index k : ℕ) (ws : List (Worker F)) → ws ≢ [] → load_from index k ws ≢ []
  unfolding load_from
  load_from-nonempty index k [] n = n
  load_from-nonempty index k (w ∷ ws) n = λ e. cc

  find_by-mem :
      (w : Worker F) (ws : List (Worker F))
      → Memᴰ w ws
      → find_by (λ (w : Worker F). w.id) w.id ws ≢ none
  unfolding find_by
  find_by-mem w [] m = elim m [ ]
  find_by-mem w (x ∷ ws) (Memᴰ.head e) =
      subst (λ (x : Worker F). find_by (λ (w : Worker F). w.id) w.id (x ∷ ws) ≢ none) e
        (rw (str_eq_refl w.id) (λ e. cc))
  find_by-mem w (x ∷ ws) (Memᴰ.tail m) = elim (Bool-cases (str_eq x.id w.id)) [
    | inl q ↦ rw q (λ e. cc)
    | inr q ↦ rw q (find_by-mem w ws m)
  ]

  pub select-works :
      (r : Router) (elapsed : Duration) (request : Request) (ws : List (Worker F))
      → request.model ≡ str "mock-llm"
      → ws ≢ []
      → All IsOpen ws
      → ((select r elapsed request ws []).2 ≡ none)
        × (find_by (λ (w : Worker F). w.id) (select r elapsed request ws []).1.selected_worker ws
            ≢ none)
  select-works r elapsed request [] m n v = absurd (n refl)
  select-works r elapsed request (w ∷ ws) m n v =
      let ok = select-error r elapsed request (w ∷ ws) (λ e.
        ((select-error_iff r elapsed request (w ∷ ws) []).0 e).0
          (IsOpen-eligible r.policy request w m v.0)) in
      let (x, mem, _, q) = select-eligible r elapsed request (w ∷ ws) [] ok in
      (ok, rw q (find_by-mem x (w ∷ ws) mem))
    where
      select-error :
          (r : Router) (elapsed : Duration) (request : Request) (ws : List (Worker F))
          → (select r elapsed request ws []).2 ≢ some no_eligible_workers
          → (select r elapsed request ws []).2 ≡ none
      select-error r elapsed request ws n =
          let same = select-conclude r elapsed request ws [] in
          subst (λ out. out.2 ≡ none) (sym same)
            (conclude-error r elapsed request _ _
              (λ e. n (subst (λ out. out.2 ≡ some no_eligible_workers) (sym same) e)))
