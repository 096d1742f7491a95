-- ===== src/Admission/Ledger.antt =====
-- The in-flight total against the leases that are out, over any history of calls.
use aether_serve.Base.{
  ℕ, zero, suc, ◌+◌, ◌-◌, ◌^◌, ◌≤◌, ◌<◌, ◌≡◌, refl, true, false, Option, none, some, List, [], ◌∷◌,
  ◌++◌, arith, Result, ok, err, get_elem?, get_elem?-set_self, set, if◌then◌else◌, Option-cases,
  inl, inr, Bool-cases, length, sym, ap, subst, ◌∙◌, ok-injective,
}
use aether_serve.Base.Text.{GoString}
use aether_serve.Float.{Float}
use aether_serve.Clock.{Time}
use aether_serve.Admission.{
  Config, Controller, Lease, Store, Panic, new, in_flight, reserve, charge, reserve_lease,
  give_back, release,
}

-- The tokens of the leases that are not released.
abbrev pub outstanding : List Lease → ℕ
outstanding [] = 0
outstanding (l ∷ ls) = (if l.released then 0 else l.cost) + outstanding ls

outstanding-append : (ls ms : List Lease) → outstanding (ls ++ ms) ≡ outstanding ls + outstanding ms
outstanding-append [] ms = omega arith
outstanding-append (l ∷ ls) ms = omega (arith, outstanding-append ls ms)

-- Releasing an entry takes its cost off the sum.
outstanding-set :
    (ls : List Lease) (i : ℕ) (l : Lease)
    → get_elem? ls i ≡ some l
    → l.released ≡ false
    → outstanding (set ls i (record l { released = true })) + l.cost ≡ outstanding ls
outstanding-set [] i l e h = cc
outstanding-set (m ∷ ls) zero l e h = ground arith
outstanding-set (m ∷ ls) (suc i) l e h = ground (arith, outstanding-set ls i l)

-- A new lease stands where the old ones end.
get_elem?-new : (ls : List Lease) (l : Lease) → get_elem? (ls ++ l ∷ []) (length ls) ≡ some l
get_elem?-new [] l = refl
get_elem?-new (m ∷ ls) l = get_elem?-new ls l

-- A call of the controller.
pub data Call : Type 0 where
  reserves : Time → GoString → ℕ → Call
  releases : Option ℕ → Call

module _ {F : Type 0} ⦃fl : Float F⦄ where
  unfoldable pub step : Store F → Call → Result Panic (Store F)
  step s (reserves now tenant cost) = ok (reserve_lease s now tenant cost).0
  step s (releases handle) = release s handle

  unfoldable pub run : Store F → List Call → Result Panic (Store F)
  run s [] = ok s
  run s (c ∷ cs) = elim (step s c) [ ok t ↦ run t cs | err p ↦ err p ]

  -- The total is that of the leases out, within a limit that fits the word.
  pub record IsBalanced (s : Store F) : Type 0 where
    pub ledger : s.controller.used ≡ outstanding s.leases
    pub within : s.controller.used ≤ s.controller.config.global_inflight_tokens
    pub word : s.controller.config.global_inflight_tokens < 2 ^ 64

  pub reserve_lease-IsBalanced :
      (s : Store F) (now : Time) (tenant : GoString) (cost : ℕ)
      → IsBalanced s
      → IsBalanced (reserve_lease s now tenant cost).0
  unfolding reserve_lease reserve charge
  reserve_lease-IsBalanced s now tenant cost v =
      ground (arith, outstanding-append s.leases (record { cost = cost; released = false } ∷ []))

  give_back-IsBalanced :
      (s : Store F) (i : ℕ) (l : Lease)
      → get_elem? s.leases i ≡ some l
      → l.released ≡ false
      → IsBalanced s
      → (t : Store F) × (release s (some i) ≡ ok t) × IsBalanced t
  unfolding release give_back
  give_back-IsBalanced s i l e due v =
      let sum = outstanding-set s.leases i l e due in
      (
        record {
          controller = record (s.controller) { used = (s.controller).used - l.cost };
          leases = set s.leases i (record l { released = true });
        },
        ground (arith, sum),
        ground (arith, sum),
      )

  release-IsBalanced :
      (s : Store F) (handle : Option ℕ)
      → IsBalanced s
      → (t : Store F) × (release s handle ≡ ok t) × IsBalanced t
  unfolding release give_back
  release-IsBalanced s none v = (s, refl, v)
  release-IsBalanced s (some i) v = elim (Option-cases (get_elem? s.leases i)) [
    | inl missing ↦ (s, ground arith, v)
    | inr (l, e) ↦ elim (Bool-cases l.released) [
      | inl done ↦ (s, ground arith, v)
      | inr due ↦ give_back-IsBalanced s i l e due v
    ]
  ]

  -- From a balanced store any calls run without a panic, and leave the store balanced.
  run-IsBalanced :
      (s : Store F) (calls : List Call)
      → IsBalanced s
      → (t : Store F) × (run s calls ≡ ok t) × IsBalanced t
  unfolding run step
  run-IsBalanced s [] v = (s, refl, v)
  run-IsBalanced s (reserves now tenant cost ∷ calls) v =
      run-IsBalanced _ calls (reserve_lease-IsBalanced s now tenant cost v)
  run-IsBalanced s (releases handle ∷ calls) v =
      let (t, e, w) = release-IsBalanced s handle v in
      let (u, f, x) = run-IsBalanced t calls w in (u, ground arith, x)

  -- From a controller that `new` made with a limit that fits a 64-bit word, no sequence of
  -- reservations and releases (of any handles, also repeated or nil) panics; after it the in-flight
  -- total is the sum of the costs of the leases not yet released, and is at most the limit.
  pub run-new_balanced :
      (config : Config F) {c : Controller F} (calls : List Call)
      → config.global_inflight_tokens < 2 ^ 64
      → new config ≡ ok c
      → (t : Store F) × (run (record { controller = c; leases = [] }) calls ≡ ok t)
        × (in_flight t.controller ≡ outstanding t.leases)
        × (in_flight t.controller ≤ t.controller.config.global_inflight_tokens)
  unfolding new
  run-new_balanced config {c} calls fits e =
      let (t, r, v) = run-IsBalanced (record { controller = c; leases = [] }) calls (start c e) in
      (t, r, v.ledger, v.within)
    where
      start :
          (c : Controller F)
          → new config ≡ ok c
          → IsBalanced (record { controller = c; leases = [] })
      start c e = ground arith

  -- In a balanced store, the release of a lease that is not released yet takes its cost off the
  -- in-flight total without a panic, and a second release changes nothing.
  pub release_once :
      (s : Store F) (i : ℕ) (l : Lease)
      → IsBalanced s
      → get_elem? s.leases i ≡ some l
      → l.released ≡ false
      → (t : Store F) × (release s (some i) ≡ ok t)
        × (in_flight t.controller + l.cost ≡ in_flight s.controller)
        × (release t (some i) ≡ ok t)
  unfolding release give_back
  release_once s i l v e due =
      let sum = outstanding-set s.leases i l e due in
      (
        record {
          controller = record (s.controller) { used = (s.controller).used - l.cost };
          leases = set s.leases i (record l { released = true });
        },
        ground (arith, sum),
        ground (arith, sum),
        ground (arith, get_elem?-set_self s.leases i (record l { released = true }) e),
      )

  reserve_lease-granted :
      (s : Store F) (now : Time) (tenant : GoString) (cost i : ℕ)
      → IsBalanced s
      → (reserve_lease s now tenant cost).1 ≡ ok i
      → let t = (reserve_lease s now tenant cost).0 in
        (i ≡ length s.leases)
        × (t.leases ≡ s.leases ++ record { cost = cost; released = false } ∷ [])
        × (in_flight t.controller ≡ in_flight s.controller + cost)
  unfolding reserve_lease reserve charge
  reserve_lease-granted s now tenant cost i v e = ground arith

  -- A reservation that is granted in a balanced store, and the release of its lease after it: neither panics, and the
  -- in-flight total is what it was.
  pub reserve_lease-release :
      (s : Store F) (now : Time) (tenant : GoString) (cost i : ℕ)
      → IsBalanced s
      → (reserve_lease s now tenant cost).1 ≡ ok i
      → (t : Store F) × (release (reserve_lease s now tenant cost).0 (some i) ≡ ok t)
        × IsBalanced t
        × (in_flight t.controller ≡ in_flight s.controller)
  reserve_lease-release s now tenant cost i v e =
      let (at, leases, used) = reserve_lease-granted s now tenant cost i v e in
      let s₁ = (reserve_lease s now tenant cost).0 in
      let l : Lease = record { cost = cost; released = false } in
      let found : get_elem? s₁.leases i ≡ some l =
        ap (λ ls. get_elem? ls i) leases
        ∙ ap (get_elem? (s.leases ++ l ∷ [])) at
        ∙ get_elem?-new s.leases l in
      let v₁ = reserve_lease-IsBalanced s now tenant cost v in
      let (t, r, total, _) = release_once s₁ i l v₁ found refl in
      let (u, q, w) = release-IsBalanced s₁ (some i) v₁ in
      let same : u ≡ t = ok-injective (sym q ∙ r) in
      (t, r, subst IsBalanced same w, omega (arith, total, used))
