-- ===== src/Gateway/Attempts/Answers.antt =====
-- What the loop over the attempts guarantees.
use aether_serve.Base.{
  ℕ, zero, suc, ◌+◌, ◌≤◌, ◌<◌, ◌≡◌, ◌≢◌, inl, inr, refl, sym, subst, ◌∙◌, true, false, Bool-cases,
  Option-cases, if◌then◌else◌, Option, none, some, List, [], ◌∷◌, Result, ok, err, arith, if_both,
  All, All-imp, length,
}
use aether_serve.Base.Text.{GoString, str_eq_iff}
use aether_serve.Base.Sort.{Distinct, find_by}
use aether_serve.Float.{Float}
use aether_serve.Clock.{Duration}
use aether_serve.Model.{Worker, Request, Chunk}
use aether_serve.Routing.{Router, contains, ineligibility, select}
use aether_serve.Routing.Outcome.{select-eligible}
use aether_serve.Gateway.{Fault}
use aether_serve.Gateway.Attempts.{
  Context, live, cancelled, deadline_exceeded, Try, Outcome, unanswered, should_retry, numbered,
  precommit_error, select_worker, attempt_on, attempt, attempts, answer_request,
}

find_by-key {ℓ} :
    {A : Type ℓ} (key : A → GoString) (k : GoString) (xs : List A) (x : A)
    → find_by key k xs ≡ some x
    → key x ≡ k
unfolding find_by
find_by-key key k [] x e = absurd (ground arith)
find_by-key key k (y ∷ ys) x e = ground (arith, str_eq_iff (key y) k, find_by-key key k ys x)

-- Nothing is tried that is excluded, nothing twice, and no more than the rounds that are left.
abbrev IsFresh : List GoString → ℕ → Outcome → Type 0
IsFresh excluded left o =
    All (λ id. contains excluded id ≡ false) o.tried
    × Distinct (λ (id : GoString). id) o.tried
    × (length o.tried ≤ left)

-- What is not among the excluded ones once `id` is, is not `id`.
not_added :
    (excluded : List GoString) (id y : GoString)
    → contains (id ∷ excluded) y ≡ false
    → (id ≢ y) × (contains excluded y ≡ false)
unfolding contains
not_added excluded id y h = ground (arith, str_eq_iff id y)

IsFresh-more :
    (excluded : List GoString) (left : ℕ) (o : Outcome) (id address : GoString)
    → contains excluded id ≡ false
    → IsFresh (id ∷ excluded) left o
    → IsFresh excluded
        (suc left)
        (record o { tried = id ∷ o.tried; invalidated = address ∷ o.invalidated })
IsFresh-more excluded left o id address h (fresh, distinct, bound) = (
  (h, All-imp _ _ (λ y n. (not_added excluded id y n).1) o.tried fresh),
  (All-imp _ _ (λ y n. (not_added excluded id y n).0) o.tried fresh, distinct),
  omega arith,
)

retried_below :
    (context : Context) (f : Fault) (number : ℕ) → should_retry context f number ≡ true → number < 2
unfolding should_retry
retried_below context f number e = ground arith

precommit-answered : (context : Context) (f : Fault) → precommit_error context f ≢ unanswered
precommit-answered live f e = cc
precommit-answered cancelled f e = cc
precommit-answered deadline_exceeded f e = cc

module _ {F : Type 0} ⦃fl : Float F⦄ where
  eligible_fresh :
      (r : Router) (request : Request) (w : Worker F) (excluded : List GoString)
      → ineligibility r.policy request w excluded ≡ none
      → contains excluded w.id ≡ false
  unfolding ineligibility
  eligible_fresh r request w excluded e = ground arith

  selected_found :
      (r : Router) (elapsed : Duration) (request : Request) (workers : List (Worker F))
      (excluded : List GoString) (w : Worker F)
      → (select_worker r elapsed request workers excluded).1 ≡ some w
      → let out = select r elapsed request workers excluded in
        (out.2 ≡ none) × (find_by (λ (v : Worker F). v.id) out.1.selected_worker workers ≡ some w)
  unfolding select_worker
  selected_found r elapsed request workers excluded w e =
      elim (Option-cases (select r elapsed request workers excluded).2) [
        | inl q ↦ ground (arith, q)
        | inr (x, q) ↦ absurd (ground (arith, q))
      ]

  selected_fresh :
      (r : Router) (elapsed : Duration) (request : Request) (workers : List (Worker F))
      (excluded : List GoString) (w : Worker F)
      → (select_worker r elapsed request workers excluded).1 ≡ some w
      → contains excluded w.id ≡ false
  selected_fresh r elapsed request workers excluded w e =
      let (no_error, found) = selected_found r elapsed request workers excluded w e in
      let (v, _, passes, id) = select-eligible r elapsed request workers excluded no_error in
      subst (λ k. contains excluded k ≡ false)
        (sym id ∙ sym (find_by-key (λ (x : Worker F). x.id) _ workers w found))
        (eligible_fresh r request v excluded passes)

  attempt_on-IsFresh :
      (r : Router) (context : Context) (number left : ℕ) (w : Worker F) (x : Result Fault Chunk)
      (again : Fault → Outcome) (excluded : List GoString)
      → contains excluded w.id ≡ false
      → ((f : Fault) → IsFresh (w.id ∷ excluded) left (again f))
      → IsFresh excluded (suc left) (attempt_on r context number w x again)
  unfolding attempt_on
  attempt_on-IsFresh r context number left w (ok c) again excluded h next =
      ((h, tt), (tt, tt), omega arith)
  attempt_on-IsFresh r context number left w (err f) again excluded h next =
      IsFresh-more excluded left
        (if should_retry context f number then again f else record {
          router = r;
          tried = [];
          invalidated = [];
          answer = precommit_error context f;
        })
        w.id w.data_address h
        (if_both (IsFresh (w.id ∷ excluded) left) (should_retry context f number) _ _ (next f)
          (tt, tt, omega arith))

  attempt-IsFresh :
      (r : Router) (t : Try F) (number left : ℕ) (request : Request) (previous : Option Fault)
      (chosen : Option (Worker F)) (again : Worker F → Fault → Outcome) (excluded : List GoString)
      → ((w : Worker F) → chosen ≡ some w → contains excluded w.id ≡ false)
      → ((w : Worker F) (f : Fault) → IsFresh (w.id ∷ excluded) left (again w f))
      → IsFresh excluded (suc left) (attempt r t number request previous chosen again)
  unfolding attempt
  attempt-IsFresh r t number left request previous none again excluded h next =
      (tt, tt, omega arith)
  attempt-IsFresh r t number left request previous (some w) again excluded h next =
      attempt_on-IsFresh r t.context number left w _ (again w) excluded (h w refl) (next w)

  attempts-IsFresh :
      (env : ℕ → Try F) (request : Request) (left number : ℕ) (r : Router)
      (excluded : List GoString) (previous : Option Fault)
      → IsFresh excluded left (attempts env request left number r excluded previous)
  unfolding attempts
  attempts-IsFresh env request zero number r excluded previous = (tt, tt, omega arith)
  attempts-IsFresh env request (suc left) number r excluded previous =
      let t = env number in
      attempt-IsFresh _ t number left _ previous _ _ excluded
        (selected_fresh r t.elapsed (numbered request number) t.workers excluded)
        (λ w f. attempts-IsFresh env request left (suc number) _ (w.id ∷ excluded) (some f))

  -- A request is tried on at most two workers, and never twice on one.
  pub tried_once :
      (env : ℕ → Try F) (request : Request) (r : Router)
      → let o = answer_request env request r in
        Distinct (λ (id : GoString). id) o.tried × (length o.tried ≤ 2)
  unfolding answer_request
  tried_once env request r =
      let (_, distinct, bound) = attempts-IsFresh env request 2 1 r [] none in (distinct, bound)

  attempt_on-answered :
      (r : Router) (context : Context) (number : ℕ) (w : Worker F) (x : Result Fault Chunk)
      (again : Fault → Outcome)
      → (number < 2 → (f : Fault) → (again f).answer ≢ unanswered)
      → (attempt_on r context number w x again).answer ≢ unanswered
  unfolding attempt_on
  attempt_on-answered r context number w (ok c) again next = λ e. absurd (cc)
  attempt_on-answered r context number w (err f) again next =
      elim (Bool-cases (should_retry context f number)) [
        | inl q ↦ rw q (next (retried_below context f number q) f)
        | inr q ↦ rw q (precommit-answered context f)
      ]

  attempt-answered :
      (r : Router) (t : Try F) (number : ℕ) (request : Request) (previous : Option Fault)
      (chosen : Option (Worker F)) (again : Worker F → Fault → Outcome)
      → (number < 2 → (w : Worker F) (f : Fault) → (again w f).answer ≢ unanswered)
      → (attempt r t number request previous chosen again).answer ≢ unanswered
  unfolding attempt
  attempt-answered r t number request none none again next = λ e. absurd (cc)
  attempt-answered r t number request (some f) none again next = precommit-answered t.context f
  attempt-answered r t number request previous (some w) again next =
      attempt_on-answered r t.context number w _ (again w) (λ p. next p w)

  attempts-answered :
      (env : ℕ → Try F) (request : Request) (left number : ℕ) (r : Router)
      (excluded : List GoString) (previous : Option Fault)
      → number + left ≡ 3
      → 0 < left
      → (attempts env request left number r excluded previous).answer ≢ unanswered
  unfolding attempts
  attempts-answered env request zero number r excluded previous n pos = absurd (omega arith)
  attempts-answered env request (suc left) number r excluded previous n pos =
      attempt-answered _ (env number) number _ previous _ _ (λ p w f.
        attempts-answered env request left (suc number) _ (w.id ∷ excluded) (some f) (omega arith)
          (omega arith))

  -- The loop never ends without an answer: an error, or a response that begins with a first chunk.
  pub answered :
      (env : ℕ → Try F) (request : Request) (r : Router)
      → (answer_request env request r).answer ≢ unanswered
  unfolding answer_request
  answered env request r = attempts-answered env request 2 1 r [] none (omega arith) (omega arith)
