-- ===== src/Tests/RoutingRuns.antt =====
-- The policies at work on two workers: `a` waits for 2 tokens, `b` for 9.
use mathlib.Core.List.{Memᴰ, Permᴰ}
use aether_serve.Base.{
  ℕ, ◌<◌, ◌≡◌, ◌≢◌, ◌⊎◌, ◌↔◌, refl, false, none, some, List, [], ◌∷◌, arith, All, length,
}
use aether_serve.Base.Int.{ℤ, pos}
use aether_serve.Base.Text.{GoString, str, str_eq, str_lt, ne_of_str_eq}
use aether_serve.Base.Map.{lookup, insert}
use aether_serve.Base.Sort.{Distinct, sort_by, insert_by}
use aether_serve.Model.{Worker}
use aether_serve.Prefix.{longest_match}
use aether_serve.Registry.{snapshot, mark}
use aether_serve.Tests.RegistryRuns.{pair}
use aether_serve.Routing.{
  Policy, round_robin, least_waiting_tokens, predicted_ttft, Router, Candidate, no_eligible_workers,
  contains, ineligibility, evaluate, sift_one, sift, less, choose, choose_from, number_from,
  mark_cursor, apply_policy, label, conclude, select,
}
use aether_serve.Routing.Sift.{passing}
use aether_serve.Routing.Outcome.{select-eligible, select-error_iff, select-eq_of_perm}
use aether_serve.Routing.Policies.{scored}
use aether_serve.Routing.Policies.Least.{least_waiting_minimal}
use aether_serve.Routing.Policies.Metric.{Precedes, metric_minimal}
use aether_serve.Routing.RoundRobin.{eligible_ring, after, round_robin_fair}
use aether_serve.Tests.Fixtures.{
  integers, integers_exact, integers_separated, Any, worker_a, worker_b, workers, request,
}

abbrev router : Policy → ℕ → Router
router policy cursor = record { policy = policy; cursor = cursor }

-- Everything that a decision runs through.
abbrev chosen : Router → List GoString → GoString
chosen r excluded = (select r (pos 0) request workers excluded).1.selected_worker

shortest_queue : chosen (router least_waiting_tokens 0) [] ≡ str "a"
unfolding select conclude sift sift_one ineligibility contains evaluate apply_policy choose
    choose_from less label sort_by insert_by longest_match str_eq str_lt lookup insert
shortest_queue = refl

failed_over : chosen (router predicted_ttft 0) (str "a" ∷ []) ≡ str "b"
unfolding select conclude sift sift_one ineligibility contains evaluate apply_policy choose
    choose_from less label sort_by insert_by longest_match str_eq str_lt lookup insert
failed_over = refl

third_turn : chosen (router round_robin 3) [] ≡ str "b"
unfolding select conclude sift sift_one ineligibility contains evaluate apply_policy number_from
    mark_cursor label sort_by insert_by longest_match str_eq str_lt lookup insert
third_turn = refl

late_a : Memᴰ (mark (pos 100) 106 worker_a) (snapshot pair 106)
unfolding snapshot sort_by insert_by str_lt mark
late_a = Memᴰ.head refl

select-eligible_example :
    (w : Worker ℤ) × Memᴰ w workers
    × (ineligibility predicted_ttft request w (str "a" ∷ []) ≡ none)
    × ((select (router predicted_ttft 0) (pos 0) request workers (str "a" ∷ [])).1.selected_worker
        ≡ w.id)
unfolding select conclude sift sift_one ineligibility contains sort_by insert_by str_eq str_lt
select-eligible_example =
    select-eligible (router predicted_ttft 0) (pos 0) request workers (str "a" ∷ []) refl

select-error_iff_example :
    ((select (router predicted_ttft 0) (pos 0) request workers []).2 ≡ some no_eligible_workers)
    ↔ All (λ w. ineligibility predicted_ttft request w [] ≢ none) workers
select-error_iff_example = select-error_iff (router predicted_ttft 0) (pos 0) request workers []

workers-Distinct : Distinct (λ (w : Worker ℤ). w.id) workers
unfolding str_eq
workers-Distinct = ((ne_of_str_eq (str "b") (str "a") refl, tt), (tt, tt))

select-eq_of_perm_example :
    select (router predicted_ttft 0) (pos 0) request workers []
    ≡ select (router predicted_ttft 0) (pos 0) request (worker_a ∷ worker_b ∷ []) []
select-eq_of_perm_example =
    select-eq_of_perm (router predicted_ttft 0) (pos 0) request workers (worker_a ∷ worker_b ∷ [])
      [] (Permᴰ.swap refl refl) workers-Distinct

least_waiting_minimal_example :
    let out = select (router least_waiting_tokens 0) (pos 0) request workers [] in
    (w : Worker ℤ) × Memᴰ w workers
    × (ineligibility least_waiting_tokens request w [] ≡ none)
    × (out.1.selected_worker ≡ w.id)
    × ((v : Worker ℤ)
        → Memᴰ v workers
        → ineligibility least_waiting_tokens request v [] ≡ none
        → (w.state.waiting_token_count < v.state.waiting_token_count)
          ⊎ ((w.state.waiting_token_count ≡ v.state.waiting_token_count)
              × (str_lt v.id w.id ≡ false)))
unfolding select conclude sift sift_one ineligibility contains sort_by insert_by str_eq str_lt
least_waiting_minimal_example =
    least_waiting_minimal integers_exact 0 (pos 0) request workers []
      (omega arith, (omega arith, tt)) refl

metric_minimal_example :
    let out = select (router predicted_ttft 0) (pos 0) request workers [] in
    (w : Worker ℤ) × Memᴰ w workers
    × (ineligibility predicted_ttft request w [] ≡ none)
    × (out.1.selected_worker ≡ w.id)
    × ((v : Worker ℤ)
        → Memᴰ v workers
        → ineligibility predicted_ttft request v [] ≡ none
        → Precedes (scored predicted_ttft request w) (scored predicted_ttft request v))
unfolding select conclude sift sift_one ineligibility contains sort_by insert_by str_eq str_lt
metric_minimal_example =
    metric_minimal predicted_ttft Any integers_separated 0 (pos 0) request workers [] refl
      (λ w m. tt) refl

-- The second in the ring of two.
abbrev second : Candidate ℤ
second = record { worker = worker_b; trace = evaluate request worker_b }

round_robin_fair_example :
    (k : ℕ) × (k < length (eligible_ring request workers []))
    × ((select
          (after (pos 0) request workers [] k (router round_robin 4))
          (pos 0)
          request
          workers
          []).1.selected_worker
        ≡ str "b")
unfolding ineligibility contains sort_by insert_by str_eq str_lt passing
round_robin_fair_example = round_robin_fair (pos 0) request workers [] 4 1 second (omega arith) refl
