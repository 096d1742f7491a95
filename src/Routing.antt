-- ===== src/Routing.antt =====
-- internal/routing/routing.go: the four selection policies. The atomic cursor is a field that `select`
-- returns anew; the time that a decision took is an argument.
pub mod Eligibility
pub mod Sift
pub mod Choose
pub mod Outcome
pub mod Policies
pub mod RoundRobin
use aether_serve.Base.{
  ℕ, zero, suc, ◌+◌, ◌-◌, ◌%◌, ◌^◌, Bool, true, false, ◌&&◌, ◌||◌, not, ltb, ◌==◌, if◌then◌else◌,
  Option, none, some, List, [], ◌∷◌, ◌++◌, map, get_or, length, Result, ok, err, add_u64, mul_u32,
}
use aether_serve.Base.Text.{GoString, str, str_eq, str_lt, is_empty}
use aether_serve.Base.Map.{Map, insert}
use aether_serve.Base.Sort.{sort_by}
use aether_serve.Float.{Float, of_ℕ, zero_float}
use aether_serve.Clock.{Duration}
use aether_serve.Model.{
  Worker, WorkerState, Request, Rejection, excluded_attempt_worker, stale_heartbeat,
  protocol_mismatch, incompatible_worker, invalid_kv_metadata, missing_metric, TieBreak,
  round_robin_cursor, minimum_score, CandidateEvaluation, RoutingDecision, protocol_version,
}
use aether_serve.Registry.{is_healthy}
use aether_serve.Prefix.{longest_match}

pub data Policy : Type 0 where
  round_robin least_waiting_tokens prefix_affinity predicted_ttft : Policy
  other : GoString → Policy

abbrev pub policy_name : Policy → GoString
policy_name round_robin = str "round_robin"
policy_name least_waiting_tokens = str "least_waiting_tokens"
policy_name prefix_affinity = str "prefix_affinity"
policy_name predicted_ttft = str "predicted_ttft"
policy_name (Policy.other s) = s

abbrev pub is_round_robin : Policy → Bool
is_round_robin round_robin = true
is_round_robin _ = false

pub data Error : Type 0 where
  no_eligible_workers : Error
  unknown_policy : Policy → Error

pub record Router : Type 0 where
  pub policy : Policy
  pub cursor : ℕ

unfoldable pub new : Policy → ℕ → Result Error Router
new (Policy.other s) seed = err (unknown_policy (Policy.other s))
new policy seed = ok (record { policy = policy; cursor = seed })

-- `_, blocked := excluded[id]`.
unfoldable pub contains : List GoString → GoString → Bool
contains [] id = false
contains (x ∷ xs) id = str_eq x id || contains xs id

pub record Candidate (F : Type 0) : Type 0 where
  pub worker : Worker F
  pub trace : CandidateEvaluation F

-- What the loop over the sorted workers fills.
pub record Sifted (F : Type 0) : Type 0 where
  pub versions : Map ℕ
  pub rejected : List (CandidateEvaluation F)
  pub eligible : List (Candidate F)

-- What the `switch` on the policy settles: the cursor after it, the cursor recorded, the scored
-- candidates, and the index selected.
pub record Selection (F : Type 0) : Type 0 where
  pub cursor : ℕ
  pub recorded : ℕ
  pub scored : List (Candidate F)
  pub index : ℕ

-- The last argument of `less` in the loop of a metric policy.
abbrev pub prefers_prefix : Policy → Bool
prefers_prefix prefix_affinity = true
prefers_prefix predicted_ttft = true
prefers_prefix _ = false

abbrev pub no_tie_break : Option TieBreak → Bool
no_tie_break none = true
no_tie_break (some t) = false

module _ {F : Type 0} ⦃fl : Float F⦄ where
  -- The reason for which a worker is passed over; `none` is the empty string.
  unfoldable pub ineligibility : Policy → Request → Worker F → List GoString → Option Rejection
  ineligibility policy request w excluded =
      if contains excluded w.id
      then some excluded_attempt_worker
      else if w.stale
      then some stale_heartbeat
      else if not (str_eq w.protocol_version protocol_version)
      then some protocol_mismatch
      else if is_empty w.data_address || not (str_eq w.model request.model)
      then some incompatible_worker
      else if not (is_healthy w.state.status)
      then some Rejection.unhealthy
      else if w.state.kv_usage.capacity_tokens == 0
          || ltb w.state.kv_usage.capacity_tokens w.state.kv_usage.used_tokens
      then some invalid_kv_metadata
      else if not (is_round_robin policy)
          && (fl.le w.state.prefill_tokens_per_second zero_float
              || fl.le w.state.decode_tokens_per_second zero_float
              || w.state.decode_scheduling_quantum_tokens == 0)
      then some missing_metric
      else none

  -- The trace before anything is computed.
  abbrev pub blank : Worker F → CandidateEvaluation F
  blank w = record {
    worker_id = w.id;
    eligible = false;
    rejection_reason = none;
    state_version = w.state.status_version;
    matched_tokens = 0;
    queue_delay = zero_float;
    uncached_prefill = 0;
    prefill_delay = zero_float;
    overload_penalty = zero_float;
    predicted_ttft = zero_float;
    score = zero_float;
    tie_break = none;
  }

  unfoldable pub evaluate : Request → Worker F → CandidateEvaluation F
  evaluate request w =
      let s = w.state in
      let matched : ℕ = longest_match request.prefix_fingerprints s.cached_prefixes in
      let input : ℕ = request.estimated_input_token in
      let uncached : ℕ = if ltb matched input then input - matched else 0 in
      let queue : F =
        fl.div (of_ℕ (add_u64 s.waiting_token_count s.running_work_tokens))
          s.prefill_tokens_per_second in
      let prefill : F = fl.div (of_ℕ uncached) s.prefill_tokens_per_second in
      let overload : F =
        fl.div (of_ℕ (mul_u32 s.running_request_count s.decode_scheduling_quantum_tokens))
          s.decode_tokens_per_second in
      record (blank w) {
        eligible = true;
        matched_tokens = matched;
        queue_delay = queue;
        uncached_prefill = uncached;
        prefill_delay = prefill;
        overload_penalty = overload;
        predicted_ttft = fl.add (fl.add queue prefill) overload;
      }

  -- One round of the loop over the sorted workers.
  unfoldable pub sift_one : Policy → Request → List GoString → Sifted F → Worker F → Sifted F
  sift_one policy request excluded acc w =
      let versions : Map ℕ = insert w.id w.state.status_version acc.versions in
      elim (ineligibility policy request w excluded) [
        | some reason ↦ record acc {
          versions = versions;
          rejected = acc.rejected ++ record (blank w) { rejection_reason = some reason } ∷ [];
        }
        | none ↦ record acc {
          versions = versions;
          eligible = acc.eligible ++ record { worker = w; trace = evaluate request w } ∷ [];
        }
      ]

  unfoldable pub sift : Policy → Request → List GoString → Sifted F → List (Worker F) → Sifted F
  sift policy request excluded acc [] = acc
  sift policy request excluded acc (w ∷ ws) =
      sift policy request excluded (sift_one policy request excluded acc w) ws

  unfoldable pub less : F → ℕ → GoString → F → ℕ → GoString → Bool → Bool
  less score matched id best_score best_matched best_id prefer_prefix =
      if fl.lt (fl.literal 1 12) (fl.abs (fl.sub score best_score))
      then fl.lt score best_score
      else if prefer_prefix && not (matched == best_matched)
      then ltb best_matched matched
      else str_lt id best_id

  -- The score of a candidate under a metric policy.
  abbrev pub score_of : Policy → Candidate F → F
  score_of least_waiting_tokens c = of_ℕ c.worker.state.waiting_token_count
  score_of prefix_affinity c = fl.add c.trace.queue_delay c.trace.prefill_delay
  score_of predicted_ttft c = c.trace.predicted_ttft
  score_of _ c = c.trace.score

  abbrev pub with_score : Candidate F → F → Candidate F
  with_score c x = record c { trace = record (c.trace) { score = x } }

  -- The call of `less` in the loops: does `c` come before the best so far?
  abbrev pub beats : Bool → Candidate F → Candidate F → Bool
  beats prefer c best =
      less c.trace.score c.trace.matched_tokens c.worker.id best.trace.score
        best.trace.matched_tokens best.worker.id prefer

  -- The loop of a metric policy after its first round, over the scored candidates: `i` is the index of
  -- the next one.
  unfoldable pub choose_from : Bool → ℕ → Candidate F → ℕ → List (Candidate F) → ℕ
  choose_from prefer selected best i [] = selected
  choose_from prefer selected best i (c ∷ cs) =
      choose_from prefer (if beats prefer c best then i else selected)
        (if beats prefer c best then c else best) (suc i) cs

  unfoldable pub choose : Bool → List (Candidate F) → ℕ
  choose prefer [] = 0
  choose prefer (c ∷ cs) = choose_from prefer 0 c 1 cs

  -- Round robin scores a candidate by its place.
  unfoldable pub number_from : ℕ → List (Candidate F) → List (Candidate F)
  number_from i [] = []
  number_from i (c ∷ cs) = with_score c (of_ℕ i) ∷ number_from (suc i) cs

  unfoldable pub mark_cursor : ℕ → List (Candidate F) → List (Candidate F)
  mark_cursor i [] = []
  mark_cursor zero (c ∷ cs) =
      record c { trace = record (c.trace) { tie_break = some round_robin_cursor } } ∷ cs
  mark_cursor (suc i) (c ∷ cs) = c ∷ mark_cursor i cs

  -- The loop of a metric policy.
  abbrev pub by_metric : Router → Policy → List (Candidate F) → Selection F
  by_metric r policy eligible =
      let scored = map (λ c. with_score c (score_of policy c)) eligible in
      record {
        cursor = r.cursor;
        recorded = 0;
        scored = scored;
        index = choose (prefers_prefix policy) scored;
      }

  unfoldable pub apply_policy : Router → Policy → List (Candidate F) → Selection F
  apply_policy r round_robin eligible =
      let index : ℕ = r.cursor % length eligible in
      record {
        cursor = add_u64 r.cursor 1;
        recorded = r.cursor;
        scored = mark_cursor index (number_from 0 eligible);
        index = index;
      }
  apply_policy r least_waiting_tokens eligible = by_metric r least_waiting_tokens eligible
  apply_policy r prefix_affinity eligible = by_metric r prefix_affinity eligible
  apply_policy r predicted_ttft eligible = by_metric r predicted_ttft eligible
  apply_policy r (Policy.other s) eligible = record {
    cursor = r.cursor;
    recorded = 0;
    scored = eligible;
    index = 0;
  }

  -- The loop that writes the traces of the eligible workers.
  unfoldable pub label : GoString → List (Candidate F) → List (CandidateEvaluation F)
  label id [] = []
  label id (c ∷ cs) =
      (if str_eq c.worker.id id && no_tie_break c.trace.tie_break
        then record (c.trace) { tie_break = some minimum_score }
        else c.trace)
      ∷ label id cs

  -- What follows the loop over the workers. An index out of range, at which Go would panic, reads the first candidate.
  unfoldable pub conclude :
      Router
      → Duration
      → Request
      → Sifted F
      → List (Candidate F)
      → Router × RoutingDecision F × Option Error
  conclude r elapsed request sifted [] = (
    r,
    record {
      request_id = request.id;
      policy = policy_name r.policy;
      selected_worker = [];
      candidates = sifted.rejected;
      worker_versions = sifted.versions;
      cursor = 0;
      decision_time = elapsed;
    },
    some no_eligible_workers,
  )
  conclude r elapsed request sifted (c ∷ cs) =
      let s : Selection F = apply_policy r r.policy (c ∷ cs) in
      let id : GoString = (get_or s.scored s.index c).worker.id in
      (
        record r { cursor = s.cursor },
        record {
          request_id = request.id;
          policy = policy_name r.policy;
          selected_worker = id;
          candidates = sifted.rejected ++ label id s.scored;
          worker_versions = sifted.versions;
          cursor = s.recorded;
          decision_time = elapsed;
        },
        none,
      )

  unfoldable pub select :
      Router
      → Duration
      → Request
      → List (Worker F)
      → List GoString
      → Router × RoutingDecision F × Option Error
  select r elapsed request workers excluded =
      let sorted = sort_by (λ (w : Worker F). w.id) workers in
      let sifted : Sifted F =
        sift r.policy request excluded (record { versions = []; rejected = []; eligible = [] })
          sorted in
      conclude r elapsed request sifted sifted.eligible
