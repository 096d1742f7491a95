-- ===== src/Tests/Fixtures.antt =====
-- Data for the tests. Floats are integers here, with division towards zero: an instance on which the
-- hypotheses about floats hold.
use aether_serve.Base.{
  ℕ, ◌+◌, ◌*◌, ◌/◌, ◌^◌, ◌≡◌, true, false, not, ◌||◌, ltb, ◌==◌, ◌⊎◌, List, [], ◌∷◌, arith,
}
use aether_serve.Base.Int.{ℤ, pos, pos_part, neg_part, sub_ℕ, ◌+ℤ◌, ◌-ℤ◌, ltb_ℤ, leb_ℤ, quot}
use aether_serve.Base.Text.{GoString, str}
use aether_serve.Float.{Float, OrderLaws, ExactLaws}
use aether_serve.Model.{healthy, WorkerState, Worker, Request, protocol_version}
use aether_serve.Routing.Policies.Metric.{Separated}

abbrev pub abs_ℤ : ℤ → ℤ
abs_ℤ a = pos (pos_part a + neg_part a)

instance abbrev pub integers : Float ℤ
integers = record {
  add = ◌+ℤ◌;
  sub = ◌-ℤ◌;
  mul = λ a b.
      sub_ℕ (pos_part a * pos_part b + neg_part a * neg_part b)
        (pos_part a * neg_part b + neg_part a * pos_part b);
  div = λ a b. quot a (pos_part b);
  abs = abs_ℤ;
  lt = ltb_ℤ;
  le = leb_ℤ;
  of_ℤ = λ a. a;
  literal = λ m e. pos (m / 10 ^ e);
  ceil_u64 = pos_part;
}

irrefl_ℤ : (x : ℤ) → ltb_ℤ x x ≡ false
irrefl_ℤ x = ground arith

bounded_ℤ : (b x : ℤ) (n : ℕ) → ltb_ℤ b x ≡ false → ltb_ℤ b (x -ℤ pos n) ≡ false
bounded_ℤ b x n h = ground arith

pub integers_order : OrderLaws ℤ
integers_order = record { lt_irrefl = irrefl_ℤ; sub_bounded = bounded_ℤ }

exact_ℤ : (a b : ℕ) → ltb_ℤ (pos a) (pos b) ≡ ltb a b
exact_ℤ a b = ground arith

apart_ℕ : (a b : ℕ) → ltb_ℤ (pos 0) (abs_ℤ (pos a -ℤ pos b)) ≡ not (a == b)
apart_ℕ a b = ground arith

pub integers_exact : ExactLaws ℤ
integers_exact = record { lt-of_ℕ = λ a b _ _. exact_ℤ a b; apart-of_ℕ = λ a b _ _. apart_ℕ a b }

abbrev pub Any : ℤ → Type 0
Any x = Unit {0}

asymm_ℤ : (x y : ℤ) → ltb_ℤ x y ≡ true → ltb_ℤ y x ≡ false
asymm_ℤ x y h = ground arith

cotrans_ℤ : (x y z : ℤ) → ltb_ℤ x z ≡ true → (ltb_ℤ x y ≡ true) ⊎ (ltb_ℤ y z ≡ true)
cotrans_ℤ x y z h = ground arith

apart_ℤ : (x y : ℤ) → ltb_ℤ (pos 0) (abs_ℤ (x -ℤ y)) ≡ (ltb_ℤ x y || ltb_ℤ y x)
apart_ℤ x y = ground arith

pub integers_separated : Separated Any
integers_separated = record {
  lt_asymm = λ x y _ _ h. asymm_ℤ x y h;
  lt_cotrans = λ x y z _ _ _ h. cotrans_ℤ x y z h;
  apart = λ x y _ _. apart_ℤ x y;
}

-- Two workers; `a` has the shorter queue.
abbrev pub state_of : ℕ → ℕ → WorkerState ℤ
state_of version waiting = record {
  status_version = version;
  status = healthy;
  waiting_request_count = 1;
  waiting_token_count = waiting;
  running_request_count = 0;
  running_work_tokens = 0;
  kv_usage = record { capacity_tokens = 100; used_tokens = 16 };
  prefill_tokens_per_second = pos 1;
  decode_tokens_per_second = pos 1;
  decode_scheduling_quantum_tokens = 1;
  cached_prefixes = record { token_count = 16; sha256 = str "h" } ∷ [];
  observed_at = 1;
}

abbrev pub worker : GoString → ℕ → Worker ℤ
worker id waiting = record {
  id = id;
  data_address = str "host:1";
  model = str "m";
  protocol_version = protocol_version;
  state = state_of 1 waiting;
  last_heartbeat = 5;
  stale = false;
}

abbrev pub worker_a : Worker ℤ
worker_a = worker (str "a") 2

abbrev pub worker_b : Worker ℤ
worker_b = worker (str "b") 9

abbrev pub workers : List (Worker ℤ)
workers = worker_b ∷ worker_a ∷ []

abbrev pub request : Request
request = record {
  id = str "r";
  attempt_id = str "r-a1";
  tenant_id = str "t";
  model = str "m";
  messages = [];
  estimated_input_token = 20;
  expected_output_token = 8;
  max_output_tokens = 8;
  prefix_fingerprints = record { token_count = 16; sha256 = str "h" } ∷ [];
  deadline = 1000;
}
