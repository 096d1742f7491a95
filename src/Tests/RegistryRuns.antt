-- ===== src/Tests/RegistryRuns.antt =====
-- The registry at work.
use aether_serve.Base.{arith, ◌<◌, ◌≡◌, refl, List, [], ◌∷◌, err}
use aether_serve.Base.Int.{ℤ, pos}
use aether_serve.Base.Text.{GoString, str, str_eq, str_lt}
use aether_serve.Base.Map.{lookup, insert}
use aether_serve.Base.Sort.{IsSorted, Distinct, find_by, sort_by, insert_by}
use aether_serve.Registry.{
  Registry, new, register, heartbeat, beat, snapshot, mark, clone_worker, healthy_count,
  count_healthy, validate, validate_state, valid_prefixes, state_version_regression,
}
use aether_serve.Registry.Invariant.{
  Call, registers, heartbeats, run, step, IsWellFormed, run-new_valid,
}
use aether_serve.Registry.Snapshot.{id_of, snapshot_refines, IsCopied}
use aether_serve.Registry.Versions.{heartbeat_recovers}
use aether_serve.Tests.Fixtures.{integers, state_of, worker_a, worker_b}

abbrev empty : Registry ℤ
empty = record { workers = []; stale_after = pos 100 }

-- `b` registers at 5, then `a`; a heartbeat of `a` repeats its version and is refused, the next passes.
abbrev calls : List (Call ℤ)
calls =
    registers 5 worker_b
    ∷ registers 5 worker_a
    ∷ heartbeats 50 (str "a") (state_of 1 3)
    ∷ heartbeats 60 (str "a") (state_of 2 4)
    ∷ []

abbrev pub pair : Registry ℤ
pair = record { workers = (str "b", worker_b) ∷ (str "a", worker_a) ∷ []; stale_after = pos 100 }

abbrev swapped : Registry ℤ
swapped = record { workers = (str "a", worker_a) ∷ (str "b", worker_b) ∷ []; stale_after = pos 100 }

pair_runs : run empty (registers 5 worker_b ∷ registers 5 worker_a ∷ []) ≡ pair
unfolding run step register validate validate_state valid_prefixes clone_worker insert str_eq
pair_runs = refl

refused : heartbeat pair 50 (str "a") (state_of 1 3) ≡ (pair, err state_version_regression)
unfolding heartbeat beat validate_state valid_prefixes lookup str_eq
refused = refl

-- At 106 both are past the timeout; a heartbeat brings `a` back.
stale : healthy_count pair 106 ≡ 0
unfolding healthy_count count_healthy snapshot sort_by insert_by mark clone_worker str_lt
stale = refl

recovered : healthy_count (heartbeat pair 106 (str "a") (state_of 2 4)).0 106 ≡ 1
unfolding healthy_count count_healthy snapshot sort_by insert_by mark clone_worker str_lt heartbeat
    beat validate_state valid_prefixes lookup insert str_eq
recovered = refl

pub pair-IsWellFormed : IsWellFormed pair
unfolding run step register validate validate_state valid_prefixes clone_worker insert str_eq new
pair-IsWellFormed = run-new_valid (pos 100) (registers 5 worker_b ∷ registers 5 worker_a ∷ []) refl

run-new_valid_example : IsWellFormed (run empty calls)
unfolding new
run-new_valid_example = run-new_valid (pos 100) calls refl

snapshot_refines_example :
    IsSorted id_of (snapshot pair 106)
    × Distinct id_of (snapshot pair 106)
    × ((k : GoString)
        → IsCopied 100 106 (lookup k pair.workers) (find_by id_of k (snapshot pair 106)))
snapshot_refines_example = snapshot_refines pair 106 100 pair-IsWellFormed refl (omega arith)

heartbeat_recovers_example : 0 < healthy_count (heartbeat pair 900 (str "a") (state_of 2 4)).0 900
unfolding heartbeat beat validate_state valid_prefixes lookup str_eq
heartbeat_recovers_example =
    heartbeat_recovers pair 900 (str "a") (state_of 2 4) 100 pair-IsWellFormed refl refl refl
