-- ===== src/Loadgen.antt =====
-- cmd/loadgen/main.go: the load generator. Its items and samples, the count of what completed, and the directory of a
-- path; the workloads, the simulator and the client are child modules.
pub mod Workload
pub mod Percentiles
pub mod Simulator
pub mod Simulation
pub mod Client
pub mod Directory
use aether_serve.Base.{
  ℕ, suc, Bool, ◌&&◌, not, ltb, if◌then◌else◌, Option, none, some, List, [], ◌∷◌, ◌++◌,
}
use aether_serve.Base.Int.{ℤ}
use aether_serve.Base.Text.{GoString, is_empty, str, str_eq}
use aether_serve.Model.{Message}

-- `workItem`.
pub record WorkItem : Type 0 where
  pub arrival_ms : ℤ
  pub tenant_id : GoString
  pub messages : List Message
  pub max_tokens : ℤ
  pub fault : GoString

-- `sample`.
pub record Sample (F : Type 0) : Type 0 where
  pub request : ℕ
  pub ttft_ms : F
  pub latency_ms : F
  pub status : ℕ
  pub error : GoString

-- What `main` counts.
pub record Tally : Type 0 where
  pub completed : ℕ
  pub failed : ℕ

module _ {F : Type 0} where
  -- `s.Error == "" && s.Status >= 200 && s.Status < 300`.
  abbrev pub is_success : Sample F → Bool
  is_success s = is_empty s.error && not (ltb s.status 200) && ltb s.status 300

  unfoldable pub tally : List (Sample F) → Tally
  tally [] = record { completed = 0; failed = 0 }
  tally (s ∷ samples) =
      let rest = tally samples in
      if is_success s
      then record rest { completed = suc rest.completed }
      else record rest { failed = suc rest.failed }

-- `strings.LastIndex(path, "/")` and what stands before it; `none` for an index of -1.
unfoldable pub before_last_slash : GoString → Option GoString
before_last_slash [] = none
before_last_slash (c ∷ path) = elim (before_last_slash path) [
  | some dir ↦ some (c ∷ dir)
  | none ↦ if str_eq (c ∷ []) (str "/") then some [] else none
]

-- `filepathDir`.
unfoldable pub filepath_dir : GoString → GoString
filepath_dir path = elim (before_last_slash path) [ none ↦ str "." | some dir ↦ dir ]
