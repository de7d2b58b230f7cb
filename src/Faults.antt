-- ===== src/Faults.antt =====
-- apps/hosted-sites/src/runtime/deterministic-faults.ts: faults that the runtime of a session injects
-- at a scheduled request, and the recovery that it then waits for.
pub mod State
pub mod Observe
pub mod Persistence
pub mod Invariant
pub mod Limit
pub mod Each
pub mod Counting
mod Tests
use agent_benchmark.Common.{ℕ, String, Bool, true, false, Option, List}

pub data FaultAction : Type 0 where
  read mutation navigation : FaultAction

pub data FaultKind : Type 0 where
  stale_view rejected_mutation interrupted_navigation : FaultKind

pub record Trigger : Type 0 where
  pub action : FaultAction
  pub occurrence : ℕ

-- A parsed fault. `nodeId`, `maxApplications` and `weight` are not read here.
pub record DeterministicFault : Type 0 where
  pub id : String
  pub kind : FaultKind
  pub trigger : Trigger
  pub required_recovery : Bool

pub record Occurrences : Type 0 where
  pub reads : ℕ
  pub mutations : ℕ
  pub navigations : ℕ

pub record FaultRuntimeState : Type 0 where
  pub occurrences : Occurrences
  pub applied_fault_ids : List String
  pub recovered_fault_ids : List String
  pub pending_recovery_fault_id : Option String

pub record Observation : Type 0 where
  pub changed : Bool
  pub injected : Option FaultKind
  pub recovered : Option FaultKind

abbrev pub action_eq : FaultAction → FaultAction → Bool
action_eq read read = true
action_eq mutation mutation = true
action_eq navigation navigation = true
action_eq _ _ = false

-- `state.occurrences[action]`
abbrev pub occurrences_of : FaultAction → Occurrences → ℕ
occurrences_of read o = o.reads
occurrences_of mutation o = o.mutations
occurrences_of navigation o = o.navigations
