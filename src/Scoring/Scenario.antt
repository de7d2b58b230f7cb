-- ===== src/Scoring/Scenario.antt =====
-- packages/scoring/src/capability.ts: the evaluation of a private scenario graph, and the counts that
-- are shown of it. A graph and its outcomes have the shape that TypeScript gives them; what the zod
-- schemas reject besides is in Parse.
pub mod Parse
pub mod Evaluate
pub mod Outcome
pub mod Score
pub mod Projection
use agent_benchmark.Common.{
  ℕ, String, Bool, true, false, not, ◌==◌, ◌&&◌, ◌||◌, Option, none, some, List, [], ◌∷◌, ◌++◌, map,
  filter, any, all, contains, is_unique, if◌then◌else◌, Map, get, put, of_entries,
}
use agent_benchmark.Scoring.{Status, passed, failed, error, is_passed, is_error}
use agent_benchmark.Scoring.Number.{Number}
use agent_benchmark.Scoring.Capability.{status_of}

pub data NodeKind : Type 0 where
  required distractor : NodeKind

pub data Relation : Type 0 where
  requires informs revises : Relation

pub record ScenarioNode (N : Type 0) : Type 0 where
  pub id : String
  pub task_slug : String
  pub kind : NodeKind
  pub capability_ids : List String
  pub weight : N

pub record ScenarioEdge (N : Type 0) : Type 0 where
  pub id : String
  pub from_node_id : String
  pub to_node_id : String
  pub relation : Relation
  pub required : Bool
  pub weight : N

-- `kind`, `trigger` and `maxApplications` are not read by the evaluation.
pub record ScheduledFault (N : Type 0) : Type 0 where
  pub id : String
  pub node_id : String
  pub required_recovery : Bool
  pub weight : N

pub record ScenarioGraph (N : Type 0) : Type 0 where
  pub nodes : List (ScenarioNode N)
  pub edges : List (ScenarioEdge N)
  pub fault_schedule : List (ScheduledFault N)

pub data OutcomeStatus : Type 0 where
  succeeded unsuccessful errored skipped : OutcomeStatus

pub record ScenarioNodeOutcome (N : Type 0) : Type 0 where
  pub node_id : String
  pub status : OutcomeStatus
  pub score : N
  pub revised_node_ids : List String
  pub recovered_fault_ids : List String

pub record ComponentOutcome (N : Type 0) : Type 0 where
  pub id : String
  pub status : Status
  pub score : N
  pub required : Bool
  pub weight : N

pub record PrivateScenarioGraphEvaluation (N : Type 0) : Type 0 where
  pub status : Status
  pub score : N
  pub nodes : List (ComponentOutcome N)
  pub dependencies : List (ComponentOutcome N)
  pub recoveries : List (ComponentOutcome N)

pub record StatusCounts : Type 0 where
  pub passed_count : ℕ
  pub failed_count : ℕ
  pub error_count : ℕ

pub record PublicScenarioGraphEvaluation (N : Type 0) : Type 0 where
  pub status : Status
  pub score : N
  pub nodes : StatusCounts
  pub dependencies : StatusCounts
  pub recoveries : StatusCounts

pub data ScenarioError : Type 0 where
  invalid_graph invalid_outcome duplicate_outcomes unknown_node invalid_evaluation : ScenarioError

pub data Evaluated (N : Type 0) : Type 0 where
  ok : PrivateScenarioGraphEvaluation N → Evaluated N
  throw : ScenarioError → Evaluated N

abbrev pub is_skipped : OutcomeStatus → Bool
is_skipped skipped = true
is_skipped _ = false

abbrev pub status_of_outcome : OutcomeStatus → Status
status_of_outcome errored = error
status_of_outcome succeeded = passed
status_of_outcome _ = failed

abbrev pub is_revision : Relation → Bool
is_revision revises = true
is_revision _ = false
