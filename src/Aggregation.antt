-- ===== src/Aggregation.antt =====
-- apps/hosted-orchestrator/src/capability-aggregation.ts: the components and outcomes of an attempt's
-- sessions, and the evaluation of both. The matrix and the graph are those that their schemas return.
pub mod Session
pub mod Outcomes
pub mod Graph
pub mod Evaluation
pub mod Lookup
pub mod Passing
pub mod Verdict
pub mod Reading
pub mod Accepted
pub mod Attempt
pub mod Declared
pub mod Manifest
pub mod References
mod Tests
use agent_benchmark.Common.{ℕ, String, Bool, Option, none, some, List, []}
use agent_benchmark.Json.{Json, array, get_field, only_strings, as_record}
use agent_benchmark.Scoring.{Status}
use agent_benchmark.Scoring.Capability.{
  CapabilityScoreDimension, CapabilityDeclaration, DimensionDeclaration,
}
use agent_benchmark.Scoring.Scenario.{ScenarioNode, ScenarioEdge, ScheduledFault}

-- A cost is a count of actions.
pub record CapabilityAttemptSession (N : Type 0) : Type 0 where
  pub id : String
  pub task_slug : String
  pub metadata : Option Json
  pub status : Status
  pub score : N
  pub evaluators : Option Json
  pub normalized_action_cost : Option ℕ

pub record InteractionBudget : Type 0 where
  pub preferred_max_actions : ℕ
  pub hard_max_actions : ℕ

pub record CapabilityCoverageEntry : Type 0 where
  pub task_slug : String
  pub variant_id : String
  pub capability_ids : List String
  pub dimension_ids : List CapabilityScoreDimension
  pub interaction_budget : Option InteractionBudget

pub record CapabilityMatrix (N : Type 0) : Type 0 where
  pub capabilities : List CapabilityDeclaration
  pub dimensions : List (DimensionDeclaration N)
  pub coverage : List CapabilityCoverageEntry

-- The graph with the names of the evaluators, which its evaluation does not read.
pub record GraphNode (N : Type 0) : Type 0 where
  pub node : ScenarioNode N
  pub open node use *
  pub avoidance_evaluator_name : Option String

pub record GraphEdge (N : Type 0) : Type 0 where
  pub edge : ScenarioEdge N
  pub open edge use *
  pub proof_evaluator_name : Option String

pub record AttemptGraph (N : Type 0) : Type 0 where
  pub nodes : List (GraphNode N)
  pub edges : List (GraphEdge N)
  pub fault_schedule : List (ScheduledFault N)

-- `isRecord(value) ? value[key] : undefined`
abbrev pub in_record : String → Option Json → Option Json
in_record key value = elim (as_record value) [ none ↦ none | some r ↦ get_field key r ]

abbrev pub read_string_array : Option Json → List String
read_string_array (some (array vs)) = only_strings vs
read_string_array _ = []
