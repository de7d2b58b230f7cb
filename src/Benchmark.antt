-- ===== src/Benchmark.antt =====
-- packages/test-cases/src/capability-benchmark.ts: the checks that scenarioNodeSchema,
-- scenarioEdgeSchema and privateScenarioGraphSchema add to the shapes that zod parses. A value is the
-- parsed one.
pub mod Cycles
pub mod Walks
pub mod Search
pub mod Graph
pub mod Acyclic
pub mod Acceptance
mod Tests
use agent_benchmark.Common.{ℕ, String, Bool, Option, List}
use agent_benchmark.Faults.{DeterministicFault}

pub data NodeKind : Type 0 where
  required distractor : NodeKind

pub data Relation : Type 0 where
  requires informs revises : Relation

pub record ScenarioNode : Type 0 where
  pub id : String
  pub task_slug : String
  pub kind : NodeKind
  pub avoidance_evaluator_name : Option String

pub record ScenarioEdge : Type 0 where
  pub id : String
  pub from_node_id : String
  pub to_node_id : String
  pub relation : Relation
  pub proof_evaluator_name : Option String

-- A fault of the schedule with the node that it belongs to.
pub record ScheduledFault : Type 0 where
  pub node_id : String
  pub fault : DeterministicFault

pub record PrivateScenarioGraph : Type 0 where
  pub nodes : List ScenarioNode
  pub edges : List ScenarioEdge
  pub fault_schedule : List ScheduledFault
