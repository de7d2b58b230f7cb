-- ===== src/Aggregation/Evaluation.antt =====
-- `buildCapabilityAttemptEvaluation` of apps/hosted-orchestrator/src/capability-aggregation.ts.
use agent_benchmark.Common.{ℕ, Option, none, some, List, ◌++◌}
use agent_benchmark.Json.{Json}
use agent_benchmark.Scoring.Number.{Number}
use agent_benchmark.Scoring.Strict.{HostedWebEvaluatorResult}
use agent_benchmark.Scoring.Capability
use agent_benchmark.Scoring.Capability.{
  CapabilityBreakdown, CapabilityError, CapabilityScoreComponent,
}
use agent_benchmark.Scoring.Capability.Aggregate.{aggregate_capability_scores}
use agent_benchmark.Scoring.Scenario
use agent_benchmark.Scoring.Scenario.{PublicScenarioGraphEvaluation, ScenarioError}
use agent_benchmark.Scoring.Scenario.Evaluate.{evaluate_scenario_graph}
use agent_benchmark.Scoring.Scenario.Projection.{project_scenario_graph_evaluation}
use agent_benchmark.Aggregation.{CapabilityAttemptSession, CapabilityMatrix, AttemptGraph}
use agent_benchmark.Aggregation.Session.{build_session_components}
use agent_benchmark.Aggregation.Outcomes.{scoring_graph, build_scenario_outcomes}
use agent_benchmark.Aggregation.Graph.{build_graph_components}

pub record CapabilityAttemptEvaluation (N : Type 0) : Type 0 where
  pub capabilities : CapabilityBreakdown N
  pub scenario_graph : Option (PublicScenarioGraphEvaluation N)

pub data AttemptError : Type 0 where
  graph_without_matrix invalid_matrix invalid_graph invalid_projection : AttemptError
  scenario : ScenarioError → AttemptError
  capability : CapabilityError → AttemptError

-- `absent` is null.
pub data AttemptResult (N : Type 0) : Type 0 where
  absent : AttemptResult N
  evaluated : CapabilityAttemptEvaluation N → AttemptResult N
  threw : AttemptError → AttemptResult N

module _ {N : Type 0} ⦃n : Number N⦄ (of_count : ℕ → N)
    (parse : Json → Option (HostedWebEvaluatorResult N)) where
  unfoldable pub scored :
      CapabilityMatrix N
      → List (CapabilityScoreComponent N)
      → Option (PublicScenarioGraphEvaluation N)
      → AttemptResult N
  unfolding aggregate_capability_scores
  scored matrix components shown =
      elim (aggregate_capability_scores matrix.capabilities matrix.dimensions components) [
        | Capability.throw e ↦ threw (capability e)
        | Capability.ok b ↦ evaluated (record { capabilities = b; scenario_graph = shown })
      ]

  -- With a matrix, and a graph where there is one.
  unfoldable pub evaluate_with :
      CapabilityMatrix N
      → Option (AttemptGraph N)
      → List (CapabilityAttemptSession N)
      → AttemptResult N
  unfolding build_session_components build_scenario_outcomes build_graph_components
      evaluate_scenario_graph project_scenario_graph_evaluation
  evaluate_with matrix none sessions =
      scored matrix (build_session_components of_count parse matrix sessions) none
  evaluate_with matrix (some g) sessions =
      elim (evaluate_scenario_graph (scoring_graph g) (build_scenario_outcomes parse g sessions)) [
        | Scenario.throw e ↦ threw (scenario e)
        | Scenario.ok e ↦ elim (project_scenario_graph_evaluation e) [
          | none ↦ threw invalid_projection
          | some shown ↦
              scored matrix
                (build_session_components of_count parse matrix sessions
                  ++ build_graph_components matrix g sessions e)
                (some shown)
        ]
      ]

  -- The metadata's `capabilityMatrix` and `scenarioGraph`, each `none` where it is undefined, with
  -- the parsers of capabilityMatrixSchema and privateScenarioGraphSchema, `none` where they throw.
  unfoldable pub build_capability_attempt_evaluation :
      (Json → Option (CapabilityMatrix N))
      → (Json → Option (AttemptGraph N))
      → Option Json
      → Option Json
      → List (CapabilityAttemptSession N)
      → AttemptResult N
  unfolding evaluate_with scored
  build_capability_attempt_evaluation parse_matrix parse_graph none none sessions = absent
  build_capability_attempt_evaluation parse_matrix parse_graph none (some graph) sessions =
      threw graph_without_matrix
  build_capability_attempt_evaluation parse_matrix parse_graph (some matrix) none sessions =
      elim (parse_matrix matrix) [
        | none ↦ threw invalid_matrix
        | some m ↦ evaluate_with m none sessions
      ]
  build_capability_attempt_evaluation parse_matrix parse_graph (some matrix) (some graph) sessions =
      elim (parse_matrix matrix) [
        | none ↦ threw invalid_matrix
        | some m ↦ elim (parse_graph graph) [
          | none ↦ threw invalid_graph
          | some g ↦ evaluate_with m (some g) sessions
        ]
      ]
