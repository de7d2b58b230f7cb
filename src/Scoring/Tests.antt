-- ===== src/Scoring/Tests.antt =====
-- Scores at concrete results, in numbers of four decimals.
use agent_benchmark.Scoring.Number.{Decimal, decimal, Decimal-IsRounded, IsUnit}
use agent_benchmark.Scoring.{Status, passed, failed, error, Bool}
use agent_benchmark.Common.{
  Bool, List, All, true, ◌∷◌, none, ◌≡◌, false, [], length, ◌↔◌, of_entries, refl, get, put,
}
use agent_benchmark.Scoring.Strict.{
  aggregate_strict_score, HostedWebEvaluatorResult, backend_state, aggregate_strict_score_verdict,
  aggregate_strict_score_optional,
}
use agent_benchmark.Scoring.Suite.{
  HostedWebSuiteSessionScore, aggregate_suite_score, SuiteParams, weighted_score, checks,
}
use agent_benchmark.Scoring.Capability.{
  CapabilityDeclaration, DimensionDeclaration, CapabilityScoreComponent, final_state_correctness,
  not_false, Result, dimension_name,
}
use agent_benchmark.Scoring.Capability.Aggregate.{
  breakdown, aggregate_capability_scores, check_declarations, check_references, ◌>>◌, sum_weights,
  valid_breakdown, track, of_capability, dimension, of_dimension,
}
use agent_benchmark.Scoring.Scenario.{
  ScenarioGraph, required, ScenarioNodeOutcome, succeeded, distractor, revises,
}
use agent_benchmark.Scoring.Scenario.Evaluate.{
  evaluation, node_result, edge_result, fault_result, outcomes_by_node, results_by_node,
  node_results,
}
use agent_benchmark.Scoring.Scenario.Projection.{total, projected, projected_counts}
use agent_benchmark.Scoring.Scenario.Score.{evaluation-IsUnit}
use agent_benchmark.Scoring.Capability.Components.{
  weight_sum, weighted_sum, aggregate_components, weighted_mean,
}
use agent_benchmark.Scoring.Scenario.Outcome.{EdgeHolds, evaluation_passed_iff}
use agent_benchmark.Scoring.Suite.Verdict.{CapabilitiesAre, GraphIs, suite_passed_iff}
use agent_benchmark.Scoring.Capability.Verdict.{IsProven, breakdown_passed_iff}
use agent_benchmark.Scoring.Capability.Validity.{
  aggregate_capability_scores_total, IsDeclared, aggregate_capability_scores_sound,
}

abbrev evaluator : Status → Bool → HostedWebEvaluatorResult Decimal
evaluator status needed = record {
  type = backend_state;
  name = "order";
  score = 0;
  status = status;
  required = needed;
  evidence = none;
  error_message = none;
}

aggregate_strict_score_verdict_run :
    (aggregate_strict_score (evaluator passed true ∷ evaluator failed false ∷ []) "yes" "no").score
    ≡ 10000
unfolding aggregate_strict_score
aggregate_strict_score_verdict_run =
    (aggregate_strict_score_verdict (evaluator passed true ∷ evaluator failed false ∷ []) "yes"
      "no").2

aggregate_strict_score_optional_example :
    (aggregate_strict_score (evaluator passed true ∷ evaluator error false ∷ []) "yes" "no").status
    ≡ (aggregate_strict_score (evaluator passed true ∷ []) "yes" "no").status
aggregate_strict_score_optional_example =
    (aggregate_strict_score_optional (evaluator passed true ∷ []) [] (evaluator error false) "yes"
      "no" refl).0

abbrev session : Status → Decimal → Decimal → HostedWebSuiteSessionScore Decimal
session status score weight = record {
  session_id = "s";
  app = "wiki-lite";
  task_slug = "t";
  status = status;
  score = score;
  weight = weight;
  required = true;
}

abbrev suite : List (HostedWebSuiteSessionScore Decimal) → SuiteParams Decimal
suite sessions = record {
  sessions = sessions;
  consistency = none;
  capabilities = none;
  scenario_graph = none;
  pass_summary = none;
  fail_summary = none;
}

suite_mean :
    (aggregate_suite_score (suite (session passed 10000 30000 ∷ session failed 0 10000 ∷ []))).score
    ≡ 7500
unfolding aggregate_suite_score weighted_score weight_sum weighted_sum
suite_mean = refl

suite_passed_iff_example :
    ((aggregate_suite_score (suite (session passed 10000 10000 ∷ []))).status ≡ passed) ↔ (
      (All (λ s. s.required ≡ true → s.status ≡ passed) (session passed 10000 10000 ∷ []))
      × (All
          (λ c. c.required ≡ true → c.status ≡ passed)
          (checks (suite (session passed 10000 10000 ∷ []))))
      × CapabilitiesAre {N = Decimal} passed none
      × GraphIs {N = Decimal} passed none)
suite_passed_iff_example = suite_passed_iff (suite (session passed 10000 10000 ∷ []))

abbrev track_declared : CapabilityDeclaration
track_declared = record { id = "plan"; title = "Planning"; required = none }

abbrev dimension_declared : DimensionDeclaration Decimal
dimension_declared = record { id = final_state_correctness; weight = 10000; required = none }

abbrev component : CapabilityScoreComponent Decimal
component = record {
  id = "final-state:s";
  capability_ids = "plan" ∷ [];
  dimension_id = final_state_correctness;
  status = passed;
  score = 10000;
  weight = 10000;
  required = true;
}

breakdown_passed_iff_example :
    ((breakdown (track_declared ∷ []) (dimension_declared ∷ []) (component ∷ [])).status ≡ passed)
    ↔ (All
          (λ c. not_false c.required ≡ true → IsProven (of_capability (component ∷ []) c.id))
          (track_declared ∷ [])
        × All
            (λ d.
              not_false d.required ≡ true
              → IsProven (of_dimension (component ∷ []) (dimension_name d.id)))
            (dimension_declared ∷ []))
breakdown_passed_iff_example =
    breakdown_passed_iff (track_declared ∷ []) (dimension_declared ∷ []) (component ∷ [])

aggregate_capability_scores_total_example :
    aggregate_capability_scores (track_declared ∷ []) (dimension_declared ∷ []) (component ∷ []) ≡ (
      check_declarations (track_declared ∷ []) (dimension_declared ∷ []) (component ∷ [])
      >> Result.ok (breakdown (track_declared ∷ []) (dimension_declared ∷ []) (component ∷ [])))
aggregate_capability_scores_total_example =
    aggregate_capability_scores_total Decimal-IsRounded (track_declared ∷ [])
      (dimension_declared ∷ []) (component ∷ []) (refl, tt)

aggregate_capability_scores_sound_run :
    IsDeclared (track_declared ∷ []) (dimension_declared ∷ []) (component ∷ [])
unfolding aggregate_capability_scores check_declarations check_references sum_weights breakdown
    valid_breakdown track dimension aggregate_components weighted_mean weight_sum weighted_sum
aggregate_capability_scores_sound_run =
    (aggregate_capability_scores_sound (track_declared ∷ []) (dimension_declared ∷ [])
      (component ∷ []) (breakdown (track_declared ∷ []) (dimension_declared ∷ []) (component ∷ []))
      refl).1

abbrev graph : ScenarioGraph Decimal
graph = record {
  nodes =
      record {
        id = "a";
        task_slug = "ta";
        kind = required;
        capability_ids = "plan" ∷ [];
        weight = 10000;
      }
      ∷ record {
        id = "b";
        task_slug = "tb";
        kind = required;
        capability_ids = "plan" ∷ [];
        weight = 10000;
      }
      ∷ record {
        id = "trap";
        task_slug = "tc";
        kind = distractor;
        capability_ids = "plan" ∷ [];
        weight = 10000;
      }
      ∷ [];
  edges =
      record {
        id = "e";
        from_node_id = "a";
        to_node_id = "b";
        relation = revises;
        required = true;
        weight = 10000;
      }
      ∷ [];
  fault_schedule =
      record { id = "f"; node_id = "b"; required_recovery = true; weight = 10000 } ∷ [];
}

abbrev outcomes : List (ScenarioNodeOutcome Decimal)
outcomes =
    record {
      node_id = "a";
      status = succeeded;
      score = 10000;
      revised_node_ids = [];
      recovered_fault_ids = [];
    }
    ∷ record {
      node_id = "b";
      status = succeeded;
      score = 10000;
      revised_node_ids = "a" ∷ [];
      recovered_fault_ids = "f" ∷ [];
    }
    ∷ []

graph_passes : (evaluation graph outcomes).status ≡ passed
unfolding evaluation node_result edge_result fault_result of_entries get put
graph_passes = refl

evaluation_passed_iff_example :
    All
      (λ edge.
        edge.required ≡ true
        → EdgeHolds
            (outcomes_by_node outcomes)
            (results_by_node (node_results graph outcomes))
            edge)
      graph.edges
evaluation_passed_iff_example = ((evaluation_passed_iff graph outcomes).0 graph_passes).1

evaluation-IsUnit_run : IsUnit (evaluation graph outcomes).score
evaluation-IsUnit_run =
    (evaluation-IsUnit Decimal-IsRounded graph outcomes ((refl, refl), ((refl, refl), tt))
      (refl, (refl, (refl, tt))) (refl, tt) (refl, tt)).0

projected_counts_run :
    total (projected (evaluation graph outcomes)).nodes ≡ length (evaluation graph outcomes).nodes
projected_counts_run = (projected_counts (evaluation graph outcomes)).0
