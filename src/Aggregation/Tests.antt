-- ===== src/Aggregation/Tests.antt =====
-- An attempt of two tasks, the second of which revises the first, beside a distractor.
use agent_benchmark.Common.{
  ℕ, ◌≡◌, refl, true, false, ◌++◌, ◌↔◌, All, String, Map, get, put, of_entries, Option, none, some,
  List, [], ◌∷◌, ◌*◌,
}
use agent_benchmark.Json.{get_field, Json, string, array, object, field, end, cons, nil}
use agent_benchmark.Scoring.{passed}
use agent_benchmark.Scoring.Number.{Decimal, decimal, Decimal-IsRounded}
use agent_benchmark.Scoring.Strict.{HostedWebEvaluatorResult, ui_state}
use agent_benchmark.Scoring.Capability.{
  ok, final_state_correctness, dependency_consistency, interaction_cost, recovery_safety,
}
use agent_benchmark.Scoring.Scenario.{required, distractor, revises, PrivateScenarioGraphEvaluation}
use agent_benchmark.Scoring.Capability.Aggregate.{dimension_ids, check_references}
use agent_benchmark.Scoring.Scenario
use agent_benchmark.Scoring.Scenario.Parse.{valid_graph}
use agent_benchmark.Scoring.Scenario.Evaluate.{
  evaluation, evaluate_scenario_graph, node_result, edge_result, fault_result,
}
use agent_benchmark.Aggregation.{CapabilityAttemptSession, CapabilityMatrix, AttemptGraph}
use agent_benchmark.Aggregation.Session.{build_session_components, cost_score}
use agent_benchmark.Aggregation.Outcomes.{scoring_graph, build_scenario_outcomes}
use agent_benchmark.Aggregation.Graph.{build_graph_components}
use agent_benchmark.Aggregation.Passing.{NodePasses}
use agent_benchmark.Aggregation.Verdict.{EdgePasses, FaultPasses}
use agent_benchmark.Aggregation.Attempt.{attempt_passes_iff}
use agent_benchmark.Aggregation.Manifest.{
  coverage_issues, suite_issues, unknown_issues, suite_coverage_issues, suite_node_issues,
}
use agent_benchmark.Aggregation.References.{references_checked}

-- A passed evaluator under the text of the JSON value.
abbrev parse : Json → Option (HostedWebEvaluatorResult Decimal)
parse (string name) = some (record {
  type = ui_state;
  name = name;
  score = 10000;
  status = passed;
  required = true;
  evidence = none;
  error_message = none;
})
parse _ = none

abbrev of_count : ℕ → Decimal
of_count n = n * 10000

abbrev variant : Json
variant = object (field "variantId" (string "v1") end)

abbrev draft : CapabilityAttemptSession Decimal
draft = record {
  id = "s1";
  task_slug = "draft";
  metadata = some (
      object (
        field "questionGeneration" variant (
          field "scenarioFaultState"
            (object (field "recoveredFaultIds" (array (cons (string "f1") nil)) end)) end)));
  status = passed;
  score = 10000;
  evaluators = some (array (cons (string "draft is saved") nil));
  normalized_action_cost = some 6;
}

abbrev amend : CapabilityAttemptSession Decimal
amend = record {
  id = "s2";
  task_slug = "amend";
  metadata = some (object (field "questionGeneration" variant end));
  status = passed;
  score = 9000;
  evaluators = some (array (cons (string "draft was revised") nil));
  normalized_action_cost = none;
}

abbrev sessions : List (CapabilityAttemptSession Decimal)
sessions = draft ∷ amend ∷ []

abbrev graph : AttemptGraph Decimal
graph = record {
  nodes =
      record {
        node = record {
          id = "a";
          task_slug = "draft";
          kind = required;
          capability_ids = "writing" ∷ [];
          weight = 10000;
        };
        avoidance_evaluator_name = none;
      }
      ∷ record {
        node = record {
          id = "b";
          task_slug = "amend";
          kind = required;
          capability_ids = "writing" ∷ [];
          weight = 10000;
        };
        avoidance_evaluator_name = none;
      }
      ∷ record {
        node = record {
          id = "d";
          task_slug = "offer";
          kind = distractor;
          capability_ids = "writing" ∷ [];
          weight = 10000;
        };
        avoidance_evaluator_name = some "offer is ignored";
      }
      ∷ [];
  edges =
      record {
        edge = record {
          id = "e";
          from_node_id = "a";
          to_node_id = "b";
          relation = revises;
          required = true;
          weight = 10000;
        };
        proof_evaluator_name = some "draft was revised";
      }
      ∷ [];
  fault_schedule =
      record { id = "f1"; node_id = "a"; required_recovery = true; weight = 10000 } ∷ [];
}

abbrev matrix : CapabilityMatrix Decimal
matrix = record {
  capabilities = record { id = "writing"; title = "Writing"; required = none } ∷ [];
  dimensions =
      record { id = final_state_correctness; weight = 5000; required = none }
      ∷ record { id = dependency_consistency; weight = 2000; required = none }
      ∷ record { id = recovery_safety; weight = 2000; required = none }
      ∷ record { id = interaction_cost; weight = 1000; required = some false }
      ∷ [];
  coverage =
      record {
        task_slug = "draft";
        variant_id = "v1";
        capability_ids = "writing" ∷ [];
        dimension_ids = final_state_correctness ∷ recovery_safety ∷ interaction_cost ∷ [];
        interaction_budget = some (record { preferred_max_actions = 4; hard_max_actions = 8 });
      }
      ∷ record {
        task_slug = "amend";
        variant_id = "v1";
        capability_ids = "writing" ∷ [];
        dimension_ids = final_state_correctness ∷ dependency_consistency ∷ [];
        interaction_budget = none;
      }
      ∷ [];
}

abbrev scenario : PrivateScenarioGraphEvaluation Decimal
scenario = evaluation (scoring_graph graph) (build_scenario_outcomes parse graph sessions)

scenario_run : scenario.status ≡ passed
unfolding evaluation build_scenario_outcomes node_result edge_result fault_result get of_entries put
    get_field
scenario_run = refl

graph_valid : valid_graph (scoring_graph graph) ≡ true
unfolding valid_graph
graph_valid = refl

attempt_passes_iff_example :
    (e : PrivateScenarioGraphEvaluation Decimal) × (evaluate_scenario_graph
        (scoring_graph graph)
        (build_scenario_outcomes parse graph sessions)
      ≡ Scenario.ok e)
    × ((e.status ≡ passed) ↔ (
        All (NodePasses parse graph sessions) graph.nodes
        × All (λ d. d.required ≡ true → EdgePasses parse graph sessions d) graph.edges
        × All
            (λ f. f.required_recovery ≡ true → FaultPasses parse graph sessions f)
            graph.fault_schedule))
attempt_passes_iff_example =
    attempt_passes_iff parse graph sessions refl Decimal-IsRounded graph_valid
      ((λ _. (refl, refl)), ((λ _. (refl, refl)), tt))

-- The variants of the suite's sessions.
abbrev variants : Map (List String)
variants = ("draft", "v1" ∷ []) ∷ ("amend", "v1" ∷ []) ∷ ("offer", []) ∷ []

references_checked_example :
    check_references ("writing" ∷ []) (dimension_ids matrix.dimensions) (
      build_session_components of_count parse matrix sessions
      ++ build_graph_components matrix graph sessions scenario)
    ≡ ok tt
unfolding coverage_issues suite_issues unknown_issues suite_coverage_issues suite_node_issues get
references_checked_example =
    references_checked of_count parse matrix graph variants sessions scenario refl refl

-- A cost half way between the bounds of its budget scores a half.
cost_run :
    cost_score of_count parse (record { preferred_max_actions = 4; hard_max_actions = 8 }) 6 ≡ 5000
cost_run = refl
