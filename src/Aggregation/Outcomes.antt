-- ===== src/Aggregation/Outcomes.antt =====
-- apps/hosted-orchestrator/src/capability-aggregation.ts: what the sessions say of a scenario's nodes.
use agent_benchmark.Common.{
  String, Bool, false, ◌&&◌, ◌==◌, Option, none, some, List, [], map, any, find, if◌then◌else◌, Map,
  get, of_entries,
}
use agent_benchmark.Json.{Json}
use agent_benchmark.Scoring.{Status, passed, failed, error, is_passed, is_error}
use agent_benchmark.Scoring.Number.{Number}
use agent_benchmark.Scoring.Strict.{HostedWebEvaluatorResult}
use agent_benchmark.Scoring.Scenario.{
  required, distractor, is_revision, ScenarioGraph, ScenarioNodeOutcome, OutcomeStatus, succeeded,
  unsuccessful, errored,
}
use agent_benchmark.Aggregation.{
  CapabilityAttemptSession, GraphNode, GraphEdge, AttemptGraph, in_record, read_string_array,
}
use agent_benchmark.Aggregation.Session.{parsed_evaluators, collect, chain}

abbrev pub recovered_fault_ids : Option Json → List String
recovered_fault_ids metadata =
    read_string_array (in_record "recoveredFaultIds" (in_record "scenarioFaultState" metadata))

abbrev pub outcome_status : Status → OutcomeStatus
outcome_status passed = succeeded
outcome_status failed = unsuccessful
outcome_status error = errored

-- `evaluator.name === name`, where the name may be undefined.
abbrev pub is_named : Option String → String → Bool
is_named none name = false
is_named (some wanted) name = name == wanted

module _ {N : Type 0} ⦃n : Number N⦄ where
  abbrev pub scoring_graph : AttemptGraph N → ScenarioGraph N
  scoring_graph g = record {
    nodes = map (λ v. v.node) g.nodes;
    edges = map (λ e. e.edge) g.edges;
    fault_schedule = g.fault_schedule;
  }

  abbrev pub session_by_task_slug :
      List (CapabilityAttemptSession N) → Map (CapabilityAttemptSession N)
  session_by_task_slug sessions = of_entries (map (λ s. (s.task_slug, s)) sessions) []

  -- An engaged distractor, or one whose evaluator is missing or failed.
  abbrev pub engaged : GraphNode N → Bool → ScenarioNodeOutcome N
  engaged v has_error = record {
    node_id = v.id;
    status = if has_error then errored else unsuccessful;
    score = n.nought;
    revised_node_ids = [];
    recovered_fault_ids = [];
  }

  abbrev pub avoidance :
      GraphNode N → Option (HostedWebEvaluatorResult N) → Option (ScenarioNodeOutcome N)
  avoidance v none = some (engaged v false)
  avoidance v (some e) = if is_passed e.status then none else some (engaged v (is_error e.status))

  -- An evaluator of the name passed.
  abbrev pub is_proved : Option String → List (HostedWebEvaluatorResult N) → Bool
  is_proved name evaluators = any (λ e. is_named name e.name && is_passed e.status) evaluators

  unfoldable pub revised_node_id :
      GraphNode N → List (HostedWebEvaluatorResult N) → GraphEdge N → Option String
  revised_node_id v evaluators e =
      if is_revision e.relation
        && (e.to_node_id == v.id && is_proved e.proof_evaluator_name evaluators)
      then some e.from_node_id
      else none

  module _ (parse : Json → Option (HostedWebEvaluatorResult N)) where
    -- The outcome of a required node.
    unfoldable pub worked :
        List (GraphEdge N) → GraphNode N → CapabilityAttemptSession N → ScenarioNodeOutcome N
    unfolding parsed_evaluators collect revised_node_id
    worked edges v session = record {
      node_id = v.id;
      status = outcome_status session.status;
      score = if is_passed session.status then session.score else n.nought;
      revised_node_ids =
          collect (revised_node_id v (parsed_evaluators parse session.evaluators)) edges;
      recovered_fault_ids = recovered_fault_ids session.metadata;
    }

    unfoldable pub session_outcome :
        List (GraphEdge N)
        → GraphNode N
        → CapabilityAttemptSession N
        → Option (ScenarioNodeOutcome N)
    unfolding parsed_evaluators worked
    session_outcome edges v session = elim v.kind [
      | distractor ↦ avoidance v (
          find (λ e. is_named v.avoidance_evaluator_name e.name)
            (parsed_evaluators parse session.evaluators))
      | required ↦ some (worked edges v session)
    ]

    unfoldable pub node_outcome :
        List (GraphEdge N)
        → Map (CapabilityAttemptSession N)
        → GraphNode N
        → Option (ScenarioNodeOutcome N)
    unfolding session_outcome
    node_outcome edges by_task v = chain (get v.task_slug by_task) (session_outcome edges v)

    unfoldable pub build_scenario_outcomes :
        AttemptGraph N → List (CapabilityAttemptSession N) → List (ScenarioNodeOutcome N)
    unfolding node_outcome collect
    build_scenario_outcomes g sessions =
        collect (node_outcome g.edges (session_by_task_slug sessions)) g.nodes
