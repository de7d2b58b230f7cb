-- ===== src/Aggregation/Graph.antt =====
-- apps/hosted-orchestrator/src/capability-aggregation.ts: the components of a scenario's edges and
-- faults.
use agent_benchmark.Common.{
  String, ◌⧺◌, Option, none, some, List, [], ◌++◌, map, map_option, if◌then◌else◌, Map, get,
  of_entries,
}
use agent_benchmark.Scoring.Number.{Number}
use agent_benchmark.Scoring.Capability.{
  CapabilityScoreDimension, dependency_consistency, recovery_safety, CapabilityScoreComponent,
}
use agent_benchmark.Scoring.Scenario.{
  ScheduledFault, ComponentOutcome, PrivateScenarioGraphEvaluation,
}
use agent_benchmark.Scoring.Scenario.Evaluate.{results_by_node}
use agent_benchmark.Aggregation.{
  CapabilityAttemptSession, CapabilityCoverageEntry, CapabilityMatrix, GraphNode, GraphEdge,
  AttemptGraph,
}
use agent_benchmark.Aggregation.Session.{matching_coverage, has_dimension, collect}

module _ {N : Type 0} ⦃n : Number N⦄ where
  unfoldable pub selected_coverage :
      CapabilityMatrix N → CapabilityAttemptSession N → Option (String × CapabilityCoverageEntry)
  unfolding matching_coverage
  selected_coverage matrix session =
      map_option (λ coverage. (session.task_slug, coverage)) (matching_coverage matrix session)

  unfoldable pub selected_coverage_by_task :
      CapabilityMatrix N → List (CapabilityAttemptSession N) → Map CapabilityCoverageEntry
  unfolding selected_coverage collect of_entries
  selected_coverage_by_task matrix sessions =
      of_entries (collect (selected_coverage matrix) sessions) []

  abbrev pub node_by_id : AttemptGraph N → Map (GraphNode N)
  node_by_id g = of_entries (map (λ v. (v.id, v)) g.nodes) []

  abbrev pub component_of :
      CapabilityScoreDimension
      → String
      → GraphNode N
      → ComponentOutcome N
      → CapabilityScoreComponent N
  component_of dimension id v result = record {
    id = id;
    capability_ids = v.capability_ids;
    dimension_id = dimension;
    status = result.status;
    score = result.score;
    weight = result.weight;
    required = result.required;
  }

  -- The rounds of both loops: the node, its coverage and the result must all be there.
  unfoldable pub graph_component :
      CapabilityScoreDimension
      → String
      → Map CapabilityCoverageEntry
      → Option (GraphNode N)
      → Option (ComponentOutcome N)
      → Option (CapabilityScoreComponent N)
  graph_component dimension id coverages node result = elim node [
    | none ↦ none
    | some v ↦ elim (get v.task_slug coverages) [
      | none ↦ none
      | some coverage ↦
          if has_dimension dimension coverage.dimension_ids
          then map_option (component_of dimension id v) result
          else none
    ]
  ]

  unfoldable pub dependency_component :
      Map CapabilityCoverageEntry
      → Map (GraphNode N)
      → Map (ComponentOutcome N)
      → GraphEdge N
      → Option (CapabilityScoreComponent N)
  unfolding graph_component
  dependency_component coverages nodes results edge =
      graph_component dependency_consistency ("dependency:" ⧺ edge.id) coverages
        (get edge.to_node_id nodes) (get edge.id results)

  unfoldable pub recovery_component :
      Map CapabilityCoverageEntry
      → Map (GraphNode N)
      → Map (ComponentOutcome N)
      → ScheduledFault N
      → Option (CapabilityScoreComponent N)
  unfolding graph_component
  recovery_component coverages nodes results fault =
      graph_component recovery_safety ("recovery:" ⧺ fault.id) coverages (get fault.node_id nodes)
        (get fault.id results)

  unfoldable pub build_graph_components :
      CapabilityMatrix N
      → AttemptGraph N
      → List (CapabilityAttemptSession N)
      → PrivateScenarioGraphEvaluation N
      → List (CapabilityScoreComponent N)
  unfolding dependency_component recovery_component selected_coverage_by_task collect
  build_graph_components matrix g sessions evaluated =
      let coverages = selected_coverage_by_task matrix sessions in
      let nodes = node_by_id g in
      collect (dependency_component coverages nodes (results_by_node evaluated.dependencies))
        g.edges
      ++ collect (recovery_component coverages nodes (results_by_node evaluated.recoveries))
          g.fault_schedule
