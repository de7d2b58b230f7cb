-- ===== src/Scoring/Scenario/Evaluate.antt =====
-- `evaluateScenarioGraph`: the outcomes of the nodes, the edges and the fault schedule.
use agent_benchmark.Common.{
  String, Bool, true, false, not, ◌&&◌, ◌||◌, Option, none, some, List, [], ◌∷◌, ◌++◌, map, filter,
  any, all, contains, is_unique, if◌then◌else◌, Map, get, of_entries,
}
use agent_benchmark.Scoring.{Status, passed, failed, is_passed, is_error}
use agent_benchmark.Scoring.Number.{Number}
use agent_benchmark.Scoring.Capability.{status_of}
use agent_benchmark.Scoring.Scenario.{
  required, distractor, ScenarioNode, ScenarioEdge, ScheduledFault, ScenarioGraph,
  ScenarioNodeOutcome, ComponentOutcome, PrivateScenarioGraphEvaluation, Evaluated, ok, throw,
  invalid_graph, invalid_outcome, duplicate_outcomes, unknown_node, invalid_evaluation, is_skipped,
  status_of_outcome, is_revision,
}
use agent_benchmark.Scoring.Scenario.Parse.{valid_graph, valid_outcome, valid_evaluation}

module _ {N : Type 0} ⦃n : Number N⦄ where
  abbrev pub unit_of : Bool → N
  unit_of b = if b then n.one else n.nought

  -- `!outcome || outcome.status === "skipped"`
  abbrev pub ignored : Option (ScenarioNodeOutcome N) → Bool
  ignored none = true
  ignored (some o) = is_skipped o.status

  abbrev pub required_status : Option (ScenarioNodeOutcome N) → Status
  required_status none = failed
  required_status (some o) = status_of_outcome o.status

  abbrev pub required_score : Option (ScenarioNodeOutcome N) → N
  required_score none = n.nought
  required_score (some o) = if is_passed (status_of_outcome o.status) then o.score else n.nought

  unfoldable pub node_result : Option (ScenarioNodeOutcome N) → ScenarioNode N → ComponentOutcome N
  node_result outcome node = elim node.kind [
    | distractor ↦ record {
      id = node.id;
      status = if ignored outcome then passed else failed;
      score = unit_of (ignored outcome);
      required = true;
      weight = node.weight;
    }
    | required ↦ record {
      id = node.id;
      status = required_status outcome;
      score = required_score outcome;
      required = true;
      weight = node.weight;
    }
  ]

  abbrev pub has_status : (Status → Bool) → Option (ComponentOutcome N) → Bool
  has_status p none = false
  has_status p (some r) = p r.status

  abbrev pub revised : Option (ScenarioNodeOutcome N) → String → Bool
  revised none id = false
  revised (some o) id = contains id o.revised_node_ids

  abbrev pub recovered : Option (ScenarioNodeOutcome N) → String → Bool
  recovered none id = false
  recovered (some o) id = contains id o.recovered_fault_ids

  abbrev pub edge_passes :
      Map (ScenarioNodeOutcome N) → Map (ComponentOutcome N) → ScenarioEdge N → Bool
  edge_passes outcomes results edge =
      has_status is_passed (get edge.from_node_id results)
      && has_status is_passed (get edge.to_node_id results)
      && (not (is_revision edge.relation)
          || revised (get edge.to_node_id outcomes) edge.from_node_id)

  unfoldable pub edge_result :
      Map (ScenarioNodeOutcome N) → Map (ComponentOutcome N) → ScenarioEdge N → ComponentOutcome N
  edge_result outcomes results edge =
      let has_error =
        has_status is_error (get edge.from_node_id results)
        || has_status is_error (get edge.to_node_id results) in
      record {
        id = edge.id;
        status = status_of has_error (edge_passes outcomes results edge);
        score = unit_of (edge_passes outcomes results edge);
        required = edge.required;
        weight = edge.weight;
      }

  abbrev pub is_errored : Option (ScenarioNodeOutcome N) → Bool
  is_errored none = false
  is_errored (some o) = is_error (status_of_outcome o.status)

  unfoldable pub fault_result :
      Option (ScenarioNodeOutcome N) → ScheduledFault N → ComponentOutcome N
  fault_result outcome fault = record {
    id = fault.id;
    status = status_of (is_errored outcome) (recovered outcome fault.id);
    score = unit_of (recovered outcome fault.id);
    required = fault.required_recovery;
    weight = fault.weight;
  }

  unfoldable pub sum_of : N → List (ComponentOutcome N) → N
  sum_of sum [] = sum
  sum_of sum (c ∷ cs) = sum_of (n.plus sum c.weight) cs

  unfoldable pub score_of : N → List (ComponentOutcome N) → N
  score_of sum [] = sum
  score_of sum (c ∷ cs) = score_of (n.plus sum (n.times c.score c.weight)) cs

  unfoldable pub mean_score : List (ComponentOutcome N) → N
  mean_score cs =
      if n.equals (sum_of n.nought cs) n.nought
      then n.nought
      else n.divide (score_of n.nought cs) (sum_of n.nought cs)

  -- `componentStatus`
  abbrev pub component_status : List (ComponentOutcome N) → Status
  component_status cs =
      status_of (any (λ c. is_error c.status) cs) (all (λ c. is_passed c.status) cs)

  abbrev pub outcomes_by_node : List (ScenarioNodeOutcome N) → Map (ScenarioNodeOutcome N)
  outcomes_by_node outcomes = of_entries (map (λ o. (o.node_id, o)) outcomes) []

  abbrev pub node_results :
      ScenarioGraph N → List (ScenarioNodeOutcome N) → List (ComponentOutcome N)
  node_results graph outcomes =
      map (λ node. node_result (get node.id (outcomes_by_node outcomes)) node) graph.nodes

  abbrev pub results_by_node : List (ComponentOutcome N) → Map (ComponentOutcome N)
  results_by_node nodes = of_entries (map (λ r. (r.id, r)) nodes) []

  abbrev pub components : PrivateScenarioGraphEvaluation N → List (ComponentOutcome N)
  components r = r.nodes ++ (r.dependencies ++ r.recoveries)

  unfoldable pub evaluation :
      ScenarioGraph N → List (ScenarioNodeOutcome N) → PrivateScenarioGraphEvaluation N
  evaluation graph outcomes =
      let by_node = outcomes_by_node outcomes in
      let nodes = node_results graph outcomes in
      let dependencies = map (edge_result by_node (results_by_node nodes)) graph.edges in
      let recoveries =
        map (λ fault. fault_result (get fault.node_id by_node) fault) graph.fault_schedule in
      let all_components = nodes ++ (dependencies ++ recoveries) in
      record {
        status = component_status (filter (λ c. c.required) all_components);
        score = n.to_fixed (mean_score all_components);
        nodes = nodes;
        dependencies = dependencies;
        recoveries = recoveries;
      }

  unfoldable pub evaluate_scenario_graph :
      ScenarioGraph N → List (ScenarioNodeOutcome N) → Evaluated N
  unfolding valid_graph valid_evaluation
  evaluate_scenario_graph graph outcomes =
      if not (valid_graph graph)
      then throw invalid_graph
      else if not (all valid_outcome outcomes)
      then throw invalid_outcome
      else if not (is_unique (map (λ o. o.node_id) outcomes))
      then throw duplicate_outcomes
      else if any (λ o. not (contains o.node_id (map (λ node. node.id) graph.nodes))) outcomes
      then throw unknown_node
      else if valid_evaluation (evaluation graph outcomes)
      then ok (evaluation graph outcomes)
      else throw invalid_evaluation
