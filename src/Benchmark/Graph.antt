-- ===== src/Benchmark/Graph.antt =====
-- packages/test-cases/src/capability-benchmark.ts: what scenarioNodeSchema, scenarioEdgeSchema and
-- privateScenarioGraphSchema add to the issues of a parsed graph.
use agent_benchmark.Common.{
  ℕ, suc, String, Bool, true, false, not, ◌==◌, ◌&&◌, ◌||◌, none, some, List, [], ◌∷◌, ◌++◌, map,
  any, contains, is_unique, is_some, if◌then◌else◌, nat_eq, Map, get, get_or, of_entries,
}
use agent_benchmark.Faults.{FaultAction, mutation}
use agent_benchmark.Benchmark.{
  NodeKind, distractor, Relation, revises, ScenarioNode, ScenarioEdge, ScheduledFault,
  PrivateScenarioGraph,
}
use agent_benchmark.Benchmark.Cycles.{find_cycle, Visit, node_ids}

-- The issues, each with the index in its path where it has one.
pub data Issue : Type 0 where
  avoidance_missing avoidance_forbidden proof_missing proof_forbidden : Issue
  not_unique : String → Issue
  unknown_node same_node unknown_fault_node : ℕ → Issue
  triggers_not_unique cyclic : Issue

abbrev pub is_distractor : NodeKind → Bool
is_distractor distractor = true
is_distractor _ = false

abbrev pub is_revision : Relation → Bool
is_revision revises = true
is_revision _ = false

-- `if (bad) context.addIssue(issue)`
abbrev pub issue_if : Bool → Issue → List Issue
issue_if bad issue = if bad then issue ∷ [] else []

-- The refinement of scenarioNodeSchema.
abbrev pub node_issues : ScenarioNode → List Issue
node_issues node =
    issue_if (is_distractor node.kind && not (is_some node.avoidance_evaluator_name))
      avoidance_missing
    ++ issue_if (not (is_distractor node.kind) && is_some node.avoidance_evaluator_name)
        avoidance_forbidden

-- The refinement of scenarioEdgeSchema.
abbrev pub edge_issues : ScenarioEdge → List Issue
edge_issues edge =
    issue_if (is_revision edge.relation && not (is_some edge.proof_evaluator_name)) proof_missing
    ++ issue_if (not (is_revision edge.relation) && is_some edge.proof_evaluator_name)
        proof_forbidden

unfoldable pub all_node_issues : List ScenarioNode → List Issue
all_node_issues [] = []
all_node_issues (node ∷ nodes) = node_issues node ++ all_node_issues nodes

unfoldable pub all_edge_issues : List ScenarioEdge → List Issue
all_edge_issues [] = []
all_edge_issues (edge ∷ edges) = edge_issues edge ++ all_edge_issues edges

abbrev pub edge_ids : List ScenarioEdge → List String
edge_ids edges = map (λ e. e.id) edges

abbrev pub fault_ids : List ScheduledFault → List String
fault_ids faults = map (λ f. f.fault.id) faults

-- The loop over `graph.edges.entries()`.
unfoldable pub reference_issues : List String → ℕ → List ScenarioEdge → List Issue
reference_issues known index [] = []
reference_issues known index (edge ∷ edges) =
    issue_if (not (contains edge.from_node_id known) || not (contains edge.to_node_id known))
      (unknown_node index)
    ++ (issue_if (edge.from_node_id == edge.to_node_id) (same_node index)
        ++ reference_issues known (suc index) edges)

-- The loop over `graph.faultSchedule.entries()`.
unfoldable pub fault_issues : List String → ℕ → List ScheduledFault → List Issue
fault_issues known index [] = []
fault_issues known index (f ∷ faults) =
    issue_if (not (contains f.node_id known)) (unknown_fault_node index)
    ++ fault_issues known (suc index) faults

-- The parts of the key `task:class:occurrence`. Neither the class nor the number holds a colon, so two
-- keys are the same text exactly when their parts are the same.
pub record TriggerKey : Type 0 where
  pub task : String
  pub is_mutation : Bool
  pub occurrence : ℕ

abbrev pub is_mutation_action : FaultAction → Bool
is_mutation_action mutation = true
is_mutation_action _ = false

abbrev pub task_slug_by_node_id : List ScenarioNode → Map String
task_slug_by_node_id nodes = of_entries (map (λ n. (n.id, n.task_slug)) nodes) []

abbrev pub trigger_key : Map String → ScheduledFault → TriggerKey
trigger_key slugs f = record {
  task = get_or (get f.node_id slugs) f.node_id;
  is_mutation = is_mutation_action f.fault.trigger.action;
  occurrence = f.fault.trigger.occurrence;
}

abbrev pub same_bool : Bool → Bool → Bool
same_bool true b = b
same_bool false b = not b

abbrev pub same_key : TriggerKey → TriggerKey → Bool
same_key a b =
    a.task == b.task && (same_bool a.is_mutation b.is_mutation && nat_eq a.occurrence b.occurrence)

-- `new Set(keys).size === keys.length`
unfoldable pub unique_keys : List TriggerKey → Bool
unique_keys [] = true
unique_keys (k ∷ ks) = if any (λ j. same_key j k) ks then false else unique_keys ks

abbrev pub found_cycle : Visit → Bool
found_cycle none = false
found_cycle (some (found, m)) = found

abbrev pub uniqueness_issues : PrivateScenarioGraph → List Issue
uniqueness_issues g =
    issue_if (not (is_unique (node_ids g.nodes))) (not_unique "nodes")
    ++ (issue_if (not (is_unique (edge_ids g.edges))) (not_unique "edges")
        ++ issue_if (not (is_unique (fault_ids g.fault_schedule))) (not_unique "faultSchedule"))

unfoldable pub graph_issues : PrivateScenarioGraph → List Issue
unfolding all_node_issues all_edge_issues reference_issues fault_issues unique_keys find_cycle
graph_issues g =
    all_node_issues g.nodes
    ++ (all_edge_issues g.edges
        ++ (uniqueness_issues g
            ++ (reference_issues (node_ids g.nodes) 0 g.edges
                ++ (fault_issues (node_ids g.nodes) 0 g.fault_schedule
                    ++ (issue_if
                          (not (
                            unique_keys
                              (map (trigger_key (task_slug_by_node_id g.nodes)) g.fault_schedule)))
                          triggers_not_unique
                        ++ issue_if (found_cycle (find_cycle g.nodes g.edges)) cyclic)))))
