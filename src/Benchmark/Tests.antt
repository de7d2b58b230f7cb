-- ===== src/Benchmark/Tests.antt =====
-- A scenario of three tasks: a diamond is accepted, a circle is not.
use agent_benchmark.Common.{of_entries, String, List, [], ◌∷◌, ◌≡◌, ◌↔◌, refl, none, true}
use agent_benchmark.Faults.{mutation, stale_view}
use agent_benchmark.Benchmark.{
  ScenarioNode, ScenarioEdge, ScheduledFault, PrivateScenarioGraph, required, requires,
}
use agent_benchmark.Benchmark.Cycles.{find_cycle}
use agent_benchmark.Benchmark.Graph.{graph_issues, cyclic, same_node, triggers_not_unique}
use agent_benchmark.Benchmark.Acyclic.{Decides, find_cycle-Decides}
use agent_benchmark.Benchmark.Acceptance.{WellFormed, graph_issues_iff}

abbrev node : String → ScenarioNode
node id = record { id = id; task_slug = id; kind = required; avoidance_evaluator_name = none }

abbrev edge : String → String → String → ScenarioEdge
edge id from to = record {
  id = id;
  from_node_id = from;
  to_node_id = to;
  relation = requires;
  proof_evaluator_name = none;
}

abbrev nodes : List ScenarioNode
nodes = node "a" ∷ node "b" ∷ node "c" ∷ []

abbrev diamond : List ScenarioEdge
diamond = edge "1" "a" "b" ∷ edge "2" "b" "c" ∷ edge "3" "a" "c" ∷ []

abbrev circle : List ScenarioEdge
circle = edge "1" "a" "b" ∷ edge "2" "b" "c" ∷ edge "3" "c" "b" ∷ []

abbrev stale : String → ScheduledFault
stale id = record {
  node_id = "b";
  fault = record {
    id = id;
    kind = stale_view;
    trigger = record { action = mutation; occurrence = 2 };
    required_recovery = true;
  };
}

abbrev graph : PrivateScenarioGraph
graph = record { nodes = nodes; edges = diamond; fault_schedule = stale "f" ∷ [] }

graph_run : graph_issues graph ≡ []
unfolding graph_issues of_entries
graph_run = refl

circle_run : graph_issues (record graph { edges = circle }) ≡ cyclic ∷ []
unfolding graph_issues of_entries
circle_run = refl

loop_run : graph_issues (record graph { edges = edge "1" "a" "a" ∷ [] }) ≡ same_node 0 ∷ cyclic ∷ []
unfolding graph_issues of_entries
loop_run = refl

trigger_run :
    graph_issues (record graph { fault_schedule = stale "f" ∷ stale "g" ∷ [] })
    ≡ triggers_not_unique ∷ []
unfolding graph_issues of_entries
trigger_run = refl

find_cycle-Decides_example : Decides nodes circle (find_cycle nodes circle)
find_cycle-Decides_example = find_cycle-Decides nodes circle

graph_issues_iff_example : (graph_issues graph ≡ []) ↔ WellFormed graph
graph_issues_iff_example = graph_issues_iff graph
