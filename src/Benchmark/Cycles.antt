-- ===== src/Benchmark/Cycles.antt =====
-- The search for a cycle in packages/test-cases/src/capability-benchmark.ts: `outgoing`, `hasCycle`
-- and the loop over the nodes. `visiting` and `visited` are sets of which only membership is read, so
-- the last one that was added stands first.
use agent_benchmark.Common.{
  ℕ, zero, suc, String, Bool, true, false, Option, none, some, List, [], ◌∷◌, ◌++◌, ◌==◌, contains,
  length, if◌then◌else◌, Map, get, put, get_or, map,
}
use mathlib.Core.Option
use agent_benchmark.Benchmark.{ScenarioNode, ScenarioEdge}

-- `new Map<string, string[]>()` filled by the loop over the edges.
unfoldable pub add_target : ScenarioEdge → Map (List String) → Map (List String)
unfolding get put
add_target edge outgoing =
    put edge.from_node_id (get_or (get edge.from_node_id outgoing) [] ++ edge.to_node_id ∷ [])
      outgoing

unfoldable pub build_outgoing : List ScenarioEdge → Map (List String) → Map (List String)
unfolding add_target
build_outgoing [] outgoing = outgoing
build_outgoing (edge ∷ edges) outgoing = build_outgoing edges (add_target edge outgoing)

-- `outgoing.get(nodeId) ?? []`
abbrev pub targets : Map (List String) → String → List String
targets outgoing node = get_or (get node outgoing) []

pub record Marks : Type 0 where
  pub visiting : List String
  pub visited : List String

-- `visiting.delete(nodeId)`
abbrev pub delete : String → List String → List String
delete node [] = []
delete node (n ∷ ns) = if n == node then delete node ns else n ∷ delete node ns

-- What a call returns, with the sets after it; `none` is fuel that ran out.
abbrev pub Visit : Type 0
Visit = Option (Bool × Marks)

-- The loop over targets, and `nodeIds.some`: the first cycle ends it.
unfoldable pub visit_all : (String → Marks → Visit) → List String → Marks → Visit
visit_all visit [] m = some (false, m)
visit_all visit (n ∷ ns) m = elim (visit n m) [
  | none ↦ none
  | some r ↦ if r.0 then some r else visit_all visit ns r.1
]

abbrev pub finish : String → Bool × Marks → Bool × Marks
finish node r =
    if r.0
    then r
    else (false, record { visiting = delete node r.1.visiting; visited = node ∷ r.1.visited })

unfoldable pub has_cycle : Map (List String) → ℕ → String → Marks → Visit
unfolding visit_all
has_cycle outgoing zero node m = none
has_cycle outgoing (suc fuel) node m =
    if contains node m.visiting
    then some (true, m)
    else if contains node m.visited
    then some (false, m)
    else Option.map (finish node) (
        visit_all (has_cycle outgoing fuel) (targets outgoing node)
          (record m { visiting = node ∷ m.visiting }))

-- Every identifier that a call can be made for.
abbrev pub endpoints : List ScenarioEdge → List String
endpoints [] = []
endpoints (edge ∷ edges) = edge.to_node_id ∷ endpoints edges

abbrev pub node_ids : List ScenarioNode → List String
node_ids nodes = map (λ n. n.id) nodes

-- `nodeIds.some((nodeId) => hasCycle(nodeId))`, on one more call than identifiers can be open at once.
unfoldable pub find_cycle : List ScenarioNode → List ScenarioEdge → Visit
unfolding has_cycle visit_all build_outgoing
find_cycle nodes edges =
    visit_all
      (has_cycle (build_outgoing edges []) (suc (length (node_ids nodes ++ endpoints edges))))
      (node_ids nodes) (record { visiting = []; visited = [] })
