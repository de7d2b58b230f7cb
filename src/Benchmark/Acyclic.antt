-- ===== src/Benchmark/Acyclic.antt =====
-- The search for a cycle, run on a scenario graph.
use mathlib.Core.List.{append-nil, append_assoc}
use agent_benchmark.Common.{
  Subset_right, Subset_refl, Subset_cons, suc, String, ◌≡◌, true, false, none, some, List, [], ◌∷◌,
  ◌++◌, ◌==◌, get_or, contains, All-imp, eq_iff, arith, inl, inr, Bool-cases, refl, subst, Map,
  Subset, get, length, contains_of_Subset, sym, ◌∙◌, if◌then◌else◌, get-put, Subset-append,
}
use agent_benchmark.Benchmark.{ScenarioNode, ScenarioEdge}
use agent_benchmark.Benchmark.Cycles.{
  targets, Visit, has_cycle, find_cycle, build_outgoing, add_target, node_ids, endpoints,
}
use agent_benchmark.Benchmark.Walks.{Walk, one, more, Finished-no_Walk}
use agent_benchmark.Benchmark.Search.{Outcome, visit_all-Outcome, has_cycle-Sound}

-- The targets of the edges that start at a node, in their order.
abbrev pub successors : List ScenarioEdge → String → List String
successors [] node = []
successors (edge ∷ edges) node =
    if edge.from_node_id == node
    then edge.to_node_id ∷ successors edges node
    else successors edges node

-- One node depends on another over one edge or more.
pub data Leads (edges : List ScenarioEdge) : String → String → Type 0 where
  by_edge : {a b : String} → contains b (successors edges a) ≡ true → Leads edges a b
  by_edges :
      {a b c : String} → contains b (successors edges a) ≡ true → Leads edges b c → Leads edges a c

targets-add :
    (edge : ScenarioEdge) (m : Map (List String)) (node : String)
    → targets (add_target edge m) node ≡ (
        if edge.from_node_id == node
        then targets m node ++ edge.to_node_id ∷ []
        else targets m node)
unfolding add_target
targets-add edge m node = ground (
  arith,
  eq_iff edge.from_node_id node,
  get-put edge.from_node_id node (get_or (get edge.from_node_id m) [] ++ edge.to_node_id ∷ []) m,
)

targets-build :
    (edges : List ScenarioEdge) (m : Map (List String)) (node : String)
    → targets (build_outgoing edges m) node ≡ targets m node ++ successors edges node
unfolding build_outgoing
targets-build [] m node = sym (append-nil (targets m node))
targets-build (edge ∷ edges) m node = elim (Bool-cases (edge.from_node_id == node)) [
  | inl same ↦
      targets-build edges (add_target edge m) node
      ∙ rw (targets-add edge m node, same)
          (append_assoc (targets m node) (edge.to_node_id ∷ []) (successors edges node))
  | inr other ↦
      targets-build edges (add_target edge m) node ∙ rw (targets-add edge m node, other) refl
]

endpoints-successors :
    (edges : List ScenarioEdge) (node : String) → Subset (successors edges node) (endpoints edges)
endpoints-successors [] node = tt
endpoints-successors (edge ∷ edges) node = elim (Bool-cases (edge.from_node_id == node)) [
  | inl same ↦ rw same (
    ground (arith, eq_iff edge.to_node_id edge.to_node_id),
    Subset_cons edge.to_node_id (successors edges node) (endpoints edges)
        (endpoints-successors edges node),
  )
  | inr other ↦ rw other (
      Subset_cons edge.to_node_id (successors edges node) (endpoints edges)
        (endpoints-successors edges node))
]

abbrev outgoing_of : List ScenarioEdge → Map (List String)
outgoing_of edges = build_outgoing edges []

targets_of :
    (edges : List ScenarioEdge) (node : String)
    → targets (outgoing_of edges) node ≡ successors edges node
unfolding get
targets_of edges node = targets-build edges [] node

Walk-Leads :
    (edges : List ScenarioEdge) {a b : String} → Walk (outgoing_of edges) a b → Leads edges a b
Walk-Leads edges {a} (one {b} e) = by_edge (subst (λ t. contains b t ≡ true) (targets_of edges a) e)
Walk-Leads edges {a} (more {b} e w) =
    by_edges (subst (λ t. contains b t ≡ true) (targets_of edges a) e) (Walk-Leads edges w)

Leads-Walk :
    (edges : List ScenarioEdge) {a b : String} → Leads edges a b → Walk (outgoing_of edges) a b
Leads-Walk edges {a} (by_edge {b} e) =
    one (subst (λ t. contains b t ≡ true) (sym (targets_of edges a)) e)
Leads-Walk edges {a} (by_edges {b} e w) =
    more (subst (λ t. contains b t ≡ true) (sym (targets_of edges a)) e) (Leads-Walk edges w)

-- What the search says: it found a cycle, or no node of the graph lies on one.
abbrev pub Decides : List ScenarioNode → List ScenarioEdge → Visit → Type 0
Decides nodes edges none = ⊥
Decides nodes edges (some (true, m)) = (a : String) × Leads edges a a
Decides nodes edges (some (false, m)) =
    (a : String) → contains a (node_ids nodes) ≡ true → Leads edges a a → ⊥

Outcome-Decides :
    (nodes : List ScenarioNode) (edges : List ScenarioEdge) (universe : List String) (r : Visit)
    → Outcome (outgoing_of edges) universe [] [] (node_ids nodes) r
    → Decides nodes edges r
Outcome-Decides nodes edges universe none o = o
Outcome-Decides nodes edges universe (some (true, m)) (a, w) = (a, Walk-Leads edges w)
Outcome-Decides nodes edges universe (some (false, m)) (_, f, _, _, s) = λ a h w.
    Finished-no_Walk (outgoing_of edges) m.visited a f
      (contains_of_Subset a (node_ids nodes) m.visited s h) (Leads-Walk edges w)

-- The search for a cycle ends whatever the edges are, with unknown nodes and self-references too: it
-- finds a cycle and there is one, or it finds none and none of the graph's nodes lies on a cycle.
pub find_cycle-Decides :
    (nodes : List ScenarioNode) (edges : List ScenarioEdge)
    → Decides nodes edges (find_cycle nodes edges)
unfolding find_cycle
find_cycle-Decides nodes edges =
    let universe = node_ids nodes ++ endpoints edges in
    Outcome-Decides nodes edges universe _ (
      visit_all-Outcome (outgoing_of edges) universe
        (has_cycle (outgoing_of edges) (suc (length universe))) []
        (has_cycle-Sound (outgoing_of edges) universe
          (λ n.
            subst (λ t. Subset t universe) (sym (targets_of edges n))
              (Subset_right (successors edges n) (node_ids nodes) (endpoints edges)
                (endpoints-successors edges n)))
          (suc (length universe)) [] (omega arith))
        (node_ids nodes) []
        (Subset-append (node_ids nodes) (node_ids nodes) (endpoints edges)
          (Subset_refl (node_ids nodes)))
        (All-imp (λ n e. tt) (node_ids nodes) (Subset_refl (node_ids nodes)))
        (record { distinct = refl; known = tt; finished = tt; apart = tt }))
