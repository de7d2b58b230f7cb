-- ===== src/Scoring/Scenario/Outcome.antt =====
-- When a scenario graph passes.
use agent_benchmark.Common.{
  [], String, ◌≡◌, refl, ◌↔◌, Bool, true, false, not, ◌||◌, Option, none, some, contains, arith,
  Map, get, ◌⊎◌, ◌≢◌, inl, inr, List, All, map, ◌++◌, filter, ◌∷◌, iff_trans, All-map, All-iff, ◌∙◌,
  sym,
}
use agent_benchmark.Scoring.{Status, passed, is_passed, is_error}
use agent_benchmark.Scoring.Number.{Number}
use agent_benchmark.Scoring.Scenario.{
  NodeKind, required, distractor, Relation, revises, ScenarioNode, ScenarioEdge, ScheduledFault,
  ScenarioNodeOutcome, ComponentOutcome, succeeded, skipped, errored, is_revision, ScenarioGraph,
}
use agent_benchmark.Scoring.Scenario.Evaluate.{
  node_result, edge_result, fault_result, has_status, edge_passes, revised, evaluation,
  component_status, outcomes_by_node, results_by_node, node_results,
}
use agent_benchmark.Scoring.Capability.Verdict.{status_of-passed_iff, all_required_passed, all-map}

required_iff :
    {P : Type 0} (b : Bool) (status : Status)
    → ((status ≡ passed) ↔ P)
    → (b ≡ true → status ≡ passed) ↔ (b ≡ true → P)
required_iff b status e = (λ h t. e.0 (h t), λ h t. e.1 (h t))

pub kind_cases : (k : NodeKind) → (k ≡ required) ⊎ (k ≡ distractor)
kind_cases required = inl refl
kind_cases distractor = inr refl

module _ {N : Type 0} ⦃n : Number N⦄ where
  -- A required node has a passed outcome, and a distractor was left alone.
  abbrev pub NodeHolds : Option (ScenarioNodeOutcome N) → ScenarioNode N → Type 0
  NodeHolds outcome node =
      (node.kind ≡ required
        → (o : ScenarioNodeOutcome N) × (outcome ≡ some o) × (o.status ≡ succeeded))
      × (node.kind ≡ distractor
          → (outcome ≡ none)
            ⊎ ((o : ScenarioNodeOutcome N) × (outcome ≡ some o) × (o.status ≡ skipped)))

  -- Both ends of an edge passed, and a revision is recorded at its target.
  abbrev pub EdgeHolds :
      Map (ScenarioNodeOutcome N) → Map (ComponentOutcome N) → ScenarioEdge N → Type 0
  EdgeHolds outcomes results edge =
      ((source : ComponentOutcome N) × (get edge.from_node_id results ≡ some source)
        × (source.status ≡ passed))
      × ((target : ComponentOutcome N) × (get edge.to_node_id results ≡ some target)
          × (target.status ≡ passed))
      × (edge.relation ≡ revises
          → (o : ScenarioNodeOutcome N) × (get edge.to_node_id outcomes ≡ some o)
            × (contains edge.from_node_id o.revised_node_ids ≡ true))

  -- The node of a fault did not end in an error, and lists the fault as recovered.
  abbrev pub FaultHolds : Option (ScenarioNodeOutcome N) → ScheduledFault N → Type 0
  FaultHolds outcome fault =
      (o : ScenarioNodeOutcome N) × (outcome ≡ some o)
      × (o.status ≢ errored)
      × (contains fault.id o.recovered_fault_ids ≡ true)

  pub node_required :
      (o : Option (ScenarioNodeOutcome N)) (node : ScenarioNode N)
      → (node_result o node).required ≡ true
  unfolding node_result
  node_required o node = ground arith

  pub node_result_iff :
      (o : Option (ScenarioNodeOutcome N)) (node : ScenarioNode N)
      → ((node_result o node).required ≡ true → (node_result o node).status ≡ passed)
        ↔ NodeHolds o node
  unfolding node_result
  node_result_iff none node = (
    λ h. let p = h (node_required none node) in (λ k. absurd (ground (arith, p)), λ _. inl refl),
    λ (needed, left) _. elim (kind_cases node.kind) [
      | inl k ↦ ground (arith, needed k)
      | inr k ↦ ground arith
    ],
  )
  node_result_iff (some o) node = (
    λ h.
        let p = h (node_required (some o) node) in
        (λ k. (o, refl, ground (arith, p)), λ k. inr (o, refl, ground (arith, p))),
    λ (needed, left) _. elim (kind_cases node.kind) [
      | inl k ↦ ground (arith, needed k)
      | inr k ↦ ground (arith, left k)
    ],
  )

  abbrev End : Option (ComponentOutcome N) → Type 0
  End r = (c : ComponentOutcome N) × (r ≡ some c) × (c.status ≡ passed)

  abbrev Revision : Relation → Option (ScenarioNodeOutcome N) → String → Type 0
  Revision relation o id =
      relation ≡ revises
      → (x : ScenarioNodeOutcome N) × (o ≡ some x) × (contains id x.revised_node_ids ≡ true)

  End-iff : (r : Option (ComponentOutcome N)) → (has_status is_passed r ≡ true) ↔ End r
  End-iff none = (λ h. cc, λ h. ground arith)
  End-iff (some c) = (λ h. (c, refl, ground arith), λ h. ground arith)

  Revision-iff :
      (relation : Relation) (o : Option (ScenarioNodeOutcome N)) (id : String)
      → ((not (is_revision relation) || revised o id) ≡ true) ↔ Revision relation o id
  Revision-iff revises none id = (λ h. cc, λ h. ground (arith, h refl))
  Revision-iff revises (some x) id = (λ h _. (x, refl, h), λ h. ground (arith, h refl))
  Revision-iff _ o id = (λ h e. absurd (cc), λ h. refl)

  no_end_error :
      (r : Option (ComponentOutcome N))
      → has_status is_passed r ≡ true
      → has_status is_error r ≡ false
  no_end_error none h = refl
  no_end_error (some c) h = ground arith

  edge_status_iff :
      (outcomes : Map (ScenarioNodeOutcome N)) (results : Map (ComponentOutcome N))
      (edge : ScenarioEdge N)
      → ((edge_result outcomes results edge).status ≡ passed)
        ↔ (edge_passes outcomes results edge ≡ true)
  unfolding edge_result
  edge_status_iff outcomes results edge = ground (
    arith,
    no_end_error (get edge.from_node_id results),
    no_end_error (get edge.to_node_id results),
  )

  edge_result_iff :
      (outcomes : Map (ScenarioNodeOutcome N)) (results : Map (ComponentOutcome N))
      (edge : ScenarioEdge N)
      → ((edge_result outcomes results edge).status ≡ passed) ↔ EdgeHolds outcomes results edge
  edge_result_iff outcomes results edge =
      let source = End-iff (get edge.from_node_id results) in
      let target = End-iff (get edge.to_node_id results) in
      let revision = Revision-iff edge.relation (get edge.to_node_id outcomes) edge.from_node_id in
      let status = edge_status_iff outcomes results edge in
      (
        λ h.
            let passes = status.0 h in
            (
              source.0 (ground (arith, passes)),
              target.0 (ground (arith, passes)),
              revision.0 (ground (arith, passes)),
            ),
        λ (a, b, c). status.1 (ground (arith, source.1 a, target.1 b, revision.1 c)),
      )

  fault_result_iff :
      (o : Option (ScenarioNodeOutcome N)) (fault : ScheduledFault N)
      → ((fault_result o fault).status ≡ passed) ↔ FaultHolds o fault
  unfolding fault_result
  fault_result_iff none fault = (λ h. cc, λ h. ground arith)
  fault_result_iff (some o) fault =
      (λ h. (o, refl, (λ e. ground arith), ground arith), λ h. ground arith)

  -- The required components of a list of components.
  abbrev RequiredPass : List (ComponentOutcome N) → Type 0
  RequiredPass cs = All (λ c. c.required ≡ true → c.status ≡ passed) cs

  component_status_iff :
      (xs : List (ComponentOutcome N))
      → (component_status (filter (λ c. c.required) xs) ≡ passed) ↔ RequiredPass xs
  component_status_iff xs =
      let verdict = status_of-passed_iff (λ c. c.status) (filter (λ c. c.required) xs) true in
      let rows = all_required_passed (λ c. c.required) (λ c. c.status) xs in
      let same = all-map is_passed (λ c. c.status) (filter (λ c. c.required) xs) in
      (λ h. rows.0 (same ∙ (verdict.0 h).1), λ h. verdict.1 (refl, (sym same) ∙ rows.1 h))

  RequiredPass-append :
      (xs ys : List (ComponentOutcome N))
      → RequiredPass (xs ++ ys) ↔ (RequiredPass xs × RequiredPass ys)
  RequiredPass-append [] ys = (λ h. (tt, h), λ h. h.1)
  RequiredPass-append (x ∷ xs) ys =
      let rest = RequiredPass-append xs ys in
      (λ (p, h). ((p, (rest.0 h).0), (rest.0 h).1), λ ((p, h), k). (p, rest.1 (h, k)))

  module _ (by_node : Map (ScenarioNodeOutcome N)) where
    nodes_iff :
        (nodes : List (ScenarioNode N))
        → RequiredPass (map (λ node. node_result (get node.id by_node) node) nodes)
          ↔ All (λ node. NodeHolds (get node.id by_node) node) nodes
    nodes_iff nodes =
        iff_trans
          (All-map (λ c. c.required ≡ true → c.status ≡ passed)
            (λ node. node_result (get node.id by_node) node) nodes)
          (All-iff nodes (λ node. node_result_iff (get node.id by_node) node))

    edges_iff :
        (results : Map (ComponentOutcome N)) (edges : List (ScenarioEdge N))
        → RequiredPass (map (edge_result by_node results) edges)
          ↔ All (λ edge. edge.required ≡ true → EdgeHolds by_node results edge) edges
    unfolding edge_result
    edges_iff results edges =
        iff_trans
          (All-map (λ c. c.required ≡ true → c.status ≡ passed) (edge_result by_node results) edges)
          (All-iff edges (λ edge.
            required_iff edge.required (edge_result by_node results edge).status
              (edge_result_iff by_node results edge)))

    faults_iff :
        (faults : List (ScheduledFault N))
        → RequiredPass (map (λ fault. fault_result (get fault.node_id by_node) fault) faults)
          ↔ All
              (λ fault.
                fault.required_recovery ≡ true → FaultHolds (get fault.node_id by_node) fault)
              faults
    unfolding fault_result
    faults_iff faults =
        iff_trans
          (All-map (λ c. c.required ≡ true → c.status ≡ passed)
            (λ fault. fault_result (get fault.node_id by_node) fault) faults)
          (All-iff faults (λ fault.
            required_iff fault.required_recovery
              (fault_result (get fault.node_id by_node) fault).status
              (fault_result_iff (get fault.node_id by_node) fault)))

  -- A graph passes exactly when every required node has a passed outcome and every distractor was
  -- left alone, every required edge joins passed nodes and has its revision recorded, and every fault
  -- whose recovery is required was recovered by a node that did not end in an error.
  pub evaluation_passed_iff :
      (graph : ScenarioGraph N) (outcomes : List (ScenarioNodeOutcome N))
      → let by_node = outcomes_by_node outcomes in
        let results = results_by_node (node_results graph outcomes) in
        ((evaluation graph outcomes).status ≡ passed) ↔ (
          All (λ node. NodeHolds (get node.id by_node) node) graph.nodes
          × All (λ edge. edge.required ≡ true → EdgeHolds by_node results edge) graph.edges
          × All
              (λ fault.
                fault.required_recovery ≡ true → FaultHolds (get fault.node_id by_node) fault)
              graph.fault_schedule)
  unfolding evaluation
  evaluation_passed_iff graph outcomes =
      let by_node = outcomes_by_node outcomes in
      let results = results_by_node (node_results graph outcomes) in
      let nodes = nodes_iff by_node graph.nodes in
      let edges = edges_iff by_node results graph.edges in
      let faults = faults_iff by_node graph.fault_schedule in
      let status = component_status_iff (
        node_results graph outcomes
        ++ (map (edge_result by_node results) graph.edges
            ++ map (λ fault. fault_result (get fault.node_id by_node) fault)
                graph.fault_schedule)) in
      let outer = RequiredPass-append (node_results graph outcomes) (
        map (edge_result by_node results) graph.edges
        ++ map (λ fault. fault_result (get fault.node_id by_node) fault) graph.fault_schedule) in
      let inner =
        RequiredPass-append (map (edge_result by_node results) graph.edges)
          (map (λ fault. fault_result (get fault.node_id by_node) fault) graph.fault_schedule) in
      (
        λ h.
            let split = outer.0 (status.0 h) in
            let later = inner.0 split.1 in (nodes.0 split.0, edges.0 later.0, faults.0 later.1),
        λ (a, b, c). status.1 (outer.1 (nodes.1 a, inner.1 (edges.1 b, faults.1 c))),
      )
