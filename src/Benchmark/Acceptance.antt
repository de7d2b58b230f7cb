-- ===== src/Benchmark/Acceptance.antt =====
-- Which scenario graphs pass the checks of packages/test-cases/src/capability-benchmark.ts.
use agent_benchmark.Common.{
  ℕ, suc, String, ◌≡◌, Bool, true, false, not, ◌==◌, ◌&&◌, Option, none, some, List, [], ◌∷◌, ◌++◌,
  ◌↔◌, ◌≢◌, map, contains, is_unique, is_some, All, arith, eq_iff, refl, Distinct, sym, subst,
  is_unique_iff, any_same_iff, append-eq_nil, nat_eq_iff, iff_trans, Bool-cases, inl, inr,
}
use agent_benchmark.Benchmark.{
  NodeKind, required, distractor, Relation, revises, requires, informs, ScenarioNode, ScenarioEdge,
  ScheduledFault, PrivateScenarioGraph,
}
use agent_benchmark.Benchmark.Cycles.{find_cycle, Visit, node_ids}
use agent_benchmark.Benchmark.Acyclic.{
  Leads, by_edge, by_edges, Decides, find_cycle-Decides, successors,
}
use agent_benchmark.Benchmark.Graph.{
  Issue, issue_if, is_distractor, is_revision, avoidance_missing, avoidance_forbidden,
  proof_missing, proof_forbidden, not_unique, triggers_not_unique, cyclic, graph_issues,
  all_node_issues, all_edge_issues, node_issues, edge_issues, reference_issues, fault_issues,
  unique_keys, trigger_key, TriggerKey, same_key, same_bool, task_slug_by_node_id, edge_ids,
  fault_ids, found_cycle, uniqueness_issues,
}

-- Exactly the distractors name an evaluator that shows they were avoided.
abbrev pub NodeRule : ScenarioNode → Type 0
NodeRule node = (node.kind ≡ distractor) ↔ (is_some node.avoidance_evaluator_name ≡ true)

-- Exactly the revisions name an evaluator that proves them.
abbrev pub EdgeRule : ScenarioEdge → Type 0
EdgeRule edge = (edge.relation ≡ revises) ↔ (is_some edge.proof_evaluator_name ≡ true)

abbrev pub Joins : List String → ScenarioEdge → Type 0
Joins known edge =
    (contains edge.from_node_id known ≡ true)
    × (contains edge.to_node_id known ≡ true)
    × (edge.from_node_id ≢ edge.to_node_id)

abbrev pub keys_of : PrivateScenarioGraph → List TriggerKey
keys_of g = map (trigger_key (task_slug_by_node_id g.nodes)) g.fault_schedule

-- What the schema promises of a parsed graph.
pub record WellFormed (g : PrivateScenarioGraph) : Type 0 where
  pub node_rules : All NodeRule g.nodes
  pub edge_rules : All EdgeRule g.edges
  pub nodes_distinct : Distinct (node_ids g.nodes)
  pub edges_distinct : Distinct (edge_ids g.edges)
  pub faults_distinct : Distinct (fault_ids g.fault_schedule)
  pub joined : All (Joins (node_ids g.nodes)) g.edges
  pub placed : All (λ f. contains f.node_id (node_ids g.nodes) ≡ true) g.fault_schedule
  pub triggers_distinct : Distinct (keys_of g)
  pub acyclic : (a : String) → Leads g.edges a a → ⊥

issue_if_iff : (b : Bool) (i : Issue) → (issue_if b i ≡ []) ↔ (b ≡ false)
issue_if_iff true i = (λ h. cc, λ h. cc)
issue_if_iff false i = (λ h. refl, λ h. refl)

issue_if-not_iff : (b : Bool) (i : Issue) → (issue_if (not b) i ≡ []) ↔ (b ≡ true)
issue_if-not_iff true i = (λ h. refl, λ h. refl)
issue_if-not_iff false i = (λ h. cc, λ h. cc)

node_rule_iff :
    (kind : NodeKind) (name : Option String)
    → (issue_if (is_distractor kind && not (is_some name)) avoidance_missing
          ++ issue_if (not (is_distractor kind) && is_some name) avoidance_forbidden
        ≡ [])
      ↔ ((kind ≡ distractor) ↔ (is_some name ≡ true))
node_rule_iff required none = (λ _. (λ e. cc, λ e. cc), λ _. refl)
node_rule_iff required (some s) = (λ h. cc, λ (p, q). cc (q refl))
node_rule_iff distractor none = (λ h. cc, λ (p, q). cc (p refl))
node_rule_iff distractor (some s) = (λ _. (λ _. refl, λ _. refl), λ _. refl)

edge_rule_iff :
    (relation : Relation) (name : Option String)
    → (issue_if (is_revision relation && not (is_some name)) proof_missing
          ++ issue_if (not (is_revision relation) && is_some name) proof_forbidden
        ≡ [])
      ↔ ((relation ≡ revises) ↔ (is_some name ≡ true))
edge_rule_iff requires none = (λ _. (λ e. cc, λ e. cc), λ _. refl)
edge_rule_iff informs none = (λ _. (λ e. cc, λ e. cc), λ _. refl)
edge_rule_iff requires (some s) = (λ h. cc, λ (p, q). cc (q refl))
edge_rule_iff informs (some s) = (λ h. cc, λ (p, q). cc (q refl))
edge_rule_iff revises none = (λ h. cc, λ (p, q). cc (p refl))
edge_rule_iff revises (some s) = (λ _. (λ _. refl, λ _. refl), λ _. refl)

node_issues_iff : (node : ScenarioNode) → (node_issues node ≡ []) ↔ NodeRule node
node_issues_iff node = node_rule_iff node.kind node.avoidance_evaluator_name

edge_issues_iff : (edge : ScenarioEdge) → (edge_issues edge ≡ []) ↔ EdgeRule edge
edge_issues_iff edge = edge_rule_iff edge.relation edge.proof_evaluator_name

all_node_issues_iff :
    (nodes : List ScenarioNode) → (all_node_issues nodes ≡ []) ↔ All NodeRule nodes
unfolding all_node_issues
all_node_issues_iff [] = (λ _. tt, λ _. refl)
all_node_issues_iff (n ∷ ns) = iff_trans (append-eq_nil (node_issues n) (all_node_issues ns)) (
  λ (p, ps). ((node_issues_iff n).0 p, (all_node_issues_iff ns).0 ps),
  λ (p, ps). ((node_issues_iff n).1 p, (all_node_issues_iff ns).1 ps),
)

all_edge_issues_iff :
    (edges : List ScenarioEdge) → (all_edge_issues edges ≡ []) ↔ All EdgeRule edges
unfolding all_edge_issues
all_edge_issues_iff [] = (λ _. tt, λ _. refl)
all_edge_issues_iff (e ∷ es) = iff_trans (append-eq_nil (edge_issues e) (all_edge_issues es)) (
  λ (p, ps). ((edge_issues_iff e).0 p, (all_edge_issues_iff es).0 ps),
  λ (p, ps). ((edge_issues_iff e).1 p, (all_edge_issues_iff es).1 ps),
)

fault_issues_iff :
    (known : List String) (index : ℕ) (faults : List ScheduledFault)
    → (fault_issues known index faults ≡ []) ↔ All (λ f. contains f.node_id known ≡ true) faults
unfolding fault_issues
fault_issues_iff known index [] = (λ _. tt, λ _. refl)
fault_issues_iff known index (f ∷ fs) =
    let i = fault_issues_iff known (suc index) fs in
    (λ h. ground (arith, i.0, h), λ (p, ps). ground (arith, i.1 ps, p))

same_bool_iff : (a b : Bool) → (same_bool a b ≡ true) ↔ (a ≡ b)
same_bool_iff true b = (λ h. sym h, λ e. sym e)
same_bool_iff false true = (λ h. cc, λ e. cc)
same_bool_iff false false = (λ _. refl, λ _. refl)

same_key_refl : (a : TriggerKey) → same_key a a ≡ true
same_key_refl a = ground (
  arith,
  eq_iff a.task a.task,
  same_bool_iff a.is_mutation a.is_mutation,
  nat_eq_iff a.occurrence a.occurrence,
)

same_key_iff : (a b : TriggerKey) → (same_key a b ≡ true) ↔ (a ≡ b)
same_key_iff a b = (
  λ h. ground (
    arith,
    h,
    eq_iff a.task b.task,
    same_bool_iff a.is_mutation b.is_mutation,
    nat_eq_iff a.occurrence b.occurrence,
  ),
  λ e. rw e (same_key_refl b),
)

unique_keys_iff : (ks : List TriggerKey) → (unique_keys ks ≡ true) ↔ Distinct ks
unfolding unique_keys
unique_keys_iff [] = (λ _. tt, λ _. refl)
unique_keys_iff (k ∷ ks) =
    let same = any_same_iff same_key same_key_iff k ks in
    (
      λ h. (same.0 (ground (arith, h)), (unique_keys_iff ks).0 (ground (arith, h))),
      λ (p, ps). ground (arith, same.1 p, (unique_keys_iff ks).1 ps),
    )

reference_issues_iff :
    (known : List String) (index : ℕ) (edges : List ScenarioEdge)
    → (reference_issues known index edges ≡ []) ↔ All (Joins known) edges
unfolding reference_issues
reference_issues_iff known index [] = (λ _. tt, λ _. refl)
reference_issues_iff known index (e ∷ es) =
    let i = reference_issues_iff known (suc index) es in
    (
      λ h. ground (arith, i.0, h, eq_iff e.from_node_id e.to_node_id),
      λ ((p, q, r), ps). ground (arith, i.1 ps, p, q, r, eq_iff e.from_node_id e.to_node_id),
    )

source-known :
    (known : List String) (edges : List ScenarioEdge) (a b : String)
    → All (Joins known) edges
    → contains b (successors edges a) ≡ true
    → contains a known ≡ true
source-known known [] a b _ h = cc
source-known known (e ∷ es) a b ((p, q, r), ps) h = elim (Bool-cases (e.from_node_id == a)) [
  | inl same ↦ subst (λ k. contains k known ≡ true) ((eq_iff e.from_node_id a).0 same) p
  | inr other ↦ source-known known es a b ps (ground (arith, h, other))
]

Leads-known :
    (known : List String) (edges : List ScenarioEdge) {a b : String}
    → All (Joins known) edges
    → Leads edges a b
    → contains a known ≡ true
Leads-known known edges {a} j (by_edge {b} e) = source-known known edges a b j e
Leads-known known edges {a} j (by_edges {b} e w) = source-known known edges a b j e

found_iff :
    (nodes : List ScenarioNode) (edges : List ScenarioEdge) (r : Visit)
    → Decides nodes edges r
    → All (Joins (node_ids nodes)) edges
    → (found_cycle r ≡ false) ↔ ((a : String) → Leads edges a a → ⊥)
found_iff nodes edges none d j = absurd d
found_iff nodes edges (some (true, m)) (a, w) j = (λ h. cc, λ none_there. absurd (none_there a w))
found_iff nodes edges (some (false, m)) d j =
    (λ _ a w. d a (Leads-known (node_ids nodes) edges j w) w, λ _. refl)

both_iff {ℓ κ} :
    {P : Type ℓ} {Q : Type κ} (xs ys : List Issue)
    → (xs ≡ []) ↔ P
    → (ys ≡ []) ↔ Q
    → (xs ++ ys ≡ []) ↔ (P × Q)
both_iff xs ys f g =
    iff_trans (append-eq_nil xs ys) (λ (p, q). (f.0 p, g.0 q), λ (p, q). (f.1 p, g.1 q))

uniqueness_iff :
    (g : PrivateScenarioGraph)
    → (uniqueness_issues g ≡ []) ↔ (
        Distinct (node_ids g.nodes)
        × (Distinct (edge_ids g.edges) × Distinct (fault_ids g.fault_schedule)))
uniqueness_iff g =
    let distinct = λ (path : String) (ids : List String).
      iff_trans (issue_if-not_iff (is_unique ids) (not_unique path)) (is_unique_iff ids) in
    both_iff _ _ (distinct "nodes" (node_ids g.nodes)) (
      both_iff _ _ (distinct "edges" (edge_ids g.edges))
        (distinct "faultSchedule" (fault_ids g.fault_schedule)))

WellFormed-of :
    (g : PrivateScenarioGraph)
    → (All NodeRule g.nodes
        × (All EdgeRule g.edges
            × ((Distinct (node_ids g.nodes)
                  × (Distinct (edge_ids g.edges) × Distinct (fault_ids g.fault_schedule)))
                × (All (Joins (node_ids g.nodes)) g.edges
                    × (All (λ f. contains f.node_id (node_ids g.nodes) ≡ true) g.fault_schedule
                        × (Distinct (keys_of g)
                            × (found_cycle (find_cycle g.nodes g.edges) ≡ false)))))))
    → (All (Joins (node_ids g.nodes)) g.edges
        → found_cycle (find_cycle g.nodes g.edges) ≡ false
        → (a : String) → Leads g.edges a a
        → ⊥)
    → WellFormed g
WellFormed-of g (a, (b, ((c, (d, e)), (f, (h, (i, j)))))) found = record {
  node_rules = a;
  edge_rules = b;
  nodes_distinct = c;
  edges_distinct = d;
  faults_distinct = e;
  joined = f;
  placed = h;
  triggers_distinct = i;
  acyclic = found f j;
}

-- A parsed scenario graph raises no issue exactly when its identifiers are distinct, its edges join
-- different known nodes and its faults stand at known ones, no two faults of one task have the same
-- trigger, exactly the distractors and the revisions name an evaluator, and no node depends on itself
-- over any number of edges.
pub graph_issues_iff : (g : PrivateScenarioGraph) → (graph_issues g ≡ []) ↔ WellFormed g
unfolding graph_issues
graph_issues_iff g =
    let known = node_ids g.nodes in
    let cycle = found_cycle (find_cycle g.nodes g.edges) in
    let nodes = all_node_issues_iff g.nodes in
    let edges = all_edge_issues_iff g.edges in
    let unique = uniqueness_iff g in
    let joins = reference_issues_iff known 0 g.edges in
    let faults = fault_issues_iff known 0 g.fault_schedule in
    let keys =
      iff_trans (issue_if-not_iff (unique_keys (keys_of g)) triggers_not_unique)
        (unique_keys_iff (keys_of g)) in
    let all = both_iff _ _ nodes (
      both_iff _ _ edges (
        both_iff _ _ unique (
          both_iff _ _ joins
            (both_iff _ _ faults (both_iff _ _ keys (issue_if_iff cycle cyclic)))))) in
    let found =
      found_iff g.nodes g.edges (find_cycle g.nodes g.edges) (find_cycle-Decides g.nodes g.edges) in
    (
      λ h. WellFormed-of g (all.0 h) (λ j. (found j).0),
      λ w. all.1 (
        w.node_rules,
        (
          w.edge_rules,
          (
            (w.nodes_distinct, (w.edges_distinct, w.faults_distinct)),
            (w.joined, (w.placed, (w.triggers_distinct, (found w.joined).1 w.acyclic))),
          ),
        ),
      ),
    )
