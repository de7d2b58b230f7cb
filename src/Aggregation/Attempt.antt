-- ===== src/Aggregation/Attempt.antt =====
-- The evaluation of an attempt's scenario from its sessions: when it does not throw, and when it
-- passes.
use agent_benchmark.Common.{
  String, ◌≡◌, ◌↔◌, refl, ap, true, false, ◌==◌, Option, some, List, [], ◌∷◌, map, find, any,
  contains, is_unique, arith, Map, get, All, All-iff, All-map, iff_trans, eq_iff, eq_refl, not, all,
  All-imp, ◌∙◌,
}
use agent_benchmark.Json.{Json}
use agent_benchmark.Scoring.{passed}
use agent_benchmark.Scoring.Number.{Number, IsRounded, IsUnit}
use agent_benchmark.Scoring.Strict.{HostedWebEvaluatorResult}
use agent_benchmark.Scoring.Scenario
use agent_benchmark.Scoring.Scenario.{
  required, distractor, revises, ScheduledFault, ScenarioNodeOutcome, ScenarioNode,
  ComponentOutcome, PrivateScenarioGraphEvaluation, ScenarioEdge, Evaluated, errored,
}
use agent_benchmark.Scoring.Scenario.Evaluate.{
  outcomes_by_node, results_by_node, node_results, evaluation, evaluate_scenario_graph,
}
use agent_benchmark.Scoring.Scenario.Parse.{
  is_filled, valid_graph, valid_outcome, valid_evaluation, valid_graph-nodes, valid_graph-weights,
  All-all,
}
use agent_benchmark.Scoring.Scenario.Score.{evaluation-IsUnit, valid_evaluation-IsWeighted}
use agent_benchmark.Aggregation.Accepted.{All-collect, PassedUnit, node_outcome-IsUnit}
use agent_benchmark.Scoring.Scenario.Outcome.{
  NodeHolds, EdgeHolds, FaultHolds, evaluation_passed_iff,
}
use agent_benchmark.Aggregation.{CapabilityAttemptSession, GraphNode, AttemptGraph}
use agent_benchmark.Aggregation.Outcomes.{
  scoring_graph, session_by_task_slug, node_outcome, build_scenario_outcomes,
}
use agent_benchmark.Aggregation.Lookup.{collect-is_unique, contains-collect}
use agent_benchmark.Aggregation.Passing.{NodePasses}
use agent_benchmark.Aggregation.Verdict.{EdgePasses, FaultPasses}
use agent_benchmark.Aggregation.Reading.{node_iff, edge_iff, fault_iff, outcome-keyed}

-- Two properties that agree where a third one holds.
All-iff_given {ℓ κ μ ν} :
    {A : Type ℓ} {P : A → Type κ} {Q : A → Type μ} {R : A → Type ν} (xs : List A)
    → All P xs
    → ((x : A) → P x → Q x ↔ R x)
    → All Q xs ↔ All R xs
All-iff_given [] _ h = (λ _. tt, λ _. tt)
All-iff_given (x ∷ xs) (p, ps) h =
    let rest = All-iff_given xs ps h in
    (λ (q, qs). ((h x p).0 q, rest.0 qs), λ (r, rs). ((h x p).1 r, rest.1 rs))

module _ {N : Type 0} where
  find_past :
      (v : GraphNode N) (vs ws : List (GraphNode N))
      → contains v.id (map (λ w. w.id) ws) ≡ false
      → All (λ w. find (λ u. u.id == w.id) vs ≡ some w) ws
      → All (λ w. find (λ u. u.id == w.id) (v ∷ vs) ≡ some w) ws
  find_past v vs [] h _ = tt
  find_past v vs (w ∷ ws) h (p, ps) = (
    ground (arith, h, p, eq_iff v.id w.id, eq_iff w.id v.id),
    find_past v vs ws (ground (arith, h)) ps,
  )

  -- Each of the nodes is the one that its identifier finds.
  nodes_found :
      (vs : List (GraphNode N))
      → is_unique (map (λ v. v.id) vs) ≡ true
      → All (λ v. find (λ w. w.id == v.id) vs ≡ some v) vs
  nodes_found [] h = tt
  nodes_found (v ∷ vs) h = (
    rw (eq_refl v.id) refl,
    find_past v vs vs (ground (arith, h)) (nodes_found vs (ground (arith, h))),
  )

  node_ids : (vs : List (GraphNode N)) → map (λ v. v.id) (map (λ v. v.node) vs) ≡ map (λ v. v.id) vs
  node_ids [] = refl
  node_ids (v ∷ vs) = ap (λ ids. v.id ∷ ids) (node_ids vs)

  all_known :
      (ids : List String) (os : List (ScenarioNodeOutcome N))
      → ((k : String) → contains k (map (λ o. o.node_id) os) ≡ true → contains k ids ≡ true)
      → any (λ o. not (contains o.node_id ids)) os ≡ false
  all_known ids [] h = refl
  all_known ids (o ∷ os) h =
      let known = h o.node_id (ground (arith, eq_refl o.node_id)) in
      ground (arith, known, all_known ids os (λ k c. h k (ground (arith, c))))

module _ {N : Type 0} ⦃n : Number N⦄ (parse : Json → Option (HostedWebEvaluatorResult N))
    (g : AttemptGraph N) (sessions : List (CapabilityAttemptSession N))
    (distinct : is_unique (map (λ v. v.id) g.nodes) ≡ true) where
  abbrev outcomes : List (ScenarioNodeOutcome N)
  outcomes = build_scenario_outcomes parse g sessions

  abbrev results : Map (ComponentOutcome N)
  results = results_by_node (node_results (scoring_graph g) outcomes)

  parts_iff :
      (All
          (λ node. NodeHolds (get node.id (outcomes_by_node outcomes)) node)
          (scoring_graph g).nodes
        × All
            (λ d. d.required ≡ true → EdgeHolds (outcomes_by_node outcomes) results d)
            (scoring_graph g).edges
        × All
            (λ f.
              f.required_recovery ≡ true → FaultHolds (get f.node_id (outcomes_by_node outcomes)) f)
            g.fault_schedule)
      ↔ (All (NodePasses parse g sessions) g.nodes
          × All (λ d. d.required ≡ true → EdgePasses parse g sessions d) g.edges
          × All (λ f. f.required_recovery ≡ true → FaultPasses parse g sessions f) g.fault_schedule)
  parts_iff =
      let nodes =
        iff_trans
          (All-map (λ node. NodeHolds (get node.id (outcomes_by_node outcomes)) node) (λ v. v.node)
            g.nodes)
          (All-iff_given g.nodes (nodes_found g.nodes distinct)
            (λ v at. node_iff parse g sessions distinct v.id v at)) in
      let edges =
        iff_trans
          (All-map (λ d. d.required ≡ true → EdgeHolds (outcomes_by_node outcomes) results d)
            (λ e. e.edge) g.edges)
          (All-iff g.edges (λ d. (
            λ h r. (edge_iff parse g sessions distinct d).0 (h r),
            λ h r. (edge_iff parse g sessions distinct d).1 (h r),
          ))) in
      let faults = All-iff g.fault_schedule (λ f. (
        λ h r. (fault_iff parse g sessions distinct f).0 (h r),
        λ h r. (fault_iff parse g sessions distinct f).1 (h r),
      )) in
      (
        λ (a, b, c). (nodes.0 a, edges.0 b, faults.0 c),
        λ (a, b, c). (nodes.1 a, edges.1 b, faults.1 c),
      )

  module _ (laws : IsRounded N) (valid : valid_graph (scoring_graph g) ≡ true)
      (units : All PassedUnit sessions) where
    outcomes-IsUnit : All (λ o. IsUnit o.score × (is_filled o.node_id ≡ true)) outcomes
    unfolding build_scenario_outcomes
    outcomes-IsUnit =
        let f = node_outcome parse g.edges (session_by_task_slug sessions) in
        let filled : All (λ v. is_filled v.id ≡ true) g.nodes =
          (All-map (λ node. is_filled node.id ≡ true) (λ v. v.node) g.nodes).0 (
            All-imp (λ node h. ground (arith, h)) (map (λ v. v.node) g.nodes)
              (valid_graph-nodes (scoring_graph g) valid)) in
        All-collect (λ v. is_filled v.id ≡ true)
          (λ o. IsUnit o.score × (is_filled o.node_id ≡ true)) f g.nodes filled
          (λ v o h e. (
            node_outcome-IsUnit laws parse g sessions v o units e,
            ap is_filled (outcome-keyed parse g sessions distinct v o e) ∙ h,
          ))

    outcomes_accepted : all valid_outcome outcomes ≡ true
    outcomes_accepted =
        All-all valid_outcome outcomes (All-imp (λ o h. ground (arith, h)) outcomes outcomes-IsUnit)

    evaluation-accepted : valid_evaluation (evaluation (scoring_graph g) outcomes) ≡ true
    evaluation-accepted = valid_evaluation-IsWeighted laws _ (
        evaluation-IsUnit laws (scoring_graph g) outcomes
          (All-imp (λ o h. h.0) outcomes outcomes-IsUnit)
          (All-imp (λ v h. ground (arith, h)) (scoring_graph g).nodes
            (valid_graph-nodes (scoring_graph g) valid))
          (valid_graph-weights (scoring_graph g) valid).0
          (valid_graph-weights (scoring_graph g) valid).1)

  -- Where the graph is one that the schema accepts, with distinct nodes, and each passed session has a
  -- score of the unit interval, the evaluation of the graph from the sessions of an attempt does not
  -- throw, neither at the parse of an outcome nor at that of its result; and it passes exactly when
  -- the task of every required node has a passed session and every distractor is left alone or
  -- avoided, every required edge joins passing nodes and has the proof of a revision at its target,
  -- and every required recovery is listed by a session that ended without an error. The laws of
  -- rounded numbers are assumed.
  pub attempt_passes_iff :
      (laws : IsRounded N)
      → valid_graph (scoring_graph g) ≡ true
      → All PassedUnit sessions
      → (e : PrivateScenarioGraphEvaluation N) × (evaluate_scenario_graph (scoring_graph g) outcomes
          ≡ Scenario.ok e)
        × ((e.status ≡ passed) ↔ (
            All (NodePasses parse g sessions) g.nodes
            × All (λ d. d.required ≡ true → EdgePasses parse g sessions d) g.edges
            × All
                (λ f. f.required_recovery ≡ true → FaultPasses parse g sessions f)
                g.fault_schedule))
  unfolding evaluate_scenario_graph build_scenario_outcomes
  attempt_passes_iff laws valid units =
      let f = node_outcome parse g.edges (session_by_task_slug sessions) in
      let unique =
        collect-is_unique (λ v. v.id) f (λ o. o.node_id) (outcome-keyed parse g sessions distinct)
          g.nodes distinct in
      let known = all_known (map (λ v. v.id) g.nodes) outcomes (λ k c.
        contains-collect (λ v. v.id) f (λ o. o.node_id) (outcome-keyed parse g sessions distinct) k
          g.nodes c) in
      let accepted = outcomes_accepted laws valid units in
      let shown = evaluation-accepted laws valid units in
      let verdict = evaluation_passed_iff (scoring_graph g) outcomes in
      (
        evaluation (scoring_graph g) outcomes,
        rw (valid, accepted, unique, node_ids g.nodes, known, shown) refl,
        iff_trans verdict parts_iff,
      )
