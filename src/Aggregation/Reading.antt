-- ===== src/Aggregation/Reading.antt =====
-- What the maps of the scenario's evaluation find under an identifier: the node's own.
use agent_benchmark.Common.{
  String, ◌≡◌, ◌≢◌, ◌↔◌, inl, inr, refl, ap, ◌∙◌, sym, subst, true, ◌==◌, Option, some, List, [],
  ◌∷◌, map, contains, is_unique, arith, Map, get, find-passes, eq_iff, Option-cases,
}
use agent_benchmark.Json.{Json}
use agent_benchmark.Scoring.{passed}
use agent_benchmark.Scoring.Number.{Number}
use agent_benchmark.Scoring.Strict.{HostedWebEvaluatorResult}
use agent_benchmark.Scoring.Scenario.{
  ScheduledFault, ScenarioNodeOutcome, ComponentOutcome, errored,
}
use agent_benchmark.Scoring.Scenario.Evaluate.{
  outcomes_by_node, results_by_node, node_results, node_result,
}
use agent_benchmark.Scoring.Scenario.Outcome.{
  NodeHolds, EdgeHolds, FaultHolds, node_required, node_result_iff,
}
use agent_benchmark.Aggregation.{CapabilityAttemptSession, GraphNode, GraphEdge, AttemptGraph}
use agent_benchmark.Aggregation.Session.{collect, chain}
use agent_benchmark.Aggregation.Outcomes.{
  scoring_graph, session_by_task_slug, node_outcome, build_scenario_outcomes,
}
use agent_benchmark.Aggregation.Lookup.{get-of_collect}
use agent_benchmark.Aggregation.Passing.{session_of, NodePasses, outcome_in-keyed, NodeHolds-iff}
use agent_benchmark.Aggregation.Verdict.{
  node_at, EndPasses, EdgePasses, FaultPasses, RevisedAt, RecoveredAt, revised_iff, recovered_iff,
  made,
}

module _ {N : Type 0} ⦃n : Number N⦄ (parse : Json → Option (HostedWebEvaluatorResult N))
    (g : AttemptGraph N) (sessions : List (CapabilityAttemptSession N))
    (distinct : is_unique (map (λ v. v.id) g.nodes) ≡ true) where
  abbrev outcomes : List (ScenarioNodeOutcome N)
  outcomes = build_scenario_outcomes parse g sessions

  abbrev results : Map (ComponentOutcome N)
  results = results_by_node (node_results (scoring_graph g) outcomes)

  pub outcome-keyed :
      (v : GraphNode N) (o : ScenarioNodeOutcome N)
      → node_outcome parse g.edges (session_by_task_slug sessions) v ≡ some o
      → o.node_id ≡ v.id
  unfolding node_outcome
  outcome-keyed v o e = outcome_in-keyed parse g sessions (session_of parse g sessions v) v o e

  get-outcomes :
      (id : String)
      → get id (outcomes_by_node outcomes)
        ≡ chain (node_at parse g sessions id) (made parse g sessions)
  unfolding build_scenario_outcomes node_outcome
  get-outcomes id =
      get-of_collect (λ v. v.id) (node_outcome parse g.edges (session_by_task_slug sessions))
        (λ o. o.node_id) outcome-keyed id g.nodes distinct

  abbrev result_of : GraphNode N → Option (ComponentOutcome N)
  result_of v = some (node_result (get v.id (outcomes_by_node outcomes)) v.node)

  results-collect :
      (vs : List (GraphNode N))
      → map
          (λ node. node_result (get node.id (outcomes_by_node outcomes)) node)
          (map (λ v. v.node) vs)
        ≡ collect result_of vs
  unfolding collect
  results-collect [] = refl
  results-collect (v ∷ vs) =
      ap (λ rs. node_result (get v.id (outcomes_by_node outcomes)) v.node ∷ rs) (results-collect vs)

  result-keyed : (v : GraphNode N) (c : ComponentOutcome N) → result_of v ≡ some c → c.id ≡ v.id
  unfolding node_result
  result-keyed v c e = ground (arith, e)

  get-results : (id : String) → get id results ≡ chain (node_at parse g sessions id) result_of
  get-results id =
      ap (λ rs. get id (results_by_node rs)) (results-collect g.nodes)
      ∙ get-of_collect (λ v. v.id) result_of (λ c. c.id) result-keyed id g.nodes distinct

  -- The node that an identifier finds has that identifier, and its own outcome is found under it.
  made_at :
      (id : String) (v : GraphNode N)
      → node_at parse g sessions id ≡ some v
      → get v.id (outcomes_by_node outcomes) ≡ made parse g sessions v
  made_at id v at =
      let same : v.id ≡ id = (eq_iff v.id id).0 (find-passes (λ w. w.id == id) g.nodes v at) in
      ap (λ i. get i (outcomes_by_node outcomes)) same
      ∙ (get-outcomes id ∙ ap (λ o. chain o (made parse g sessions)) at)

  pub node_iff :
      (id : String) (v : GraphNode N)
      → node_at parse g sessions id ≡ some v
      → NodeHolds (get v.id (outcomes_by_node outcomes)) v.node ↔ NodePasses parse g sessions v
  node_iff id v at = rw (made_at id v at) (NodeHolds-iff parse g sessions v)

  status_iff :
      (id : String) (v : GraphNode N)
      → node_at parse g sessions id ≡ some v
      → ((node_result (get v.id (outcomes_by_node outcomes)) v.node).status ≡ passed)
        ↔ NodePasses parse g sessions v
  status_iff id v at =
      let o = get v.id (outcomes_by_node outcomes) in
      let result = node_result_iff o v.node in
      let node = node_iff id v at in
      (λ h. node.0 (result.0 (λ _. h)), λ h. result.1 (node.1 h) (node_required o v.node))

  end_iff :
      (id : String)
      → ((c : ComponentOutcome N) × (get id results ≡ some c) × (c.status ≡ passed))
        ↔ EndPasses parse g sessions id
  end_iff id = elim (Option-cases (node_at parse g sessions id)) [
    | inl none_at ↦
        let nothing = get-results id ∙ ap (λ o. chain o result_of) none_at in
        (λ (c, e, p). cc (nothing, e), λ (v, e, p). cc (none_at, e))
    | inr (v, at) ↦
        let found = get-results id ∙ ap (λ o. chain o result_of) at in
        (
          λ (c, e, p). (v, at, (status_iff id v at).0 (cc (found, e, p))),
          λ (w, e, p). (
            node_result (get v.id (outcomes_by_node outcomes)) v.node,
            found,
            (status_iff id v at).1
                (let same : w ≡ v = cc (at, e) in subst (NodePasses parse g sessions) same p),
          ),
        )
  ]

  -- What is said of the outcome under an identifier is said of the node that it finds.
  outcome_at_iff :
      (P : ScenarioNodeOutcome N → Type 0) (Q : GraphNode N → Type 0) (id : String)
      → ((v : GraphNode N)
          → ((o : ScenarioNodeOutcome N) × (made parse g sessions v ≡ some o) × P o) ↔ Q v)
      → ((o : ScenarioNodeOutcome N) × (get id (outcomes_by_node outcomes) ≡ some o) × P o)
        ↔ ((v : GraphNode N) × (node_at parse g sessions id ≡ some v) × Q v)
  outcome_at_iff P Q id h = elim (Option-cases (node_at parse g sessions id)) [
    | inl none_at ↦
        let nothing = get-outcomes id ∙ ap (λ o. chain o (made parse g sessions)) none_at in
        (λ (o, e, p). cc (nothing, e), λ (v, e, q). cc (none_at, e))
    | inr (v, at) ↦
        let found = get-outcomes id ∙ ap (λ o. chain o (made parse g sessions)) at in
        (
          λ (o, e, p). (v, at, (h v).0 (o, sym found ∙ e, p)),
          λ (w, e, q).
              let same : w ≡ v = cc (at, e) in
              let (o, m, p) = (h v).1 (subst Q same q) in (o, found ∙ m, p),
        )
  ]

  pub edge_iff :
      (e : GraphEdge N)
      → EdgeHolds (outcomes_by_node outcomes) results e.edge ↔ EdgePasses parse g sessions e
  edge_iff e =
      let source = end_iff e.from_node_id in
      let target = end_iff e.to_node_id in
      let revision =
        outcome_at_iff (λ o. contains e.from_node_id o.revised_node_ids ≡ true)
          (λ v. RevisedAt parse g sessions v e.from_node_id) e.to_node_id
          (λ v. revised_iff parse g sessions v e.from_node_id) in
      (
        λ (a, b, c). (source.0 a, target.0 b, λ r. revision.0 (c r)),
        λ (a, b, c). (source.1 a, target.1 b, λ r. revision.1 (c r)),
      )

  pub fault_iff :
      (f : ScheduledFault N)
      → FaultHolds (get f.node_id (outcomes_by_node outcomes)) f ↔ FaultPasses parse g sessions f
  fault_iff f =
      let at =
        outcome_at_iff (λ o. (o.status ≢ errored) × (contains f.id o.recovered_fault_ids ≡ true))
          (λ v. RecoveredAt parse g sessions v f.id) f.node_id
          (λ v.
            let r = recovered_iff parse g sessions v f.id in
            (
              λ (o, e, (ok, c)). r.0 (o, e, ok, c),
              λ h. let (o, e, ok, c) = r.1 h in (o, e, (ok, c)),
            )) in
      (λ (o, e, ok, c). at.0 (o, e, (ok, c)), λ h. let (o, e, (ok, c)) = at.1 h in (o, e, ok, c))
