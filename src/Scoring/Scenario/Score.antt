-- ===== src/Scoring/Scenario/Score.antt =====
-- The score of a scenario graph, and what an error in it does.
use agent_benchmark.Scoring.Number.{Number, IsRounded, IsUnit, ◌≼◌}
use agent_benchmark.Scoring.Scenario.{
  ComponentOutcome, ScenarioNodeOutcome, ScenarioNode, ScenarioGraph,
  PrivateScenarioGraphEvaluation,
}
use agent_benchmark.Scoring.Scenario.Parse.{All-all, valid_component_result, valid_evaluation}
use agent_benchmark.Scoring.Scenario.Evaluate.{
  score_of, mean_score, node_result, evaluation, sum_of, unit_of, edge_result, fault_result,
  outcomes_by_node, components, results_by_node, node_results, edge_passes, recovered,
}
use agent_benchmark.Common.{
  none, some, [], ◌∷◌, Bool, Option, List, All, Bool-cases, String, inl, arith, get, inr,
  Option-cases, All-get, All-of_entries, All-map, map, All-imp, All-append, true, false, all, ◌++◌,
  ◌≡◌,
}

All-append_parts {ℓ κ} :
    {A : Type ℓ} (P : A → Type κ) (xs ys : List A) → All P (xs ++ ys) → All P xs × All P ys
All-append_parts P [] ys h = (tt, h)
All-append_parts P (x ∷ xs) ys (p, h) = let (l, r) = All-append_parts P xs ys h in ((p, l), r)

module _ {N : Type 0} ⦃n : Number N⦄ (laws : IsRounded N) where
  open laws use {
    nought_le, one_le, one_le_one, plus_mono, plus_nonneg, times_nonneg, times_le, divide_unit,
    to_fixed_unit,
  }

  -- A score of the unit interval with a weight that is not negative, as the schemas have it.
  abbrev pub IsWeighted : ComponentOutcome N → Type 0
  IsWeighted c = IsUnit c.score × (n.nought ≼ c.weight)

  score_of_le :
      (cs : List (ComponentOutcome N)) (a b : N)
      → All IsWeighted cs
      → a ≼ b
      → n.nought ≼ a
      → (n.nought ≼ score_of a cs) × (score_of a cs ≼ sum_of b cs)
  unfolding score_of sum_of
  score_of_le [] a b h p q = (q, p)
  score_of_le (c ∷ cs) a b ((unit, nonneg), h) p q =
      let s = n.times c.score c.weight in
      score_of_le cs (n.plus a s) (n.plus b c.weight) h
        (plus_mono a s b c.weight p (times_le c.score c.weight unit.0 unit.1 nonneg))
        (plus_nonneg a s q (times_nonneg c.score c.weight unit.0 nonneg))

  mean_score-IsUnit : (cs : List (ComponentOutcome N)) → All IsWeighted cs → IsUnit (mean_score cs)
  unfolding mean_score
  mean_score-IsUnit cs h = elim (Bool-cases (n.equals (sum_of n.nought cs) n.nought)) [
    | inl zero_total ↦ rw (zero_total, mean_score) (nought_le, one_le)
    | inr positive ↦
        let bounds = score_of_le cs n.nought n.nought h nought_le nought_le in
        rw (positive, mean_score) (divide_unit _ _ bounds.0 bounds.1 positive)
  ]

  unit_of-IsUnit : (b : Bool) → IsUnit {N = N} (unit_of b)
  unit_of-IsUnit true = (one_le, one_le_one)
  unit_of-IsUnit false = (nought_le, one_le)

  abbrev OutcomeScored : Option (ScenarioNodeOutcome N) → Type 0
  OutcomeScored none = Unit
  OutcomeScored (some o) = IsUnit o.score

  node_result-IsWeighted :
      (o : Option (ScenarioNodeOutcome N)) (node : ScenarioNode N)
      → OutcomeScored o
      → n.nought ≼ node.weight
      → IsWeighted (node_result o node)
  unfolding node_result
  node_result-IsWeighted none node h w = ground (arith, nought_le, one_le, one_le_one)
  node_result-IsWeighted (some o) node h w = ground (arith, nought_le, one_le, one_le_one)

  outcome_scored :
      (outcomes : List (ScenarioNodeOutcome N)) (id : String)
      → All (λ o. IsUnit o.score) outcomes
      → OutcomeScored (get id (outcomes_by_node outcomes))
  outcome_scored outcomes id h = elim (Option-cases (get id (outcomes_by_node outcomes))) [
    | inl e ↦ rw e tt
    | inr (o, e) ↦ rw e (
        All-get (λ x. IsUnit x.score) id o (outcomes_by_node outcomes)
          (All-of_entries (λ x. IsUnit x.score) (map (λ x. (x.node_id, x)) outcomes) []
            ((All-map (λ x. IsUnit x.1.score) (λ x. (x.node_id, x)) outcomes).1 h) tt)
          e)
  ]

  -- With scores in the unit interval and weights that are not negative, as the schemas demand, the
  -- score of the graph is in the unit interval, and so is that of every component.
  pub evaluation-IsUnit :
      (graph : ScenarioGraph N) (outcomes : List (ScenarioNodeOutcome N))
      → All (λ o. IsUnit o.score) outcomes
      → All (λ node. n.nought ≼ node.weight) graph.nodes
      → All (λ edge. n.nought ≼ edge.weight) graph.edges
      → All (λ fault. n.nought ≼ fault.weight) graph.fault_schedule
      → IsUnit (evaluation graph outcomes).score
        × All IsWeighted (components (evaluation graph outcomes))
  unfolding evaluation edge_result fault_result
  evaluation-IsUnit graph outcomes h ns es fs =
      let by_node = outcomes_by_node outcomes in
      let results = results_by_node (node_results graph outcomes) in
      let nodes =
        (All-map IsWeighted (λ node. node_result (get node.id by_node) node) graph.nodes).1 (
          All-imp
            (λ node w.
              node_result-IsWeighted (get node.id by_node) node (outcome_scored outcomes node.id h)
                w)
            graph.nodes ns) in
      let edges = (All-map IsWeighted (edge_result by_node results) graph.edges).1 (
        All-imp (λ edge w. (unit_of-IsUnit (edge_passes by_node results edge), w)) graph.edges
          es) in
      let faults =
        (All-map IsWeighted (λ fault. fault_result (get fault.node_id by_node) fault)
            graph.fault_schedule).1
          (All-imp (λ fault w. (unit_of-IsUnit (recovered (get fault.node_id by_node) fault.id), w))
            graph.fault_schedule fs) in
      let weighted = All-append IsWeighted _ _ nodes (All-append IsWeighted _ _ edges faults) in
      (to_fixed_unit _ (mean_score-IsUnit _ weighted), weighted)

  -- What the final parse asks is what the evaluation gives.
  pub valid_evaluation-IsWeighted :
      (e : PrivateScenarioGraphEvaluation N)
      → IsUnit e.score × All IsWeighted (components e)
      → valid_evaluation e ≡ true
  unfolding valid_evaluation
  valid_evaluation-IsWeighted e (unit, weighted) =
      let all_valid : (cs : List (ComponentOutcome N))
          → All IsWeighted cs
          → all valid_component_result cs ≡ true =
        λ cs h. All-all valid_component_result cs (All-imp (λ c w. ground (arith, w)) cs h) in
      let (nodes, rest) =
        All-append_parts IsWeighted e.nodes (e.dependencies ++ e.recoveries) weighted in
      let (dependencies, recoveries) =
        All-append_parts IsWeighted e.dependencies e.recoveries rest in
      ground (
        arith,
        unit,
        all_valid e.nodes nodes,
        all_valid e.dependencies dependencies,
        all_valid e.recoveries recoveries,
      )
