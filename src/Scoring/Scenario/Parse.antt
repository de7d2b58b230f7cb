-- ===== src/Scoring/Scenario/Parse.antt =====
-- packages/scoring/src/capability.ts: what scenarioGraphInputSchema, scenarioNodeOutcomeSchema and
-- privateScenarioGraphEvaluationSchema check of values that have the types. A number that is not NaN
-- is `<=` itself, and a comparison with NaN is false, so the bounds reject NaN as zod does.
-- The kind and the trigger of a fault, which the evaluation does not read, are not in the model: here
-- they are those that privateScenarioGraphSchema has parsed, with the same rules.
use agent_benchmark.Common.{
  String, Bool, true, ◌&&◌, ◌==◌, ◌≡◌, refl, not, List, [], ◌∷◌, all, is_empty, arith, All, All-imp,
}
use agent_benchmark.Scoring.Number.{Number, ◌≼◌}
use agent_benchmark.Scoring.Capability.Aggregate.{in_unit}
use agent_benchmark.Scoring.Scenario.{
  ScenarioNode, ScenarioEdge, ScheduledFault, ScenarioGraph, ScenarioNodeOutcome, ComponentOutcome,
  PrivateScenarioGraphEvaluation,
}

-- `z.string().min(1)`
abbrev pub is_filled : String → Bool
is_filled s = not (s == "")

module _ {N : Type 0} ⦃n : Number N⦄ where
  -- `z.number().nonnegative()`; `in_unit` is `z.number().min(0).max(1)`.
  abbrev pub is_nonnegative : N → Bool
  is_nonnegative x = n.le n.nought x

  abbrev pub valid_node : ScenarioNode N → Bool
  valid_node v =
      is_filled v.id
      && is_filled v.task_slug
      && (not (is_empty v.capability_ids) && all is_filled v.capability_ids)
      && is_nonnegative v.weight

  abbrev pub valid_edge : ScenarioEdge N → Bool
  valid_edge e =
      is_filled e.id
      && is_filled e.from_node_id
      && is_filled e.to_node_id
      && is_nonnegative e.weight

  abbrev pub valid_fault : ScheduledFault N → Bool
  valid_fault f = is_filled f.id && is_filled f.node_id && is_nonnegative f.weight

  unfoldable pub valid_graph : ScenarioGraph N → Bool
  valid_graph g =
      not (is_empty g.nodes)
      && all valid_node g.nodes
      && (all valid_edge g.edges && all valid_fault g.fault_schedule)

  abbrev pub valid_outcome : ScenarioNodeOutcome N → Bool
  valid_outcome o = is_filled o.node_id && in_unit o.score

  abbrev pub valid_component_result : ComponentOutcome N → Bool
  valid_component_result c = in_unit c.score && is_nonnegative c.weight

  unfoldable pub valid_evaluation : PrivateScenarioGraphEvaluation N → Bool
  valid_evaluation e =
      in_unit e.score
      && (all valid_component_result e.nodes
          && (all valid_component_result e.dependencies && all valid_component_result e.recoveries))

all-All {ℓ} : {A : Type ℓ} (p : A → Bool) (xs : List A) → all p xs ≡ true → All (λ x. p x ≡ true) xs
all-All p [] h = tt
all-All p (x ∷ xs) h = (ground (arith, h), all-All p xs (ground (arith, h)))

pub All-all {ℓ} :
    {A : Type ℓ} (p : A → Bool) (xs : List A) → All (λ x. p x ≡ true) xs → all p xs ≡ true
All-all p [] h = refl
All-all p (x ∷ xs) (e, h) = rw (e, All-all p xs h) refl

module _ {N : Type 0} ⦃n : Number N⦄ (g : ScenarioGraph N) (h : valid_graph g ≡ true) where
  pub valid_graph-nodes : All (λ v. valid_node v ≡ true) g.nodes
  unfolding valid_graph
  valid_graph-nodes = all-All valid_node g.nodes (ground (arith, h))

  pub valid_graph-weights :
      All (λ e. n.nought ≼ e.weight) g.edges × All (λ f. n.nought ≼ f.weight) g.fault_schedule
  unfolding valid_graph
  valid_graph-weights = (
    All-imp (λ e v. ground (arith, v)) g.edges (all-All valid_edge g.edges (ground (arith, h))),
    All-imp (λ f v. ground (arith, v)) g.fault_schedule
        (all-All valid_fault g.fault_schedule (ground (arith, h))),
  )
