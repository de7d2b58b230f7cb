-- ===== src/Scoring/Scenario/Projection.antt =====
-- `projectScenarioGraphEvaluation`: what is shown of an evaluation are counts.
use agent_benchmark.Common.{
  ℕ, ◌+◌, ◌≡◌, refl, Bool, List, [], ◌∷◌, filter, length, arith, true, false, Option, some, none,
  if◌then◌else◌,
}
use agent_benchmark.Scoring.{Status, failed, is_passed, is_error}
use agent_benchmark.Scoring.Number.{Number}
use agent_benchmark.Scoring.Capability.Aggregate.{in_unit}
use agent_benchmark.Scoring.Scenario.Parse.{valid_evaluation}
use agent_benchmark.Scoring.Scenario.{
  ComponentOutcome, PrivateScenarioGraphEvaluation, PublicScenarioGraphEvaluation, StatusCounts,
}

abbrev pub is_failed : Status → Bool
is_failed failed = true
is_failed _ = false

-- How many components the counts count.
abbrev pub total : StatusCounts → ℕ
total c = c.passed_count + c.failed_count + c.error_count

module _ {N : Type 0} where
  unfoldable pub count_statuses : List (ComponentOutcome N) → StatusCounts
  count_statuses cs = record {
    passed_count = length (filter (λ c. is_passed c.status) cs);
    failed_count = length (filter (λ c. is_failed c.status) cs);
    error_count = length (filter (λ c. is_error c.status) cs);
  }

  unfoldable pub projected : PrivateScenarioGraphEvaluation N → PublicScenarioGraphEvaluation N
  projected result = record {
    status = result.status;
    score = result.score;
    nodes = count_statuses result.nodes;
    dependencies = count_statuses result.dependencies;
    recoveries = count_statuses result.recoveries;
  }

  total-count_statuses : (cs : List (ComponentOutcome N)) → total (count_statuses cs) ≡ length cs
  unfolding count_statuses
  total-count_statuses [] = refl
  total-count_statuses (c ∷ cs) = ground (arith, total-count_statuses cs)

  -- Each component is counted once, so the counts of a group add up to its size.
  pub projected_counts :
      (result : PrivateScenarioGraphEvaluation N)
      → let shown = projected result in
        (total shown.nodes ≡ length result.nodes)
        × (total shown.dependencies ≡ length result.dependencies)
        × (total shown.recoveries ≡ length result.recoveries)
  unfolding projected
  projected_counts result = (
    total-count_statuses result.nodes,
    total-count_statuses result.dependencies,
    total-count_statuses result.recoveries,
  )

module _ {N : Type 0} ⦃n : Number N⦄ where
  -- `none` where the parse throws: counts are natural numbers, so that is over the score alone.
  unfoldable pub project_scenario_graph_evaluation :
      PrivateScenarioGraphEvaluation N → Option (PublicScenarioGraphEvaluation N)
  unfolding projected
  project_scenario_graph_evaluation result =
      if in_unit result.score then some (projected result) else none

  unit_of_valid :
      (result : PrivateScenarioGraphEvaluation N)
      → valid_evaluation result ≡ true
      → in_unit result.score ≡ true
  unfolding valid_evaluation
  unit_of_valid result h = ground (arith, h)

  -- The parse of the projection does not throw where that of the evaluation did not.
  pub project_valid :
      (result : PrivateScenarioGraphEvaluation N)
      → valid_evaluation result ≡ true
      → project_scenario_graph_evaluation result ≡ some (projected result)
  unfolding project_scenario_graph_evaluation valid_evaluation
  project_valid result h = rw (unit_of_valid result h) refl
