-- ===== src/Scoring/Consistency/Tests.antt =====
-- A note's title carried into an order.
use agent_benchmark.Scoring.{passed, failed}
use agent_benchmark.Scoring.Number.{Decimal, decimal}
use agent_benchmark.Scoring.Suite.{equal_normalized}
use agent_benchmark.Json.{object, field, array, cons, nil, string, end, number, Json, get_field}
use agent_benchmark.Scoring.Consistency.{
  SuiteConsistencyCheck, evaluate_check, resolve_consistency_values, session_values, follow,
  next_values, child, get_item, matched_value, print_number,
}
use agent_benchmark.Common.{Map, true, ◌∷◌, false, [], ◌≡◌, ◌↔◌, if◌then◌else◌, get, refl}
use agent_benchmark.Scoring.Consistency.Carried.{carried, check-carried}

abbrev check : SuiteConsistencyCheck Decimal
check = record {
  name = "title";
  rule = equal_normalized;
  weight = 1;
  required = true;
  source_task_slug = "notes";
  source_path =
      record { key = "notes"; wildcard = true } ∷ record { key = "title"; wildcard = false } ∷ [];
  target_task_slug = "shop";
  target_path = record { key = "total"; wildcard = false } ∷ [];
}

abbrev states : Map Json
states =
    (
      "notes",
      object (field "notes" (array (cons (object (field "title" (string "42") end)) nil)) end),
    )
    ∷ ("shop", object (field "total" (number 42) end))
    ∷ []

check_passes : (evaluate_check (λ s. s) (λ s. s) states check).score ≡ 10000
unfolding evaluate_check resolve_consistency_values follow next_values child get_item matched_value
    print_number get get_field
check_passes = refl

check-carried_example :
    let is_carried =
      carried
        (λ s. s)
        (λ s. s)
        equal_normalized
        (session_values (λ s. s) (λ s. s) states "notes" check.source_path)
        (session_values (λ s. s) (λ s. s) states "shop" check.target_path) in
    let r = evaluate_check (λ s. s) (λ s. s) states check in
    ((r.status ≡ passed) ↔ (is_carried ≡ true))
    × (r.status ≡ (if is_carried then passed else failed))
    × (r.score ≡ (if is_carried then 10000 else 0))
check-carried_example = check-carried (λ s. s) (λ s. s) states check
