-- ===== src/Scoring/Strict.antt =====
-- packages/scoring/src/index.ts: evaluator results and `aggregateStrictScore`, the score of one task.
use agent_benchmark.Common.{
  String, Bool, true, false, Option, none, some, List, filter, any, all, is_empty, not, get_or, ◌≡◌,
  ◌&&◌, ◌↔◌, ◌++◌, ◌∷◌, if◌then◌else◌, filter-skip, arith, refl,
}
use agent_benchmark.Json.{Fields}
use agent_benchmark.Scoring.{Status, passed, failed, is_error, is_passed, error}
use agent_benchmark.Scoring.Number.{Number}
use agent_benchmark.Scoring.Capability.{status_of}
use agent_benchmark.Scoring.Capability.Verdict.{all_passed_no_error}

pub data HostedWebEvaluatorType : Type 0 where
  retrieve_value backend_state ui_state final_response : HostedWebEvaluatorType

pub record HostedWebEvaluatorResult (N : Type 0) : Type 0 where
  pub type : HostedWebEvaluatorType
  pub name : String
  pub score : N
  pub status : Status
  pub required : Bool
  pub evidence : Option Fields
  pub error_message : Option String

pub record HostedWebScoreResult (N : Type 0) : Type 0 where
  pub score : N
  pub status : Status
  pub summary : String
  pub evaluators : List (HostedWebEvaluatorResult N)

module _ {N : Type 0} ⦃n : Number N⦄ where
  unfoldable pub passed_evaluator :
      HostedWebEvaluatorType → String → Option Fields → Option Bool → HostedWebEvaluatorResult N
  passed_evaluator type name evidence required = record {
    type = type;
    name = name;
    score = n.one;
    status = passed;
    required = get_or required true;
    evidence = evidence;
    error_message = none;
  }

  unfoldable pub failed_evaluator :
      HostedWebEvaluatorType
      → String
      → String
      → Option Fields
      → Option Bool
      → HostedWebEvaluatorResult N
  failed_evaluator type name error_message evidence required = record {
    type = type;
    name = name;
    score = n.nought;
    status = failed;
    required = get_or required true;
    evidence = evidence;
    error_message = some error_message;
  }

  unfoldable pub aggregate_strict_score :
      List (HostedWebEvaluatorResult N) → String → String → HostedWebScoreResult N
  aggregate_strict_score evaluators pass_summary fail_summary =
      let required = filter (λ e. e.required) evaluators in
      let has_error = any (λ e. is_error e.status) required in
      let is_pass = not (is_empty required) && all (λ e. is_passed e.status) required in
      record {
        score = if is_pass then n.one else n.nought;
        status = status_of has_error is_pass;
        summary = if is_pass then pass_summary else fail_summary;
        evaluators = evaluators;
      }

  -- Every branch of the verdict: it passes exactly when some evaluator is required and all that are
  -- passed, it is an error exactly when a required one is; the score is 1 on a pass and 0 otherwise.
  pub aggregate_strict_score_verdict :
      (evaluators : List (HostedWebEvaluatorResult N)) (pass_summary fail_summary : String)
      → let required = filter (λ e. e.required) evaluators in
        let r = aggregate_strict_score evaluators pass_summary fail_summary in
        ((r.status ≡ passed)
          ↔ ((is_empty required ≡ false) × (all (λ e. is_passed e.status) required ≡ true)))
        × ((r.status ≡ error) ↔ (any (λ e. is_error e.status) required ≡ true))
        × (r.score ≡ (if is_passed r.status then n.one else n.nought))
        × (r.summary ≡ (if is_passed r.status then pass_summary else fail_summary))
  unfolding aggregate_strict_score
  aggregate_strict_score_verdict evaluators pass_summary fail_summary =
      let required = filter (λ e. e.required) evaluators in
      let clean = all_passed_no_error (λ e. e.status) required in
      (ground (arith, clean), ground (arith, clean), ground (arith, clean), ground (arith, clean))

  -- An evaluator that is not required changes neither the status nor the score.
  pub aggregate_strict_score_optional :
      (before after : List (HostedWebEvaluatorResult N)) (e : HostedWebEvaluatorResult N)
      (pass_summary fail_summary : String)
      → e.required ≡ false
      → let r = aggregate_strict_score (before ++ e ∷ after) pass_summary fail_summary in
        let s = aggregate_strict_score (before ++ after) pass_summary fail_summary in
        (r.status ≡ s.status) × (r.score ≡ s.score)
  unfolding aggregate_strict_score
  aggregate_strict_score_optional before after e pass_summary fail_summary optional =
      rw (filter-skip (λ x. x.required) before after e optional) (refl, refl)
