-- ===== src/Aggregation/Session.antt =====
-- apps/hosted-orchestrator/src/capability-aggregation.ts: the components of each session.
use agent_benchmark.Common.{
  ℕ, ◌-◌, String, Bool, true, false, not, ◌&&◌, ◌==◌, ◌⧺◌, Option, none, some, List, [], ◌∷◌, ◌++◌,
  any, all, filter, find, is_empty, length, leb, if◌then◌else◌,
}
use agent_benchmark.Json.{Json, as_array, as_string}
use agent_benchmark.Scoring.{passed, is_passed, is_error}
use agent_benchmark.Scoring.Number.{Number}
use agent_benchmark.Scoring.Strict.{
  HostedWebEvaluatorType, retrieve_value, ui_state, HostedWebEvaluatorResult,
}
use agent_benchmark.Scoring.Capability.{
  CapabilityScoreDimension, final_state_correctness, evidence_verification, interaction_cost,
  dimension_name, CapabilityScoreComponent, status_of,
}
use agent_benchmark.Aggregation.{
  CapabilityAttemptSession, InteractionBudget, CapabilityCoverageEntry, CapabilityMatrix, in_record,
}

-- `questionGeneration.variantId`, if it is a text that is not empty.
abbrev pub selected_variant_id : Option Json → Option String
selected_variant_id metadata =
    elim (as_string (in_record "variantId" (in_record "questionGeneration" metadata))) [
      | none ↦ none
      | some id ↦ if id == "" then none else some id
    ]

abbrev pub is_evidence : HostedWebEvaluatorType → Bool
is_evidence retrieve_value = true
is_evidence ui_state = true
is_evidence _ = false

-- `dimensionIds.includes(dimension)`
abbrev pub has_dimension : CapabilityScoreDimension → List CapabilityScoreDimension → Bool
has_dimension d ds = any (λ e. dimension_name e == dimension_name d) ds

-- `[value]`, or nothing for null.
abbrev pub listed {ℓ} : {A : Type ℓ} → Option A → List A
listed none = []
listed (some x) = x ∷ []

-- What `f` makes of an element, if there is one.
abbrev pub chain {ℓ κ} : {A : Type ℓ} {B : Type κ} → Option A → (A → Option B) → Option B
chain none f = none
chain (some x) f = f x

-- `xs.flatMap(f)` where `f` returns one value or none.
unfoldable pub collect {ℓ κ} : {A : Type ℓ} {B : Type κ} → (A → Option B) → List A → List B
collect f [] = []
collect f (x ∷ xs) = listed (f x) ++ collect f xs

module _ {N : Type 0} where
  -- `parse` is hostedWebEvaluatorResultSchema.safeParse.
  unfoldable pub parsed_evaluators :
      (Json → Option (HostedWebEvaluatorResult N)) → Option Json → List (HostedWebEvaluatorResult N)
  unfolding collect
  parsed_evaluators parse value = elim (as_array value) [ none ↦ [] | some vs ↦ collect parse vs ]

  unfoldable pub matching_coverage :
      CapabilityMatrix N → CapabilityAttemptSession N → Option CapabilityCoverageEntry
  matching_coverage matrix session = elim (selected_variant_id session.metadata) [
    | none ↦ none
    | some variant ↦
        find (λ e. e.task_slug == session.task_slug && e.variant_id == variant) matrix.coverage
  ]

module _ {N : Type 0} ⦃n : Number N⦄ where
  unfoldable pub sum_scores : N → List (HostedWebEvaluatorResult N) → N
  sum_scores sum [] = sum
  sum_scores sum (e ∷ es) = sum_scores (n.plus sum e.score) es

  abbrev pub final_state_component :
      CapabilityAttemptSession N → CapabilityCoverageEntry → CapabilityScoreComponent N
  final_state_component session coverage = record {
    id = "final-state:" ⧺ session.id;
    capability_ids = coverage.capability_ids;
    dimension_id = final_state_correctness;
    status = session.status;
    score = if is_passed session.status then session.score else n.nought;
    weight = n.one;
    required = true;
  }

-- `of_count` is the number of a count, and `parse` as above.
module _ {N : Type 0} ⦃n : Number N⦄ (of_count : ℕ → N)
    (parse : Json → Option (HostedWebEvaluatorResult N)) where
  unfoldable pub evidence_component :
      CapabilityAttemptSession N → CapabilityCoverageEntry → Option (CapabilityScoreComponent N)
  unfolding parsed_evaluators sum_scores
  evidence_component session coverage =
      let evaluators =
        filter (λ e. e.required && is_evidence e.type)
          (parsed_evaluators parse session.evaluators) in
      if is_empty evaluators
      then none
      else some (record {
        id = "evidence:" ⧺ session.id;
        capability_ids = coverage.capability_ids;
        dimension_id = evidence_verification;
        status =
            status_of (any (λ e. is_error e.status) evaluators)
              (all (λ e. is_passed e.status) evaluators);
        score =
            n.to_fixed (n.divide (sum_scores n.nought evaluators) (of_count (length evaluators)));
        weight = n.one;
        required = true;
      })

  -- The budget's bounds are apart, and the cost is between them where they are subtracted.
  abbrev pub cost_score : InteractionBudget → ℕ → N
  cost_score b cost =
      if leb cost b.preferred_max_actions
      then n.one
      else if leb b.hard_max_actions cost
      then n.nought
      else n.divide (of_count (b.hard_max_actions - cost))
          (of_count (b.hard_max_actions - b.preferred_max_actions))

  abbrev pub cost_component :
      CapabilityAttemptSession N
      → CapabilityCoverageEntry
      → Option InteractionBudget
      → Option ℕ
      → Option (CapabilityScoreComponent N)
  cost_component session coverage none cost = none
  cost_component session coverage (some b) none = none
  cost_component session coverage (some b) (some cost) = some (record {
    id = "interaction-cost:" ⧺ session.id;
    capability_ids = coverage.capability_ids;
    dimension_id = interaction_cost;
    status = passed;
    score = n.to_fixed (cost_score b cost);
    weight = n.one;
    required = false;
  })

  unfoldable pub interaction_cost_component :
      CapabilityAttemptSession N → CapabilityCoverageEntry → Option (CapabilityScoreComponent N)
  interaction_cost_component session coverage =
      if not (has_dimension interaction_cost coverage.dimension_ids)
      then none
      else cost_component session coverage coverage.interaction_budget
          session.normalized_action_cost

  -- What one round of the loop pushes, where a coverage matches.
  unfoldable pub session_components :
      CapabilityAttemptSession N → CapabilityCoverageEntry → List (CapabilityScoreComponent N)
  unfolding evidence_component interaction_cost_component
  session_components session coverage =
      (if has_dimension final_state_correctness coverage.dimension_ids
        then final_state_component session coverage ∷ []
        else [])
      ++ ((if has_dimension evidence_verification coverage.dimension_ids
            then listed (evidence_component session coverage)
            else [])
          ++ listed (interaction_cost_component session coverage))

  unfoldable pub build_session_components :
      CapabilityMatrix N → List (CapabilityAttemptSession N) → List (CapabilityScoreComponent N)
  unfolding session_components matching_coverage
  build_session_components matrix [] = []
  build_session_components matrix (session ∷ sessions) =
      (elim (matching_coverage matrix session) [
        | none ↦ []
        | some coverage ↦ session_components session coverage
      ])
      ++ build_session_components matrix sessions
