-- ===== src/Scoring/Suite.antt =====
-- packages/scoring/src/index.ts: `aggregateSuiteScore`, the score of an attempt at a suite.
pub mod Verdict
use agent_benchmark.Common.{
  String, Bool, true, false, Option, none, some, List, filter, any, all, map, get_or, is_empty,
  if◌then◌else◌, [], ◌&&◌, ◌||◌,
}
use agent_benchmark.Scoring.{Status, is_passed, is_error}
use agent_benchmark.Scoring.Capability.{CapabilityBreakdown, status_of}
use agent_benchmark.Scoring.Number.{Number}
use agent_benchmark.Scoring.Scenario.{PublicScenarioGraphEvaluation}
use agent_benchmark.Scoring.Capability.Components.{weight_sum, weighted_sum}

pub record HostedWebSuiteSessionScore (N : Type 0) : Type 0 where
  pub session_id : String
  pub app : String
  pub task_slug : String
  pub status : Status
  pub score : N
  pub weight : N
  pub required : Bool

pub data SuiteConsistencyRule : Type 0 where
  equal_normalized target_contains_source target_digest_matches_source : SuiteConsistencyRule

-- The status of a consistency check is passed or failed.
pub record SuiteConsistencyResult (N : Type 0) : Type 0 where
  pub name : String
  pub rule : SuiteConsistencyRule
  pub status : Status
  pub score : N
  pub weight : N
  pub required : Bool
  pub source_task_slug : String
  pub target_task_slug : String

pub data SuiteAggregation : Type 0 where
  weighted_required_suite capability_dimension_weighted_suite : SuiteAggregation

pub record HostedWebSuiteScoreResult (N : Type 0) : Type 0 where
  pub score : N
  pub status : Status
  pub summary : String
  pub aggregation : SuiteAggregation
  pub sessions : List (HostedWebSuiteSessionScore N)
  pub consistency : Option (List (SuiteConsistencyResult N))
  pub capabilities : Option (CapabilityBreakdown N)
  pub scenario_graph : Option (PublicScenarioGraphEvaluation N)

pub record SuiteParams (N : Type 0) : Type 0 where
  pub sessions : List (HostedWebSuiteSessionScore N)
  pub consistency : Option (List (SuiteConsistencyResult N))
  pub capabilities : Option (CapabilityBreakdown N)
  pub scenario_graph : Option (PublicScenarioGraphEvaluation N)
  pub pass_summary : Option String
  pub fail_summary : Option String

module _ {N : Type 0} ⦃n : Number N⦄ where
  abbrev pub capabilities_are : (Status → Bool) → Bool → Option (CapabilityBreakdown N) → Bool
  capabilities_are p default none = default
  capabilities_are p default (some c) = p c.status

  abbrev pub graph_is : (Status → Bool) → Bool → Option (PublicScenarioGraphEvaluation N) → Bool
  graph_is p default none = default
  graph_is p default (some g) = p g.status

  -- `params.consistency ?? []`
  abbrev pub checks : SuiteParams N → List (SuiteConsistencyResult N)
  checks params = get_or params.consistency []

  abbrev pub required_sessions : SuiteParams N → List (HostedWebSuiteSessionScore N)
  required_sessions params = filter (λ s. s.required) params.sessions

  unfoldable pub required_passed : SuiteParams N → Bool
  required_passed params =
      all (λ s. is_passed s.status) (required_sessions params)
      && all (λ c. is_passed c.status) (filter (λ c. c.required) (checks params))
      && capabilities_are is_passed true params.capabilities
      && graph_is is_passed true params.scenario_graph

  unfoldable pub any_error : SuiteParams N → Bool
  any_error params =
      any (λ s. is_error s.status) (required_sessions params)
      || capabilities_are is_error false params.capabilities
      || graph_is is_error false params.scenario_graph

  abbrev pub session_row : HostedWebSuiteSessionScore N → N × N
  session_row s = (s.score, s.weight)

  abbrev pub check_row : SuiteConsistencyResult N → N × N
  check_row c = (c.score, c.weight)

  unfoldable pub weighted_score : SuiteParams N → N
  weighted_score params =
      let sessions = map session_row params.sessions in
      let rows = map check_row (checks params) in
      let total = n.plus (weight_sum n.nought sessions) (weight_sum n.nought rows) in
      let sum = n.plus (weighted_sum n.nought sessions) (weighted_sum n.nought rows) in
      if n.gt total n.nought then n.divide sum total else n.nought

  abbrev pub normalized_score : SuiteParams N → Option (CapabilityBreakdown N) → N
  normalized_score params none = n.to_fixed (weighted_score params)
  normalized_score params (some c) = c.score

  abbrev pub aggregation_of : Option (CapabilityBreakdown N) → SuiteAggregation
  aggregation_of none = weighted_required_suite
  aggregation_of (some c) = capability_dimension_weighted_suite

  unfoldable pub aggregate_suite_score : SuiteParams N → HostedWebSuiteScoreResult N
  unfolding required_passed any_error
  aggregate_suite_score params =
      let status = status_of (any_error params) (required_passed params) in
      record {
        score = normalized_score params params.capabilities;
        status = status;
        summary =
            if is_passed status
            then get_or params.pass_summary "All required hosted-web sessions passed."
            else get_or params.fail_summary "One or more required hosted-web sessions failed.";
        aggregation = aggregation_of params.capabilities;
        sessions = params.sessions;
        consistency = if is_empty (checks params) then none else some (checks params);
        capabilities = params.capabilities;
        scenario_graph = params.scenario_graph;
      }
