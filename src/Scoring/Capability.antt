-- ===== src/Scoring/Capability.antt =====
-- packages/scoring/src/capability.ts: scores by capability track and by scoring dimension.
pub mod Components
pub mod Aggregate
pub mod Verdict
pub mod Validity
use agent_benchmark.Common.{
  ℕ, String, Bool, true, false, not, ◌==◌, ◌&&◌, ◌||◌, Option, none, some, List, [], ◌∷◌, ◌++◌, map,
  filter, any, all, is_empty, contains, length, if◌then◌else◌,
}
use agent_benchmark.Scoring.{Status, passed, failed, error, is_passed, is_error}
use agent_benchmark.Scoring.Number.{Number}

pub data CapabilityScoreDimension : Type 0 where
  final_state_correctness dependency_consistency evidence_verification recovery_safety :
      CapabilityScoreDimension
  interaction_cost : CapabilityScoreDimension

abbrev pub dimension_name : CapabilityScoreDimension → String
dimension_name final_state_correctness = "final-state-correctness"
dimension_name dependency_consistency = "dependency-consistency"
dimension_name evidence_verification = "evidence-verification"
dimension_name recovery_safety = "recovery-safety"
dimension_name interaction_cost = "interaction-cost"

pub record CapabilityScoreComponent (N : Type 0) : Type 0 where
  pub id : String
  pub capability_ids : List String
  pub dimension_id : CapabilityScoreDimension
  pub status : Status
  pub score : N
  pub weight : N
  pub required : Bool

pub record CapabilityDeclaration : Type 0 where
  pub id : String
  pub title : String
  pub required : Option Bool

pub record DimensionDeclaration (N : Type 0) : Type 0 where
  pub id : CapabilityScoreDimension
  pub weight : N
  pub required : Option Bool

-- `required !== false`
abbrev pub not_false : Option Bool → Bool
not_false none = true
not_false (some b) = b

pub record ComponentResult (N : Type 0) : Type 0 where
  pub score : N
  pub status : Status
  pub component_count : ℕ

pub record TrackResult (N : Type 0) : Type 0 where
  pub id : String
  pub title : String
  pub required : Bool
  pub result : ComponentResult N
  pub open result use *

pub record DimensionResult (N : Type 0) : Type 0 where
  pub id : CapabilityScoreDimension
  pub weight : N
  pub required : Bool
  pub result : ComponentResult N
  pub open result use *

pub record CapabilityBreakdown (N : Type 0) : Type 0 where
  pub status : Status
  pub score : N
  pub tracks : List (TrackResult N)
  pub dimensions : List (DimensionResult N)

pub data CapabilityError : Type 0 where
  invalid_component duplicate_capabilities duplicate_dimensions duplicate_components :
      CapabilityError
  undeclared_capability undeclared_dimension : String → CapabilityError
  weights_not_one invalid_breakdown : CapabilityError

pub data Result {ℓ} (A : Type ℓ) : Type ℓ where
  ok : A → Result A
  throw : CapabilityError → Result A

-- `hasError ? "error" : passed ? "passed" : "failed"`
abbrev pub status_of : Bool → Bool → Status
status_of has_error is_pass = if has_error then error else if is_pass then passed else failed
