-- ===== src/Scoring.antt =====
-- packages/scoring/src: how evaluator, session and capability results become scores.
pub mod Number
pub mod Strict
pub mod Suite
pub mod Consistency
pub mod Capability
pub mod Scenario
mod Tests
use agent_benchmark.Common.{Bool, true, false}

-- The evaluator, capability and suite status: one enum under three names in the source.
pub data Status : Type 0 where
  passed failed error : Status

abbrev pub is_passed : Status → Bool
is_passed passed = true
is_passed _ = false

abbrev pub is_error : Status → Bool
is_error error = true
is_error _ = false
