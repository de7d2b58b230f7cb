-- ===== src/Lifecycle.antt =====
-- The lifecycle of hosted attempts: apps/hosted-orchestrator/src/attempt-lifecycle.ts. The database
-- is reached through its routines, whose answers are parameters; what the code computes for them,
-- and does with their answers, is modelled.
pub mod Completion
pub mod Progress
pub mod Finalize
pub mod Commands
pub mod Outcomes
mod Tests
use Prim.Native.String.{String}
use agent_benchmark.Common.{Bool, String, true, Option, ℕ, false}
use agent_benchmark.Json.{Json}
use agent_benchmark.Scoring.{Status}

pub data AttemptStatus : Type 0 where
  created running scoring completed failed cancelled timeout : AttemptStatus

-- `terminalAttemptStatuses`
abbrev pub is_terminal : AttemptStatus → Bool
is_terminal completed = true
is_terminal failed = true
is_terminal cancelled = true
is_terminal timeout = true
is_terminal _ = false

pub data HostedSessionStatus : Type 0 where
  session_created session_active session_scoring : HostedSessionStatus
  session_completed session_failed session_expired session_cancelled : HostedSessionStatus

abbrev pub is_open : HostedSessionStatus → Bool
is_open session_created = true
is_open session_active = true
is_open session_scoring = true
is_open _ = false

abbrev pub is_finalized : HostedSessionStatus → Bool
is_finalized session_completed = true
is_finalized session_failed = true
is_finalized _ = false

pub record AttemptLifecycleSession (N : Type 0) : Type 0 where
  pub id : String
  pub run_id : Option String
  pub attempt_id : Option String
  pub app : String
  pub task_slug : String
  pub suite_slug : String
  pub weight : N
  pub status : HostedSessionStatus
  pub persisted : Bool
  pub final_state : Option Json

-- The row of an earlier result of the attempt.
pub record ResultRow (N : Type 0) : Type 0 where
  pub session_id : String
  pub app : Option String
  pub task_slug : Option String
  pub score : N
  pub status : Status
  pub weight : N
  pub final_state : Option Json

-- The row of a session of the attempt.
pub record SessionRow (N : Type 0) : Type 0 where
  pub id : String
  pub app : String
  pub task_slug : String
  pub weight : N
  pub required : Bool
  pub sequence_index : ℕ
