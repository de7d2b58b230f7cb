-- ===== src/Sessions.antt =====
-- The session store of the hosted sites: apps/hosted-sites/src/runtime/session-store.ts. The
-- tokens of its viewers, packages/shared/src/index.ts, are in Tokens. Times are milliseconds.
pub mod Store
pub mod Access
pub mod Granting
pub mod Cached
pub mod Redis
pub mod Cancelling
pub mod Cancelled
pub mod Denial
mod Tests
mod CancelTests
pub mod Metadata
pub mod Tokens
use agent_benchmark.Common.{
  ℕ, String, Bool, true, false, Option, none, some, List, Map, ◌==◌, if◌then◌else◌,
}
use agent_benchmark.Json.{Json, Fields}

pub data HostedSessionStatus : Type 0 where
  created active completed failed cancelled expired : HostedSessionStatus

pub data AccessMode : Type 0 where
  write viewer : AccessMode

-- `S` is the state of the session's application, and a sequence index or a weight is a number that
-- the store only hands on.
pub record HostedSession (S : Type 0) : Type 0 where
  pub id : String
  pub token : String
  pub access_mode : AccessMode
  pub run_id : Option String
  pub case_id : Option String
  pub attempt_id : Option String
  pub callback_secret : Option String
  pub app : String
  pub suite_slug : String
  pub suite_version : String
  pub task_slug : String
  pub task_version : String
  pub score_preview_mode : String
  pub sequence_index : ℕ
  pub weight : ℕ
  pub required : Bool
  pub title : Option String
  pub goal : String
  pub start_path : Option String
  pub seed_version : Option String
  pub metadata : Fields
  pub status : HostedSessionStatus
  pub expires_at : Option ℕ
  pub access_count : ℕ
  pub last_accessed_at : Option ℕ
  pub first_seen_ip : Option String
  pub last_seen_ip : Option String
  pub first_seen_user_agent : Option String
  pub last_seen_user_agent : Option String
  pub created_at : String
  pub state : S
  pub persisted : Bool

-- The row that the orchestrator recovers. Its metadata is any JSON value or null.
pub record PersistedHostedSession : Type 0 where
  pub id : String
  pub run_id : Option String
  pub case_id : Option String
  pub attempt_id : Option String
  pub app : String
  pub task_slug : String
  pub task_version : String
  pub sequence_index : ℕ
  pub weight : ℕ
  pub required : Bool
  pub seed_version : Option String
  pub status : String
  pub metadata : Option Json
  pub created_at : String
  pub expires_at : Option ℕ
  pub access_count : Option ℕ
  pub last_accessed_at : Option ℕ
  pub first_seen_ip : Option String
  pub last_seen_ip : Option String
  pub first_seen_user_agent : Option String
  pub last_seen_user_agent : Option String

-- What the store asks others to do: the calls of `persistSessionAccess`, `onSessionExpired` and
-- `persistSessionSnapshotDurably`.
pub data Effect : Type 0 where
  persist_access : String → String → Effect
  session_expired : String → String → Effect
  persist_snapshot : String → Fields → Effect

-- The sessions in memory, the cache beside it if there is one, and the calls made so far.
pub record World (S : Type 0) : Type 0 where
  pub sessions : Map (HostedSession S)
  pub cache : Option (Map (HostedSession S))
  pub effects : List Effect

-- What `createSessionStore` is given, and how the calls of one request answer: the clock, the
-- request's address and agent, the claims of a viewer's token, the rows of the database, and which
-- calls of the cache and of the orchestrator do not throw. There is one answer for each kind of call:
-- the repeated calls of one request end alike, and `recoverSession` does not throw.
pub record Deps (S : Type 0) : Type 0 where
  pub now_ms : ℕ
  pub client_ip : Option String
  pub client_user_agent : Option String
  pub score_preview_mode : String
  pub verify_viewer_token : String → Option String
  pub recover_by_token : String → Option PersistedHostedSession
  pub recover_by_id : String → Option PersistedHostedSession
  pub resolve_hosted_app_id : String → String
  pub extract_hosted_app_state : String → S → Json
  pub hydrate_hosted_app_state : String → Option Json → S
  pub default_goal_for_session : String → String → String
  pub default_start_path_for_app : String → String
  pub cache_reads : Bool
  pub cache_writes : Bool
  pub cache_deletes : Bool
  pub access_persists : Bool
  pub expiry_reports : Bool

-- The status of a row, if it is one of a session.
abbrev pub status_of_text : String → Option HostedSessionStatus
status_of_text s =
    if s == "created"
    then some created
    else if s == "active"
    then some active
    else if s == "completed"
    then some completed
    else if s == "failed"
    then some failed
    else if s == "cancelled"
    then some cancelled
    else if s == "expired"
    then some expired
    else none

abbrev pub is_cancelled : HostedSessionStatus → Bool
is_cancelled cancelled = true
is_cancelled _ = false

abbrev pub is_expired_status : HostedSessionStatus → Bool
is_expired_status expired = true
is_expired_status _ = false
