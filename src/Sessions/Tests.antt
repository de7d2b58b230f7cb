-- ===== src/Sessions/Tests.antt =====
-- A session that is opened, and one that is expired.
use agent_benchmark.Common.{
  ℕ, [], ◌∷◌, ◌≡◌, refl, none, some, true, false, get_or, if◌then◌else◌, ◌==◌,
}
use agent_benchmark.Json.{Json, Fields, object, end, null, string}
use agent_benchmark.Sessions.{
  HostedSession, PersistedHostedSession, Deps, World, active, write, persist_access,
  session_expired,
}
use agent_benchmark.Sessions.Access.{get_session, granted, denied, threw}
use agent_benchmark.Sessions.Store.{accessed}
use agent_benchmark.Sessions.Granting.{Answers, get_session-Answers}

abbrev pub session : HostedSession Json
session = record {
  id = "hws1";
  token = "tok1";
  access_mode = write;
  run_id = some "run1";
  case_id = none;
  attempt_id = some "att1";
  callback_secret = none;
  app = "forum-lite";
  suite_slug = "suite";
  suite_version = "v2";
  task_slug = "task";
  task_version = "v1";
  score_preview_mode = "dev";
  sequence_index = 0;
  weight = 1;
  required = true;
  title = none;
  goal = "Find it";
  start_path = none;
  seed_version = none;
  metadata = end;
  status = active;
  expires_at = some 1000;
  access_count = 0;
  last_accessed_at = none;
  first_seen_ip = none;
  last_seen_ip = none;
  first_seen_user_agent = none;
  last_seen_user_agent = none;
  created_at = "t0";
  state = string "threads";
  persisted = true;
}

abbrev pub row : Fields → PersistedHostedSession
row metadata = record {
  id = "hws1";
  run_id = some "run1";
  case_id = none;
  attempt_id = some "att1";
  app = "forum-lite";
  task_slug = "task";
  task_version = "v1";
  sequence_index = 0;
  weight = 1;
  required = true;
  seed_version = none;
  status = "active";
  metadata = some (object metadata);
  created_at = "t0";
  expires_at = some 1000;
  access_count = none;
  last_accessed_at = none;
  first_seen_ip = none;
  last_seen_ip = none;
  first_seen_user_agent = none;
  last_seen_user_agent = none;
}

abbrev pub at : ℕ → Deps Json
at now = record {
  now_ms = now;
  client_ip = some "10.0.0.1";
  client_user_agent = none;
  score_preview_mode = "dev";
  verify_viewer_token = λ t. if t == "view" then some "hws1" else none;
  recover_by_token = λ t. if t == "tok1" then some (row end) else none;
  recover_by_id = λ i. if i == "hws1" then some (row end) else none;
  resolve_hosted_app_id = λ a. a;
  extract_hosted_app_state = λ a x. x;
  hydrate_hosted_app_state = λ a o. get_or o null;
  default_goal_for_session = λ a t. "goal";
  default_start_path_for_app = λ a. "/forum";
  cache_reads = true;
  cache_writes = true;
  cache_deletes = true;
  access_persists = true;
  expiry_reports = true;
}

abbrev pub world : World Json
world = record { sessions = []; cache = some (("tok1", session) ∷ []); effects = [] }

granted_run : (get_session (at 10) (some "tok1") world).1 ≡ granted (accessed (at 10) session)
unfolding get_session
granted_run = refl

expired_run : get_session (at 1000) (some "tok1") world ≡ (
  record {
    sessions = [];
    cache = some [];
    effects = persist_access "hws1" "session.expired_rejected" ∷ session_expired "att1" "hws1" ∷ [];
  },
  denied,
)
unfolding get_session
expired_run = refl

-- A report of the expiry that fails takes the request to the database, and fails there again.
unreported_run :
    (get_session (record (at 1000) { expiry_reports = false }) (some "tok1") world).1 ≡ threw
unfolding get_session
unreported_run = refl

get_session-Answers_example :
    Answers (at 10) (some "tok1") world (get_session (at 10) (some "tok1") world)
get_session-Answers_example = get_session-Answers (at 10) (some "tok1") world
