-- ===== src/Sessions/Metadata.antt =====
-- apps/hosted-sites/src/runtime/session-store.ts: a session's metadata and the session of a row.
use agent_benchmark.Common.{String, not, ◌&&◌, ◌==◌, Option, none, some, if◌then◌else◌, get_or}
use agent_benchmark.Json.{
  Json, Fields, string, number, null, end, get_field, put_field, as_string, as_record,
}
use agent_benchmark.Sessions.{
  HostedSession, created, AccessMode, write, viewer, PersistedHostedSession, persist_snapshot,
  World, Deps, status_of_text,
}
use agent_benchmark.Sessions.Store.{cache_session, log}

abbrev pub text_or_null : Option String → Json
text_or_null none = null
text_or_null (some s) = string s

-- `typeof metadata[key] === "string" ? metadata[key] : fallback`
abbrev pub text_field : String → Fields → String → String
text_field key fs fallback = get_or (as_string (get_field key fs)) fallback

abbrev pub metadata_of : PersistedHostedSession → Fields
metadata_of row = get_or (as_record row.metadata) end

module _ {S : Type 0} where
  unfoldable pub build_session_metadata : Deps S → HostedSession S → Fields
  unfolding put_field
  build_session_metadata d s = put_field "appState" (d.extract_hosted_app_state s.app s.state) (
      put_field "startPath" (text_or_null s.start_path) (
        put_field "goal" (string s.goal) (
          put_field "title" (text_or_null s.title) (
            put_field "suiteVersion" (string s.suite_version) (
              put_field "suiteSlug" (string s.suite_slug)
                (put_field "schemaVersion" (number 1) s.metadata))))))

  unfoldable pub hydrate_session_from_metadata :
      Deps S → String → PersistedHostedSession → AccessMode → HostedSession S
  unfolding get_field
  hydrate_session_from_metadata d token row mode =
      let metadata = metadata_of row in
      let app = d.resolve_hosted_app_id row.app in
      record {
        id = row.id;
        token = token;
        access_mode = mode;
        run_id = row.run_id;
        case_id = row.case_id;
        attempt_id = row.attempt_id;
        callback_secret = none;
        app = app;
        suite_slug = text_field "suiteSlug" metadata row.task_slug;
        suite_version = text_field "suiteVersion" metadata "v1";
        task_slug = row.task_slug;
        task_version = row.task_version;
        score_preview_mode = d.score_preview_mode;
        sequence_index = row.sequence_index;
        weight = row.weight;
        required = row.required;
        title = as_string (get_field "title" metadata);
        goal = text_field "goal" metadata (d.default_goal_for_session row.app row.task_slug);
        start_path = some (text_field "startPath" metadata (d.default_start_path_for_app row.app));
        seed_version = row.seed_version;
        metadata = metadata;
        status = get_or (status_of_text row.status) created;
        expires_at = row.expires_at;
        access_count = get_or row.access_count 0;
        last_accessed_at = row.last_accessed_at;
        first_seen_ip = row.first_seen_ip;
        last_seen_ip = row.last_seen_ip;
        first_seen_user_agent = row.first_seen_user_agent;
        last_seen_user_agent = row.last_seen_user_agent;
        created_at = row.created_at;
        state = d.hydrate_hosted_app_state app (get_field "appState" metadata);
        persisted = not (row.status == "expired") && not (row.status == "cancelled");
      }

  -- A viewer's copy is never written back. Without persistence only the caches hold it.
  unfoldable pub persist_session_snapshot : Deps S → HostedSession S → World S → World S
  unfolding cache_session build_session_metadata
  persist_session_snapshot d s w = elim s.access_mode [
    | viewer ↦ w
    | write ↦
        let cached = cache_session d s w in
        if s.persisted
        then log (persist_snapshot s.id (build_session_metadata d s)) cached
        else cached
  ]
