-- ===== src/Lifecycle/Completion.antt =====
-- `completePersistedSession`, up to the update that it hands to the database.
use agent_benchmark.Common.{
  Bool, List, String, Option, Map, ℕ, get_or, find, true, put, get, is_some, false, filter, ◌==◌,
  some, of_entries, not, if◌then◌else◌, map, ◌&&◌, none, is_empty, [], map_option, ◌⧺◌, ◌∷◌,
}
use agent_benchmark.Scoring.Number.{Number}
use agent_benchmark.Lifecycle.{
  AttemptStatus, ResultRow, AttemptLifecycleSession, SessionRow, running, failed, completed, Status,
}
use agent_benchmark.Scoring.Suite.{
  HostedWebSuiteScoreResult, HostedWebSuiteSessionScore, SuiteParams, aggregate_suite_score,
}
use agent_benchmark.Json.{Fields, Json, null, put_field, array, string, number, strings}
use agent_benchmark.Scoring.Capability.{CapabilityBreakdown}
use agent_benchmark.Scoring.Strict.{HostedWebScoreResult}
use agent_benchmark.Scoring.Scenario.{PublicScenarioGraphEvaluation}
use agent_benchmark.Scoring.{is_error, Status}
use agent_benchmark.Scoring.Consistency.{SuiteConsistencyCheck, evaluate_suite_consistency}

abbrev pub string_or_null : Option String → Json
string_or_null none = null
string_or_null (some s) = string s

abbrev pub index_or_null : Option ℕ → Json
index_or_null none = null
index_or_null (some i) = number i

abbrev pub progress : Fields → Option String → Option ℕ → List String → Fields
progress metadata active index completed_ids =
    put_field "completedSessionIds" (array (strings completed_ids)) (
      put_field "activeSequenceIndex" (index_or_null index)
        (put_field "activeSessionId" (string_or_null active) metadata))

-- `scoringSummary`: the sessions so far with those pending, or the aggregate.
pub data ScoringSummary (N : Type 0) : Type 0 where
  in_progress : List (HostedWebSuiteSessionScore N) → List String → ScoringSummary N
  scored : String → Status → List (HostedWebSuiteSessionScore N) → ScoringSummary N

pub record AttemptUpdate (N : Type 0) : Type 0 where
  pub complete : Bool
  pub status : AttemptStatus
  pub aggregate : Option (HostedWebSuiteScoreResult N)
  pub metadata : Fields
  pub scoring_summary : ScoringSummary N
  pub next_session_id : Option String

-- What the scoring of a whole attempt takes besides the sessions: the consistency checks that the
-- attempt's metadata holds, the capability evaluation, and the functions of texts that checks use.
pub record Evidence (N : Type 0) : Type 0 where
  pub checks : List (SuiteConsistencyCheck N)
  pub normalize : String → String
  pub digest : String → String
  pub capabilities : Option (CapabilityBreakdown N)
  pub scenario_graph : Option (PublicScenarioGraphEvaluation N)

-- `row.final_state ?? null`
abbrev pub state_or_null : Option Json → Json
state_or_null none = null
state_or_null (some v) = v

-- The final states of the earlier results that name their task, with a text that is not empty.
abbrev pub earlier_states : {N : Type 0} → List (ResultRow N) → Map Json → Map Json
earlier_states [] m = m
earlier_states (r ∷ rows) m = elim r.task_slug [
  | none ↦ earlier_states rows m
  | some slug ↦
      earlier_states rows (if slug == "" then m else put slug (state_or_null r.final_state) m)
]

-- `finalStateByTaskSlug`
unfoldable pub final_states :
    {N : Type 0} → AttemptLifecycleSession N → List (ResultRow N) → Map Json
final_states session results =
    put session.task_slug (state_or_null session.final_state) (earlier_states results [])

module _ {N : Type 0} ⦃n : Number N⦄ where
  abbrev pub score_of_row : ResultRow N → HostedWebSuiteSessionScore N
  score_of_row row = record {
    session_id = row.session_id;
    app = get_or row.app "unknown";
    task_slug = get_or row.task_slug "unknown";
    status = row.status;
    score = row.score;
    weight = row.weight;
    required = true;
  }

  abbrev pub find_row : String → List (SessionRow N) → Option (SessionRow N)
  find_row id rows = find (λ r. r.id == id) rows

  abbrev pub required_of : Option (SessionRow N) → Bool
  required_of none = true
  required_of (some row) = row.required

  abbrev pub score_of_session :
      AttemptLifecycleSession N
      → HostedWebScoreResult N
      → List (SessionRow N)
      → HostedWebSuiteSessionScore N
  score_of_session session result rows = record {
    session_id = session.id;
    app = session.app;
    task_slug = session.task_slug;
    status = result.status;
    score = result.score;
    weight = session.weight;
    required = required_of (find_row session.id rows);
  }

  -- `latestResultBySessionId`: later rows of a session replace earlier ones, the new result all.
  unfoldable pub latest_results :
      AttemptLifecycleSession N
      → HostedWebScoreResult N
      → List (ResultRow N)
      → List (SessionRow N)
      → Map (HostedWebSuiteSessionScore N)
  latest_results session result results rows =
      put session.id (score_of_session session result rows)
        (of_entries (map (λ r. (r.session_id, score_of_row r)) results) [])

  abbrev pub suite_session :
      Map (HostedWebSuiteSessionScore N) → SessionRow N → HostedWebSuiteSessionScore N
  suite_session latest row = record {
    session_id = row.id;
    app = row.app;
    task_slug = row.task_slug;
    status = elim (get row.id latest) [ none ↦ Status.failed | some r ↦ r.status ];
    score = elim (get row.id latest) [ none ↦ n.nought | some r ↦ r.score ];
    weight = row.weight;
    required = row.required;
  }

  abbrev pub is_done : Map (HostedWebSuiteSessionScore N) → SessionRow N → Bool
  is_done latest row = is_some (get row.id latest)

  -- `nextPendingSession`
  unfoldable pub next_pending :
      AttemptLifecycleSession N
      → Map (HostedWebSuiteSessionScore N)
      → List (SessionRow N)
      → Option (SessionRow N)
  next_pending session latest rows =
      elim (find (λ r. not (is_done latest r) && not (r.id == session.id)) rows) [
        | some row ↦ some row
        | none ↦ find (λ r. not (is_done latest r)) rows
      ]

  abbrev pub suite_params :
      AttemptLifecycleSession N
      → List (ResultRow N)
      → List (HostedWebSuiteSessionScore N)
      → Evidence N
      → SuiteParams N
  suite_params session results sessions evidence = record {
    sessions = sessions;
    consistency = some (
        evaluate_suite_consistency evidence.normalize evidence.digest evidence.checks
          (final_states session results));
    capabilities = evidence.capabilities;
    scenario_graph = evidence.scenario_graph;
    pass_summary = some ("All required hosted sessions for " ⧺ session.suite_slug ⧺ " passed.");
    fail_summary =
        some ("One or more required hosted sessions for " ⧺ session.suite_slug ⧺ " failed.");
  }

  -- Sessions are still pending.
  unfoldable pub running_update :
      Fields
      → Option (SessionRow N)
      → Map (HostedWebSuiteSessionScore N)
      → List (SessionRow N)
      → AttemptUpdate N
  running_update metadata next latest rows = record {
    complete = false;
    status = running;
    aggregate = none;
    metadata =
        progress metadata (map_option (λ r. r.id) next) (map_option (λ r. r.sequence_index) next)
          (map (λ r. r.id) (filter (is_done latest) rows));
    scoring_summary =
        in_progress (map (suite_session latest) rows)
          (map (λ r. r.id) (filter (λ r. not (is_done latest r)) rows));
    next_session_id = map_option (λ r. r.id) next;
  }

  -- Every session has a result.
  unfoldable pub complete_update :
      Fields → HostedWebSuiteScoreResult N → List (SessionRow N) → AttemptUpdate N
  complete_update metadata aggregate rows = record {
    complete = true;
    status = if is_error aggregate.status then failed else completed;
    aggregate = some aggregate;
    metadata = progress metadata none none (map (λ r. r.id) rows);
    scoring_summary = scored aggregate.summary aggregate.status aggregate.sessions;
    next_session_id = none;
  }

  unfoldable pub attempt_update :
      AttemptLifecycleSession N
      → HostedWebScoreResult N
      → Fields
      → List (ResultRow N)
      → List (SessionRow N)
      → Evidence N
      → AttemptUpdate N
  unfolding latest_results next_pending running_update complete_update
  attempt_update session result metadata results rows evidence =
      let latest = latest_results session result results rows in
      let pending = filter (λ r. not (is_done latest r)) rows in
      if is_empty pending
      then complete_update metadata
          (aggregate_suite_score
            (suite_params session results (map (suite_session latest) rows) evidence))
          rows
      else running_update metadata (next_pending session latest rows) latest rows
