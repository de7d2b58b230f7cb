-- ===== src/Lifecycle/Tests.antt =====
-- An attempt of two sessions, and the commands at concrete answers.
use agent_benchmark.Lifecycle.Commands.{
  evict, invalidate_projection, forward_timeout, AdvanceSession, timeout_text,
}
use agent_benchmark.Scoring.{Status, passed}
use agent_benchmark.Json.{end, field, string, get_field}
use agent_benchmark.Common.{
  String, List, ◌∷◌, ◌≡◌, some, true, [], none, false, ◌↔◌, All, ◌⊎◌, refl, get, put, of_entries,
}
use agent_benchmark.Lifecycle.{
  AttemptLifecycleSession, ResultRow, AttemptStatus, SessionRow, running, cancelled, session_active,
  session_completed,
}
use agent_benchmark.Scoring.Strict.{HostedWebScoreResult}
use agent_benchmark.Lifecycle.Completion.{
  Evidence, attempt_update, suite_session, latest_results, next_pending, running_update,
  complete_update,
}
use agent_benchmark.Lifecycle.Finalize.{
  Database, Finalization, finalize_session, persist, complete_persisted_session, threw, not_active,
  finalize_inactive, session_status, finalized, finalize_twice,
}
use agent_benchmark.Lifecycle.Commands.{
  TimeoutParams, timeout_attempt, ReadModel, resolve_advance, CancelTransition, CancelResult,
  TimeoutDatabase, timed_out, Effect, evict, cancel_attempt,
}
use agent_benchmark.Lifecycle.Outcomes.{
  Reports, timeout_attempt-Reports, timeout_finished, resolve_advance_lem, cancel_attempt_lem,
}
use agent_benchmark.Scoring.Number.{Decimal, decimal}
use agent_benchmark.Lifecycle.Progress.{
  suite_session_new, has_result, update_complete_iff, GoesOn, update-GoesOn,
}

abbrev attempt_session : AttemptLifecycleSession Decimal
attempt_session = record {
  id = "s2";
  run_id = some "r";
  attempt_id = some "a";
  app = "wiki-lite";
  task_slug = "t2";
  suite_slug = "suite";
  weight = 1;
  status = session_active;
  persisted = true;
  final_state = none;
}

abbrev passed_result : HostedWebScoreResult Decimal
passed_result = record { score = 10000; status = passed; summary = "yes"; evaluators = [] }

abbrev session_row : String → SessionRow Decimal
session_row id = record {
  id = id;
  app = "wiki-lite";
  task_slug = id;
  weight = 1;
  required = true;
  sequence_index = 0;
}

abbrev earlier : ResultRow Decimal
earlier = record {
  session_id = "s1";
  app = none;
  task_slug = none;
  score = 5000;
  status = Status.failed;
  weight = 1;
  final_state = none;
}

abbrev no_evidence : Evidence Decimal
no_evidence = record {
  checks = [];
  normalize = λ s. s;
  digest = λ s. s;
  capabilities = none;
  scenario_graph = none;
}

abbrev two_rows : List (SessionRow Decimal)
two_rows = session_row "s1" ∷ session_row "s2" ∷ []

update_complete_iff_example :
    ((attempt_update attempt_session passed_result end (earlier ∷ []) two_rows no_evidence).complete
      ≡ true)
    ↔ All (λ row. has_result attempt_session (earlier ∷ []) row ≡ true) two_rows
update_complete_iff_example =
    update_complete_iff attempt_session passed_result end (earlier ∷ []) two_rows no_evidence

update-GoesOn_example :
    GoesOn attempt_session passed_result end [] two_rows no_evidence
      (attempt_update attempt_session passed_result end [] two_rows no_evidence)
unfolding attempt_update latest_results next_pending running_update complete_update get put
    of_entries
update-GoesOn_example = update-GoesOn attempt_session passed_result end [] two_rows no_evidence refl

suite_session_new_run :
    (suite_session
      (latest_results attempt_session passed_result (earlier ∷ []) two_rows)
      (session_row "s2")).score
    ≡ 10000
suite_session_new_run =
    suite_session_new attempt_session passed_result end (earlier ∷ []) two_rows no_evidence
      (session_row "s2") refl

abbrev database : Database Decimal
database = record {
  latest_result = none;
  metadata = field "activeSessionId" (string "s2") end;
  results = [];
  rows = two_rows;
  evidence = no_evidence;
  answer = λ u. some (record {
    transitioned = true;
    duplicate = false;
    complete = u.complete;
    result = passed_result;
    aggregate = u.aggregate;
  });
}

abbrev finalization : Finalization Decimal
finalization = record {
  result = passed_result;
  complete = false;
  aggregate = none;
  duplicate = false;
}

finalize_twice_example :
    let s = record attempt_session { status = session_completed } in
    (session_completed ≡ session_status passed)
    × (finalize_session database s passed_result
        ≡ finalized
            (record {
              result = passed_result;
              complete = false;
              aggregate = none;
              duplicate = true;
            })
            s)
unfolding finalize_session persist complete_persisted_session attempt_update latest_results
    next_pending running_update complete_update get put of_entries get_field
finalize_twice_example =
    finalize_twice database database attempt_session
      (record attempt_session { status = session_completed }) passed_result passed_result
      finalization refl refl

finalize_inactive_run :
    finalize_session database (record attempt_session { id = "s1" }) passed_result
    ≡ threw (not_active "a")
unfolding get_field
finalize_inactive_run =
    finalize_inactive database (record attempt_session { id = "s1" }) passed_result "a" "s2" refl
      refl refl refl refl

abbrev timeout_database : AttemptStatus → TimeoutDatabase
timeout_database status = record {
  attempt = some (record { status = status; metadata = end });
  sessions = some [];
  timeout_hosted_attempt =
      λ s. some (record { transitioned = true; attempt_run_id = none; expired_session_ids = none });
}

abbrev params : TimeoutParams
params = record {
  attempt_id = "a";
  run_id = some "r";
  expired_session_id = "s1";
  expired_task_slug = "t1";
}

timeout_run :
    (timeout_attempt (timeout_database running) params).effects
    ≡ evict [] ∷ invalidate_projection "r" ∷ forward_timeout "a" "r" (timeout_text "t1") 0 ∷ []
unfolding timeout_attempt timed_out
timeout_run = refl

timeout_attempt-Reports_run :
    Reports (timeout_database running) params (timeout_attempt (timeout_database running) params)
timeout_attempt-Reports_run = timeout_attempt-Reports (timeout_database running) params

timeout_finished_run :
    ((timeout_attempt (timeout_database cancelled) params).requested ≡ none)
    × ((timeout_attempt (timeout_database cancelled) params).effects ≡ [])
    × ((timeout_attempt (timeout_database cancelled) params).result.ok ≡ false)
timeout_finished_run =
    timeout_finished (timeout_database cancelled) params
      (record { status = cancelled; metadata = end }) refl refl

abbrev model : ReadModel
model = record { active_session_id = some "s1"; sessions = [] }

resolve_advance_lem_run :
    ((resolve_advance model "s1").valid ≡ false)
    × (((resolve_advance model "s1").complete ≡ true)
        ↔ (((resolve_advance model "s1").valid ≡ true) × (model.active_session_id ≡ none)))
    × ((s : AdvanceSession)
        → (resolve_advance model "s1").next_session ≡ some s
        → model.active_session_id ≡ some s.id)
resolve_advance_lem_run = resolve_advance_lem model "s1"

abbrev transition : CancelTransition
transition = record {
  attempt_found = true;
  transitioned = true;
  attempt_id = some "a";
  attempt_status = cancelled;
  cancelled_session_ids = "s1" ∷ [];
}

cancel_attempt_lem_run :
    (r : CancelResult) × (effects : List Effect) × (cancel_attempt "r" (some transition)
      ≡ some (r, effects))
    × ((r.ok ≡ true) ↔ ((true ≡ false) ⊎ (cancelled ≡ cancelled)))
    × ((r.transitioned ≡ true) ↔ ((true ≡ true) × (true ≡ true)))
    × (true ≡ false → effects ≡ [])
cancel_attempt_lem_run = cancel_attempt_lem "r" transition
