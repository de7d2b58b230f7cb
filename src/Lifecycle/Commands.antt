-- ===== src/Lifecycle/Commands.antt =====
-- The commands `timeout-attempt`, `cancel-attempt` and `resolve-advance`. A read or a routine that
-- fails, or finds nothing, answers `none`.
use Prim.Native.String.{String, []}
use agent_benchmark.Lifecycle.{
  AttemptStatus, HostedSessionStatus, cancelled, is_open, session_expired, is_terminal,
}
use agent_benchmark.Common.{
  String, Bool, Option, List, ℕ, ◌⧺◌, map, false, some, true, if◌then◌else◌, [], find, filter,
  contains, ◌==◌, get_or, ◌&&◌, none, any, not, ◌∷◌, is_empty, is_some, ◌++◌,
}
use agent_benchmark.Json.{Fields}

pub record AttemptRow : Type 0 where
  pub status : AttemptStatus
  pub metadata : Fields

pub record TimedSession : Type 0 where
  pub id : String
  pub app : String
  pub task_slug : String
  pub sequence_index : ℕ
  pub status : HostedSessionStatus

-- `timeout_hosted_attempt`'s answer.
pub record TimeoutTransition : Type 0 where
  pub transitioned : Bool
  pub attempt_run_id : Option String
  pub expired_session_ids : Option (List String)

-- `scoringSummary` of a time-out.
pub record TimeoutSummary : Type 0 where
  pub summary : String
  pub timed_out_session_id : String
  pub timed_out_session_ids : List String
  pub sessions : List TimedSession

pub record TimeoutParams : Type 0 where
  pub attempt_id : String
  pub run_id : Option String
  pub expired_session_id : String
  pub expired_task_slug : String

pub record TimeoutDatabase : Type 0 where
  pub attempt : Option AttemptRow
  pub sessions : Option (List TimedSession)
  pub timeout_hosted_attempt : TimeoutSummary → Option TimeoutTransition

-- What a command does outside the database, in order.
pub data Effect : Type 0 where
  evict : List String → Effect
  invalidate_sessions : List String → Effect
  invalidate_projection : String → Effect
  forward_timeout : String → String → String → ℕ → Effect

pub record TimeoutResult : Type 0 where
  pub ok : Bool
  pub run_id : Option String
  pub summary : Option String

-- The routine is called with `requested`.
pub record TimeoutRun : Type 0 where
  pub result : TimeoutResult
  pub requested : Option TimeoutSummary
  pub effects : List Effect

abbrev pub timeout_text : String → String
timeout_text slug = "Hosted suite timed out after session " ⧺ slug ⧺ " expired before completion."

abbrev pub open_sessions : List TimedSession → List String
open_sessions rows = map (λ r. r.id) (filter (λ r. is_open r.status) rows)

abbrev pub expired_row : List String → TimedSession → TimedSession
expired_row expired r = record r {
  status = if contains r.id expired then session_expired else r.status;
}

abbrev pub timeout_summary : TimeoutParams → List TimedSession → TimeoutSummary
timeout_summary p rows = record {
  summary = timeout_text p.expired_task_slug;
  timed_out_session_id = p.expired_session_id;
  timed_out_session_ids = open_sessions rows;
  sessions = map (expired_row (open_sessions rows)) rows;
}

abbrev pub not_timed_out : TimeoutParams → Option String → Option TimeoutSummary → TimeoutRun
not_timed_out p summary requested = record {
  result = record { ok = false; run_id = p.run_id; summary = summary };
  requested = requested;
  effects = [];
}

-- `timeoutTransition.attempt_run_id ?? params.runId`
abbrev pub run_of : Option String → Option String → Option String
run_of none given = given
run_of (some r) given = some r

abbrev pub forward : TimeoutParams → Option String → List Effect
forward p none = []
forward p (some run) =
    if run == ""
    then []
    else invalidate_projection run
      ∷ forward_timeout p.attempt_id run (timeout_text p.expired_task_slug) 0
      ∷ []

unfoldable pub timed_out : TimeoutParams → List TimedSession → Option TimeoutTransition → TimeoutRun
timed_out p rows none =
    not_timed_out p (some (timeout_text p.expired_task_slug)) (some (timeout_summary p rows))
timed_out p rows (some t) =
    if t.transitioned
    then record {
      result = record {
        ok = true;
        run_id = run_of t.attempt_run_id p.run_id;
        summary = some (timeout_text p.expired_task_slug);
      };
      requested = some (timeout_summary p rows);
      effects =
          evict (get_or t.expired_session_ids (open_sessions rows))
          ∷ forward p (run_of t.attempt_run_id p.run_id);
    }
    else not_timed_out p (some (timeout_text p.expired_task_slug)) (some (timeout_summary p rows))

-- `timeoutAttemptFromExpiredSession`
unfoldable pub timeout_attempt : TimeoutDatabase → TimeoutParams → TimeoutRun
unfolding timed_out
timeout_attempt db p = elim db.attempt [
  | none ↦ not_timed_out p none none
  | some attempt ↦
      if is_terminal attempt.status then not_timed_out p none none else elim db.sessions [
        | none ↦ not_timed_out p none none
        | some rows ↦ timed_out p rows (db.timeout_hosted_attempt (timeout_summary p rows))
      ]
]

-- `cancel_hosted_attempt`'s answer.
pub record CancelTransition : Type 0 where
  pub attempt_found : Bool
  pub transitioned : Bool
  pub attempt_id : Option String
  pub attempt_status : AttemptStatus
  pub cancelled_session_ids : List String

-- The status `not_initialized` is `none`.
pub record CancelResult : Type 0 where
  pub ok : Bool
  pub attempt_id : Option String
  pub status : Option AttemptStatus
  pub transitioned : Bool

abbrev pub is_cancelled : AttemptStatus → Bool
is_cancelled cancelled = true
is_cancelled _ = false

unfoldable pub cancelled_effects : String → CancelTransition → List Effect
cancelled_effects run t =
    (if is_cancelled t.attempt_status && not (is_empty t.cancelled_session_ids)
      then invalidate_sessions t.cancelled_session_ids ∷ []
      else [])
    ++ (if t.transitioned
        then evict t.cancelled_session_ids ∷ invalidate_projection run ∷ []
        else [])

-- `executeCancelAttemptCommand`; `none` is the exception of a routine without result.
unfoldable pub cancel_attempt :
    String → Option CancelTransition → Option (CancelResult × List Effect)
unfolding cancelled_effects
cancel_attempt run none = none
cancel_attempt run (some t) =
    if t.attempt_found
    then some (
      record {
        ok = is_cancelled t.attempt_status;
        attempt_id = t.attempt_id;
        status = some t.attempt_status;
        transitioned = t.transitioned;
      },
      cancelled_effects run t,
    )
    else some (record { ok = true; attempt_id = none; status = none; transitioned = false }, [])

pub record AdvanceSession : Type 0 where
  pub id : String
  pub sequence_index : ℕ
  pub token : String
  pub start_path : Option String
  pub app : String

pub record ReadModel : Type 0 where
  pub active_session_id : Option String
  pub sessions : List AdvanceSession

pub record Advance : Type 0 where
  pub valid : Bool
  pub complete : Bool
  pub next_session : Option AdvanceSession

abbrev pub find_session : String → List AdvanceSession → Option AdvanceSession
find_session id sessions = find (λ s. s.id == id) sessions

abbrev pub active_session : ReadModel → Option AdvanceSession
active_session m = elim m.active_session_id [ none ↦ none | some id ↦ find_session id m.sessions ]

-- `resolveAdvance`
unfoldable pub resolve_advance : ReadModel → String → Advance
resolve_advance m current =
    if any (λ s. s.id == current) m.sessions
    then record {
      valid = true;
      complete = not (is_some m.active_session_id);
      next_session = active_session m;
    }
    else record { valid = false; complete = false; next_session = none }
