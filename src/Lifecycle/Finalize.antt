-- ===== src/Lifecycle/Finalize.antt =====
-- `finalizeSession`, with the database's answer to the completion.
use Prim.Native.String.{String}
use agent_benchmark.Common.{
  Bool, String, Option, some, is_some, if◌then◌else◌, List, ◌||◌, ◌&&◌, ◌==◌, ◌≡◌, none, get_or,
  false, true, Option-cases, subst, refl, inr, inl, ap, ◌∙◌,
}
use agent_benchmark.Scoring.Strict.{HostedWebScoreResult}
use agent_benchmark.Lifecycle.{
  AttemptLifecycleSession, Status, is_finalized, HostedSessionStatus, ResultRow, session_completed,
  SessionRow, session_failed,
}
use agent_benchmark.Scoring.Number.{Number}
use agent_benchmark.Scoring.Suite.{HostedWebSuiteScoreResult}
use agent_benchmark.Json.{Fields, as_string, get_field, string}
use agent_benchmark.Lifecycle.Completion.{attempt_update, Evidence, AttemptUpdate}
use agent_benchmark.Scoring.{Status, passed, error}

-- What `complete_hosted_attempt_session` answers.
pub record Transition (N : Type 0) : Type 0 where
  pub transitioned : Bool
  pub duplicate : Bool
  pub complete : Bool
  pub result : HostedWebScoreResult N
  pub aggregate : Option (HostedWebSuiteScoreResult N)

pub record Finalization (N : Type 0) : Type 0 where
  pub result : HostedWebScoreResult N
  pub complete : Bool
  pub aggregate : Option (HostedWebSuiteScoreResult N)
  pub duplicate : Bool

-- The exceptions.
pub data FinalizeError : Type 0 where
  not_persistable : FinalizeError
  not_active : String → FinalizeError
  conflict : FinalizeError

pub data Finalized (N : Type 0) : Type 0 where
  threw : FinalizeError → Finalized N
  finalized : Finalization N → AttemptLifecycleSession N → Finalized N

-- What is read before, and the database's answer to an update (`none` where it is no record).
pub record Database (N : Type 0) : Type 0 where
  pub latest_result : Option (HostedWebScoreResult N)
  pub metadata : Fields
  pub results : List (ResultRow N)
  pub rows : List (SessionRow N)
  pub evidence : Evidence N
  pub answer : AttemptUpdate N → Option (Transition N)

abbrev pub session_status : Status → HostedSessionStatus
session_status passed = session_completed
session_status _ = session_failed

-- Another session is the attempt's active one.
abbrev pub active_elsewhere : Option String → Option (Option String) → String → Option String
active_elsewhere attempt none id = none
active_elsewhere none (some active) id = none
active_elsewhere (some a) (some none) id = none
active_elsewhere (some a) (some (some active)) id =
    if active == "" || active == id then none else some a

session_status-is_finalized : (st : Status) → is_finalized (session_status st) ≡ true
session_status-is_finalized passed = refl
session_status-is_finalized Status.failed = refl
session_status-is_finalized error = refl

module _ {N : Type 0} ⦃n : Number N⦄ where
  abbrev pub accept : Option (Transition N) → Option (Finalization N)
  accept none = none
  accept (some t) =
      if t.transitioned || t.duplicate
      then some (record {
        result = t.result;
        complete = t.complete;
        aggregate = t.aggregate;
        duplicate = t.duplicate;
      })
      else none

  -- `completePersistedSession`
  unfoldable pub complete_persisted_session :
      Database N → AttemptLifecycleSession N → HostedWebScoreResult N → Option (Finalization N)
  complete_persisted_session db session result =
      accept (db.answer (attempt_update session result db.metadata db.results db.rows db.evidence))

  abbrev pub settle : AttemptLifecycleSession N → Finalization N → Finalized N
  settle session f = finalized f (record session { status = session_status f.result.status })

  abbrev pub is_identified : AttemptLifecycleSession N → Bool
  is_identified session = is_some session.run_id && is_some session.attempt_id

  abbrev pub concluded : AttemptLifecycleSession N → Option (Finalization N) → Finalized N
  concluded session none = threw conflict
  concluded session (some f) = settle session f

  unfoldable pub persist :
      Database N → AttemptLifecycleSession N → HostedWebScoreResult N → Finalized N
  persist db session result =
      if session.persisted
      then if is_identified session
        then concluded session (complete_persisted_session db session result)
        else threw not_persistable
      else settle session
          (record { result = result; complete = false; aggregate = none; duplicate = false })

  unfoldable pub finalize_session :
      Database N → AttemptLifecycleSession N → HostedWebScoreResult N → Finalized N
  unfolding persist
  finalize_session db session result =
      let active = as_string (get_field "activeSessionId" db.metadata) in
      if is_finalized session.status
      then finalized
          (record {
            result = get_or db.latest_result result;
            complete = false;
            aggregate = none;
            duplicate = true;
          })
          session
      else elim (active_elsewhere session.attempt_id (some active) session.id) [
        | some attempt ↦ threw (not_active attempt)
        | none ↦ persist db session result
      ]

  abbrev Coherent : Finalized N → Type 0
  Coherent (threw e) = Unit
  Coherent (finalized f s) = s.status ≡ session_status f.result.status

  concluded-Coherent :
      (session : AttemptLifecycleSession N) (f : Option (Finalization N))
      → Coherent (concluded session f)
  concluded-Coherent session none = tt
  concluded-Coherent session (some f) = refl

  if-Coherent :
      (b : Bool) (x y : Finalized N) → Coherent x → Coherent y → Coherent (if b then x else y)
  if-Coherent true x y h k = h
  if-Coherent false x y h k = k

  persist-Coherent :
      (db : Database N) (session : AttemptLifecycleSession N) (result : HostedWebScoreResult N)
      → Coherent (persist db session result)
  unfolding persist
  persist-Coherent db session result =
      let stored : Finalized N = concluded session (complete_persisted_session db session result) in
      let local : Finalization N = record {
        result = result;
        complete = false;
        aggregate = none;
        duplicate = false;
      } in
      if-Coherent session.persisted
        (if is_identified session then stored else threw not_persistable) (settle session local)
        (if-Coherent (is_identified session) stored (threw not_persistable)
          (concluded-Coherent session (complete_persisted_session db session result)) tt)
        refl

  finalize-Coherent :
      (db : Database N) (session : AttemptLifecycleSession N) (result : HostedWebScoreResult N)
      → is_finalized session.status ≡ false
      → Coherent (finalize_session db session result)
  unfolding finalize_session
  finalize-Coherent db session result new =
      elim (Option-cases (
        active_elsewhere session.attempt_id
          (some (as_string (get_field "activeSessionId" db.metadata))) session.id)) [
            | inl e ↦ rw (new, e, finalize_session) (persist-Coherent db session result)
            | inr (a, e) ↦ rw (new, e, finalize_session) tt
          ]

  -- A finalization that returns leaves the session completed or failed as its result passed or not,
  -- and finalizing that session again reports a duplicate without an update, whatever the database
  -- would answer by then.
  pub finalize_twice :
      (db later : Database N) (session s : AttemptLifecycleSession N)
      (result again : HostedWebScoreResult N) (f : Finalization N)
      → is_finalized session.status ≡ false
      → finalize_session db session result ≡ finalized f s
      → (s.status ≡ session_status f.result.status)
        × (finalize_session later s again
            ≡ finalized
                (record {
                  result = get_or later.latest_result again;
                  complete = false;
                  aggregate = none;
                  duplicate = true;
                })
                s)
  unfolding finalize_session
  finalize_twice db later session s result again f new e =
      let status : s.status ≡ session_status f.result.status =
        subst Coherent e (finalize-Coherent db session result new) in
      let done : is_finalized s.status ≡ true =
        ap is_finalized status ∙ session_status-is_finalized f.result.status in
      (status, rw (done, finalize_session) refl)

  -- While another session of the attempt is active, an unfinished session is refused.
  pub finalize_inactive :
      (db : Database N) (session : AttemptLifecycleSession N) (result : HostedWebScoreResult N)
      (attempt active : String)
      → is_finalized session.status ≡ false
      → session.attempt_id ≡ some attempt
      → get_field "activeSessionId" db.metadata ≡ some (string active)
      → (active == "") ≡ false
      → (active == session.id) ≡ false
      → finalize_session db session result ≡ threw (not_active attempt)
  unfolding finalize_session
  finalize_inactive db session result attempt active new a m named other =
      rw (new, a, m, named, other, finalize_session) refl
