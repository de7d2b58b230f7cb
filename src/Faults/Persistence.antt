-- ===== src/Faults/Persistence.antt =====
-- The state as it is written to the metadata of a session and read back at the next request.
use agent_benchmark.Common.{
  String, ◌≡◌, refl, ◌∙◌, ap₂, false, ◌||◌, Option, none, some, List, [], ◌∷◌, arith, is_empty,
  if◌then◌else◌, ◌==◌,
}
use agent_benchmark.Json.{
  as_string, Json, Fields, get_field, get_field-put_field, get_field-put_field_self,
  only_strings-strings, as_string,
}
use agent_benchmark.Faults.{FaultAction, DeterministicFault, FaultRuntimeState}
use agent_benchmark.Faults.State.{step}
use agent_benchmark.Faults.Observe.{
  string_or_null, read_state, write_state, state_json, read_schedule, observe_deterministic_fault,
}

as_string-string_or_null : (p : Option String) → as_string (some (string_or_null p)) ≡ p
as_string-string_or_null none = refl
as_string-string_or_null (some s) = refl

-- What the assignment stores is what the next request reads.
pub read_state-write_state : (s : FaultRuntimeState) (m : Fields) → read_state (write_state s m) ≡ s
unfolding read_state write_state state_json get_field
read_state-write_state s m =
    rw (get_field-put_field_self "scenarioFaultState" (state_json s) m, read_state)
      (rw
        (
          only_strings-strings s.applied_fault_ids,
          only_strings-strings s.recovered_fault_ids,
          as_string-string_or_null s.pending_recovery_fault_id,
        )
        refl)

-- Writing the state leaves every other key of the metadata alone.
get_field-write_state :
    (k : String) (s : FaultRuntimeState) (m : Fields)
    → ("scenarioFaultState" == k) ≡ false
    → get_field k (write_state s m) ≡ get_field k m
unfolding write_state
get_field-write_state k s m h =
    ground (arith, get_field-put_field "scenarioFaultState" k (state_json s) m)

-- A request with no action does not count.
abbrev pub step_request :
    List DeterministicFault → List FaultAction → FaultRuntimeState → FaultRuntimeState
step_request faults actions s =
    if is_empty faults || is_empty actions then s else (step faults actions s).0

pub step_all :
    List DeterministicFault → List (List FaultAction) → FaultRuntimeState → FaultRuntimeState
step_all faults [] s = s
step_all faults (actions ∷ more) s = step_all faults more (step_request faults actions s)

module _ (safe_parse : Json → Option DeterministicFault) where
  read_schedule-write_state :
      (s : FaultRuntimeState) (m : Fields)
      → read_schedule safe_parse (write_state s m) ≡ read_schedule safe_parse m
  unfolding read_schedule
  read_schedule-write_state s m =
      rw (get_field-write_state "scenarioFaultSchedule" s m refl, read_schedule)

  -- The requests that a session makes, one list of actions each.
  unfoldable pub observe_all : Fields → List (List FaultAction) → Fields
  observe_all m [] = m
  observe_all m (actions ∷ more) =
      observe_all (observe_deterministic_fault safe_parse m actions).0 more

  pub read_state-observe :
      (m : Fields) (actions : List FaultAction)
      → read_state (observe_deterministic_fault safe_parse m actions).0
        ≡ step_request (read_schedule safe_parse m) actions (read_state m)
  unfolding observe_deterministic_fault
  read_state-observe m actions =
      ground (
        arith,
        read_state-write_state (step (read_schedule safe_parse m) actions (read_state m)).0 m,
      )

  pub read_schedule-observe :
      (m : Fields) (actions : List FaultAction)
      → read_schedule safe_parse (observe_deterministic_fault safe_parse m actions).0
        ≡ read_schedule safe_parse m
  unfolding observe_deterministic_fault
  read_schedule-observe m actions = ground (
    arith,
    read_schedule-write_state (step (read_schedule safe_parse m) actions (read_state m)).0 m,
  )

  -- Over any requests, what the metadata holds is the state machine run on the parsed state, under
  -- one schedule: nothing is lost between the write and the next read.
  pub read_state-observe_all :
      (requests : List (List FaultAction)) (m : Fields)
      → read_state (observe_all m requests)
        ≡ step_all (read_schedule safe_parse m) requests (read_state m)
  unfolding observe_all step_all
  read_state-observe_all [] m = refl
  read_state-observe_all (actions ∷ more) m =
      let m' = (observe_deterministic_fault safe_parse m actions).0 in
      read_state-observe_all more m'
      ∙ ap₂ (λ faults s. step_all faults more s) (read_schedule-observe m actions)
          (read_state-observe m actions)
