-- ===== src/Faults/Observe.antt =====
-- `observeDeterministicFault` on the metadata of a session, where the schedule and the state are
-- JSON. `deterministicFaultSchema.safeParse` is a parameter, since zod is not part of the repository.
use agent_benchmark.Common.{
  ℕ, String, Bool, false, ◌||◌, Option, none, some, List, [], ◌∷◌, is_empty, nat_eq, if◌then◌else◌,
  get_or,
}
use agent_benchmark.Json.{
  Json, Items, nil, cons, Fields, end, field, null, number, string, array, object, get_field,
  put_field, as_record, as_natural, as_string, only_strings, strings,
}
use agent_benchmark.Faults.{FaultAction, DeterministicFault, FaultRuntimeState, Observation}
use agent_benchmark.Faults.State.{step}

-- `raw.schemaVersion === 1`
abbrev has_version_one : Fields → Bool
has_version_one raw = elim (get_field "schemaVersion" raw) [
  | some v ↦ elim v [ number n ↦ nat_eq n 1 | _ ↦ false ]
  | none ↦ false
]

abbrev pub empty_state : FaultRuntimeState
empty_state = record {
  occurrences = record { reads = 0; mutations = 0; navigations = 0 };
  applied_fault_ids = [];
  recovered_fault_ids = [];
  pending_recovery_fault_id = none;
}

abbrev read_string_array : Option Json → List String
read_string_array (some (array vs)) = only_strings vs
read_string_array _ = []

abbrev count : String → Fields → ℕ
count action occurrences = get_or (as_natural (get_field action occurrences)) 0

state_of : Fields → Fields → FaultRuntimeState
state_of raw occurrences = record {
  occurrences = record {
    reads = count "read" occurrences;
    mutations = count "mutation" occurrences;
    navigations = count "navigation" occurrences;
  };
  applied_fault_ids = read_string_array (get_field "appliedFaultIds" raw);
  recovered_fault_ids = read_string_array (get_field "recoveredFaultIds" raw);
  pending_recovery_fault_id = as_string (get_field "pendingRecoveryFaultId" raw);
}

state_of_record : Fields → FaultRuntimeState
unfolding state_of
state_of_record raw = elim (as_record (get_field "occurrences" raw)) [
  | none ↦ empty_state
  | some occurrences ↦ if has_version_one raw then state_of raw occurrences else empty_state
]

unfoldable pub read_state : Fields → FaultRuntimeState
unfolding state_of_record
read_state metadata = elim (as_record (get_field "scenarioFaultState" metadata)) [
  | none ↦ empty_state
  | some raw ↦ state_of_record raw
]

abbrev pub string_or_null : Option String → Json
string_or_null none = null
string_or_null (some s) = string s

-- The state as the JSON object that the assignment to `metadata.scenarioFaultState` leaves there.
unfoldable pub state_json : FaultRuntimeState → Json
state_json s = object (
    field "schemaVersion" (number 1) (
      field "occurrences"
        (object (
          field "read" (number s.occurrences.reads) (
            field "mutation" (number s.occurrences.mutations)
              (field "navigation" (number s.occurrences.navigations) end))))
        (field "appliedFaultIds" (array (strings s.applied_fault_ids)) (
          field "recoveredFaultIds" (array (strings s.recovered_fault_ids))
            (field "pendingRecoveryFaultId" (string_or_null s.pending_recovery_fault_id) end)))))

unfoldable pub write_state : FaultRuntimeState → Fields → Fields
write_state s metadata = put_field "scenarioFaultState" (state_json s) metadata

module _ (safe_parse : Json → Option DeterministicFault) where
  -- One fault that does not parse voids the schedule.
  parse_all : Items → Option (List DeterministicFault)
  parse_all nil = some []
  parse_all (cons v vs) = elim (safe_parse v) [
    | none ↦ none
    | some fault ↦ elim (parse_all vs) [ none ↦ none | some faults ↦ some (fault ∷ faults) ]
  ]

  faults_of : Option Json → List DeterministicFault
  unfolding parse_all
  faults_of (some (array vs)) = get_or (parse_all vs) []
  faults_of _ = []

  unfoldable pub read_schedule : Fields → List DeterministicFault
  unfolding faults_of
  read_schedule metadata = elim (as_record (get_field "scenarioFaultSchedule" metadata)) [
    | none ↦ []
    | some raw ↦ if has_version_one raw then faults_of (get_field "faults" raw) else []
  ]

  unfoldable pub observe_deterministic_fault : Fields → List FaultAction → Fields × Observation
  observe_deterministic_fault metadata actions =
      let faults = read_schedule metadata in
      if is_empty faults || is_empty actions
      then (metadata, record { changed = false; injected = none; recovered = none })
      else let (s, observation) = step faults actions (read_state metadata) in
        (write_state s metadata, observation)
