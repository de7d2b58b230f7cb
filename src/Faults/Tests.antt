-- ===== src/Faults/Tests.antt =====
-- A session with one scheduled fault: the second mutation is rejected, and the retry recovers it.
use agent_benchmark.Common.{
  true, Option, List, ◌≤◌, ◌≡◌, ◌∷◌, some, [], none, refl, length, is_unique, map, All,
}
use agent_benchmark.Json.{
  Json, Fields, field, end, number, object, array, cons, nil, string, get_field, put_field,
}
use agent_benchmark.Faults.{
  FaultAction, read, mutation, rejected_mutation, DeterministicFault, FaultRuntimeState,
  occurrences_of,
}
use agent_benchmark.Faults.State.{step}
use agent_benchmark.Faults.Observe.{
  read_state, write_state, read_schedule, empty_state, observe_deterministic_fault, state_json,
}
use agent_benchmark.Faults.Persistence.{
  read_state-write_state, read_state-observe_all, observe_all, step_all,
}
use agent_benchmark.Faults.Invariant.{Inv, empty_state-Inv, step-Inv}
use agent_benchmark.Faults.Counting.{step_counts_once}
use agent_benchmark.Faults.Each.{injected_log, log_entries, added, is_scheduled, injections_once}
use agent_benchmark.Faults.Limit.{
  IsDue, pending_blocks, injected-IsDue, injections, injections_bounded,
}

abbrev second_mutation : DeterministicFault
second_mutation = record {
  id = "reject-save";
  kind = rejected_mutation;
  trigger = record { action = mutation; occurrence = 2 };
  required_recovery = true;
}

abbrev parse_named : Json → Option DeterministicFault
parse_named (string id) = some (record second_mutation { id = id })
parse_named _ = none

abbrev scheduled : Fields
scheduled =
    field "scenarioFaultSchedule"
      (object (
        field "schemaVersion" (number 1)
          (field "faults" (array (cons (string "reject-save") nil)) end)))
      end

abbrev saves : List (List FaultAction)
saves =
    (mutation ∷ [])
    ∷ (mutation ∷ mutation ∷ [])
    ∷ (read ∷ [])
    ∷ (mutation ∷ [])
    ∷ (mutation ∷ [])
    ∷ []

one_injection : injections parse_named scheduled saves ≡ 1
unfolding injections observe_deterministic_fault read_schedule read_state write_state step get_field
    put_field state_json
one_injection = refl

injections_bounded_run : injections parse_named scheduled saves ≤ 1
unfolding read_schedule get_field
injections_bounded_run = injections_bounded parse_named scheduled saves refl

injections_once_example :
    let log = injected_log parse_named scheduled saves in
    (length log ≡ injections parse_named scheduled saves)
    × (is_unique (map (λ e. e.0) log) ≡ true)
    × All (λ e. is_scheduled (read_schedule parse_named scheduled) e ≡ true) log
    × (length log ≤ length (read_schedule parse_named scheduled))
unfolding get_field
injections_once_example = injections_once parse_named scheduled saves refl

injected_log_run :
    injected_log parse_named scheduled saves ≡ ("reject-save", rejected_mutation) ∷ []
unfolding injected_log log_entries added observe_deterministic_fault read_schedule read_state
    write_state step get_field put_field state_json
injected_log_run = refl

read_state-write_state_example : read_state (write_state empty_state scheduled) ≡ empty_state
read_state-write_state_example = read_state-write_state empty_state scheduled

read_state-observe_all_example :
    read_state (observe_all parse_named scheduled saves)
    ≡ step_all (read_schedule parse_named scheduled) saves (read_state scheduled)
read_state-observe_all_example = read_state-observe_all parse_named saves scheduled

abbrev before_due : FaultRuntimeState
before_due = record empty_state {
  occurrences = record { reads = 0; mutations = 1; navigations = 0 };
}

abbrev waiting : FaultRuntimeState
waiting = record {
  occurrences = record { reads = 0; mutations = 2; navigations = 0 };
  applied_fault_ids = "reject-save" ∷ [];
  recovered_fault_ids = [];
  pending_recovery_fault_id = some "reject-save";
}

step-Inv_example : Inv (step (second_mutation ∷ []) (mutation ∷ []) empty_state).0
step-Inv_example = step-Inv (second_mutation ∷ []) (mutation ∷ []) empty_state empty_state-Inv

step_counts_once_run :
    occurrences_of mutation
      (step (second_mutation ∷ []) (mutation ∷ mutation ∷ []) before_due).0.occurrences
    ≡ 2
step_counts_once_run =
    step_counts_once mutation (second_mutation ∷ []) (mutation ∷ mutation ∷ []) before_due

pending_blocks_run : (step (second_mutation ∷ []) (read ∷ []) waiting).1.injected ≡ none
pending_blocks_run =
    (pending_blocks (second_mutation ∷ []) (read ∷ []) waiting second_mutation refl).0

injected-IsDue_run : IsDue (second_mutation ∷ []) (mutation ∷ []) before_due rejected_mutation
unfolding step
injected-IsDue_run =
    (injected-IsDue (second_mutation ∷ []) (mutation ∷ []) before_due rejected_mutation refl).0
