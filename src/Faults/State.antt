-- ===== src/Faults/State.antt =====
-- The step of `observeDeterministicFault` on the parsed schedule and state.
use agent_benchmark.Common.{
  ◌+◌, Bool, true, false, not, ◌==◌, ◌&&◌, ◌||◌, Option, none, some, List, [], ◌∷◌, ◌++◌, find,
  contains, nat_eq, if◌then◌else◌,
}
use agent_benchmark.Faults.{
  FaultAction, read, mutation, navigation, FaultKind, DeterministicFault, Occurrences,
  FaultRuntimeState, Observation, action_eq, occurrences_of,
}

abbrev pub includes : FaultAction → List FaultAction → Bool
includes a [] = false
includes a (b ∷ bs) = action_eq b a || includes a bs

abbrev pub without : FaultAction → List FaultAction → List FaultAction
without a [] = []
without a (b ∷ bs) = if action_eq b a then without a bs else b ∷ without a bs

-- `[...new Set(actions)]`: the first of equal actions stays.
abbrev pub unique : List FaultAction → List FaultAction
unique [] = []
unique (a ∷ more) = a ∷ without a (unique more)

abbrev pub increment : FaultAction → Occurrences → Occurrences
increment read o = record o { reads = o.reads + 1 }
increment mutation o = record o { mutations = o.mutations + 1 }
increment navigation o = record o { navigations = o.navigations + 1 }

abbrev pub count_actions : List FaultAction → Occurrences → Occurrences
count_actions [] o = o
count_actions (a ∷ more) o = count_actions more (increment a o)

abbrev pub is_pending : FaultRuntimeState → DeterministicFault → Bool
is_pending s fault = elim s.pending_recovery_fault_id [ none ↦ false | some id ↦ fault.id == id ]

abbrev pub is_due : FaultRuntimeState → List FaultAction → DeterministicFault → Bool
is_due s actions fault =
    includes fault.trigger.action actions
    && nat_eq (occurrences_of fault.trigger.action s.occurrences) fault.trigger.occurrence
    && not (contains fault.id s.applied_fault_ids)

abbrev pub observed : Option FaultKind → Option FaultKind → Observation
observed injected recovered = record { changed = true; injected = injected; recovered = recovered }

-- The pending fault is found: its action recovers it, any other request only counts.
unfoldable pub recover :
    DeterministicFault → List FaultAction → FaultRuntimeState → FaultRuntimeState × Observation
recover fault actions s =
    if includes fault.trigger.action actions
    then (
      record s {
        recovered_fault_ids =
            if contains fault.id s.recovered_fault_ids
            then s.recovered_fault_ids
            else s.recovered_fault_ids ++ fault.id ∷ [];
        pending_recovery_fault_id = none;
      },
      observed none (some fault.kind),
    )
    else (s, observed none none)

unfoldable pub inject : DeterministicFault → FaultRuntimeState → FaultRuntimeState × Observation
inject fault s = (
  record s {
    applied_fault_ids = s.applied_fault_ids ++ fault.id ∷ [];
    pending_recovery_fault_id = if fault.required_recovery then some fault.id else none;
  },
  observed (some fault.kind) none,
)

unfoldable pub counted : List FaultAction → FaultRuntimeState → FaultRuntimeState
counted actions s = record s { occurrences = count_actions actions s.occurrences }

-- `uniqueActions` and the counted state are given.
unfoldable pub choose :
    List DeterministicFault → List FaultAction → FaultRuntimeState → FaultRuntimeState × Observation
unfolding recover inject
choose faults actions s = elim (find (is_pending s) faults) [
  | some fault ↦ recover fault actions s
  | none ↦ elim (find (is_due s actions) faults) [
    | some fault ↦ inject fault s
    | none ↦ (s, observed none none)
  ]
]

unfoldable pub step :
    List DeterministicFault → List FaultAction → FaultRuntimeState → FaultRuntimeState × Observation
unfolding choose counted
step faults actions s = choose faults (unique actions) (counted (unique actions) s)
