-- ===== src/Faults/Limit.antt =====
-- When a fault is injected, and how often.
use agent_benchmark.Common.{
  ℕ, suc, ◌+◌, ◌≤◌, ◌≡◌, refl, Bool, true, false, ◌||◌, Option, none, some, List, [], ◌∷◌, map,
  arith, if◌then◌else◌, Bool-cases, Option-cases, find, find-passes, contains, is_some, is_empty,
  length, length-append, length-map, Subset, All-append, eq_iff, length-le_of_Subset, ◌⊎◌, inr, inl,
  subst, ◌∙◌, ap,
}
use agent_benchmark.Json.{Json, Fields, get_field}
use agent_benchmark.Faults.{
  FaultAction, FaultKind, DeterministicFault, FaultRuntimeState, occurrences_of,
}
use agent_benchmark.Faults.State.{
  includes, unique, counted, step, choose, recover, inject, is_due, is_pending,
}
use agent_benchmark.Faults.Counting.{includes-unique, occurrences_of-counted}
use agent_benchmark.Faults.Observe.{
  read_state, read_schedule, observe_deterministic_fault, empty_state,
}
use agent_benchmark.Faults.Persistence.{read_state-observe, read_schedule-observe}
use agent_benchmark.Faults.Invariant.{Inv, empty_state-Inv, step-Inv}

-- What a fault that is injected satisfies: it is in the schedule, the request has its action, this
-- is the scheduled occurrence of it, and the fault was not applied before.
pub record IsDue (faults : List DeterministicFault) (actions : List FaultAction)
    (s : FaultRuntimeState) (kind : FaultKind) : Type 0 where
  pub fault : DeterministicFault
  pub listed : contains fault.id (map (λ f. f.id) faults) ≡ true
  pub same_kind : fault.kind ≡ kind
  pub acted : includes fault.trigger.action actions ≡ true
  pub on_time : occurrences_of fault.trigger.action s.occurrences + 1 ≡ fault.trigger.occurrence
  pub fresh : contains fault.id s.applied_fault_ids ≡ false

find-contains :
    (p : DeterministicFault → Bool) (faults : List DeterministicFault) (fault : DeterministicFault)
    → find p faults ≡ some fault
    → contains fault.id (map (λ f. f.id) faults) ≡ true
find-contains p [] fault e = cc
find-contains p (f ∷ fs) fault e = ground (arith, eq_iff f.id fault.id, find-contains p fs fault)

step-pending :
    (faults : List DeterministicFault) (actions : List FaultAction) (s : FaultRuntimeState)
    (fault : DeterministicFault)
    → find (is_pending s) faults ≡ some fault
    → step faults actions s ≡ recover fault (unique actions) (counted (unique actions) s)
unfolding step choose counted
step-pending faults actions s fault e = rw (e, step, choose)

pub step-idle :
    (faults : List DeterministicFault) (actions : List FaultAction) (s : FaultRuntimeState)
    → find (is_pending s) faults ≡ none
    → (((step faults actions s).1.injected ≡ none)
        × ((step faults actions s).0.applied_fault_ids ≡ s.applied_fault_ids))
      ⊎ ((fault : DeterministicFault) × (find
              (is_due (counted (unique actions) s) (unique actions))
              faults
            ≡ some fault)
          × (step faults actions s ≡ inject fault (counted (unique actions) s)))
unfolding step choose counted
step-idle faults actions s e =
    elim (Option-cases (find (is_due (counted (unique actions) s) (unique actions)) faults)) [
      | inl none_due ↦ inl (rw (e, none_due, step, choose) (refl, refl))
      | inr (fault, due) ↦ inr (fault, due, rw (e, due, step, choose))
    ]

-- While a fault of the schedule waits for its recovery nothing is injected, and the request that
-- has its action is the one that recovers it.
pub pending_blocks :
    (faults : List DeterministicFault) (actions : List FaultAction) (s : FaultRuntimeState)
    (fault : DeterministicFault)
    → find (is_pending s) faults ≡ some fault
    → let (t, o) = step faults actions s in
      (o.injected ≡ none)
      × (t.applied_fault_ids ≡ s.applied_fault_ids)
      × (o.recovered ≡ (if includes fault.trigger.action actions then some fault.kind else none))
      × (t.pending_recovery_fault_id
          ≡ (if includes fault.trigger.action actions then none else s.pending_recovery_fault_id))
unfolding recover counted
pending_blocks faults actions s fault e =
    rw (step-pending faults actions s fault e)
      (ground (arith, includes-unique fault.trigger.action actions))

is_due-IsDue :
    (faults : List DeterministicFault) (actions : List FaultAction) (s : FaultRuntimeState)
    (fault : DeterministicFault)
    → find (is_due (counted (unique actions) s) (unique actions)) faults ≡ some fault
    → IsDue faults actions s fault.kind
is_due-IsDue faults actions s fault e =
    let due = find-passes (is_due (counted (unique actions) s) (unique actions)) faults fault e in
    let acted : includes fault.trigger.action actions ≡ true =
      ground (arith, includes-unique fault.trigger.action actions, due) in
    record {
      fault = fault;
      listed = find-contains (is_due (counted (unique actions) s) (unique actions)) faults fault e;
      same_kind = refl;
      acted = acted;
      on_time = ground (arith, due, acted, occurrences_of-counted fault.trigger.action actions s);
      fresh = unfold counted in (ground (arith, due));
    }

-- A fault is injected only if it is scheduled for this very occurrence of an action of the request,
-- was not applied before, and no recovery is pending.
pub injected-IsDue :
    (faults : List DeterministicFault) (actions : List FaultAction) (s : FaultRuntimeState)
    (kind : FaultKind)
    → (step faults actions s).1.injected ≡ some kind
    → IsDue faults actions s kind × (find (is_pending s) faults ≡ none)
unfolding inject
injected-IsDue faults actions s kind e = elim (Option-cases (find (is_pending s) faults)) [
  | inr (fault, waits) ↦ cc ((pending_blocks faults actions s fault waits).0, e)
  | inl idle ↦ elim (step-idle faults actions s idle) [
    | inl (quiet, _) ↦ cc (quiet, e)
    | inr (fault, due, result) ↦
        let same : fault.kind ≡ kind = ground (arith, result, e) in
        (subst (IsDue faults actions s) same (is_due-IsDue faults actions s fault due), idle)
  ]
]

module _ (faults : List DeterministicFault) (actions : List FaultAction)
    (s : FaultRuntimeState) where
  -- An injection adds one identifier, of the schedule, to those applied; any other request adds none.
  step_applied :
      ((step faults actions s).1.injected ≡ none
        → (step faults actions s).0.applied_fault_ids ≡ s.applied_fault_ids)
      × (length (step faults actions s).0.applied_fault_ids
          ≡ length s.applied_fault_ids
            + (if is_some (step faults actions s).1.injected then 1 else 0))
      × (Subset s.applied_fault_ids (map (λ f. f.id) faults)
          → Subset (step faults actions s).0.applied_fault_ids (map (λ f. f.id) faults))
  unfolding inject counted
  step_applied = elim (Option-cases (find (is_pending s) faults)) [
    | inr (fault, waits) ↦
        let q = pending_blocks faults actions s fault waits in
        rw (q.0, q.1) (λ _. refl, omega arith, λ h. h)
    | inl idle ↦ elim (step-idle faults actions s idle) [
      | inl quiet ↦ rw (quiet.0, quiet.1) (λ _. refl, omega arith, λ h. h)
      | inr (fault, due, result) ↦ rw result (
        λ e. cc,
        length-append s.applied_fault_ids (fault.id ∷ []),
        λ h.
            All-append (λ id. contains id (map (λ f. f.id) faults) ≡ true) s.applied_fault_ids
              (fault.id ∷ []) h
              (
                find-contains (is_due (counted (unique actions) s) (unique actions)) faults fault
                    due,
                tt,
              ),
      )
    ]
  ]

module _ (safe_parse : Json → Option DeterministicFault) where
  -- How many of the requests have a fault injected.
  unfoldable pub injections : Fields → List (List FaultAction) → ℕ
  injections m [] = 0
  injections m (actions ∷ more) =
      let (m', o) = observe_deterministic_fault safe_parse m actions in
      let rest = injections m' more in if is_some o.injected then suc rest else rest

  -- The applied identifiers are distinct and of the schedule.
  pub record Tracks (m : Fields) : Type 0 where
    pub inv : Inv (read_state m)
    pub scheduled :
        Subset (read_state m).applied_fault_ids (map (λ f. f.id) (read_schedule safe_parse m))

  pub observe-Tracks :
      (m : Fields) (actions : List FaultAction)
      → Tracks m
      → Tracks (observe_deterministic_fault safe_parse m actions).0
  unfolding observe_deterministic_fault
  observe-Tracks m actions t =
      elim (Bool-cases (is_empty (read_schedule safe_parse m) || is_empty actions)) [
        | inl off ↦ rw (off, observe_deterministic_fault) t
        | inr on ↦
            let faults = read_schedule safe_parse m in
            let state : read_state (observe_deterministic_fault safe_parse m actions).0
                ≡ (step faults actions (read_state m)).0 =
              read_state-observe safe_parse m actions ∙ (rw on) in
            record {
              inv = rw state (step-Inv faults actions (read_state m) t.inv);
              scheduled =
                  rw (state, read_schedule-observe safe_parse m actions)
                    ((step_applied faults actions (read_state m)).2 t.scheduled);
            }
      ]

  observe_applied :
      (m : Fields) (actions : List FaultAction)
      → length (read_state (observe_deterministic_fault safe_parse m actions).0).applied_fault_ids
        ≡ length (read_state m).applied_fault_ids
          + (if is_some (observe_deterministic_fault safe_parse m actions).1.injected then 1 else 0)
  observe_applied m actions =
      elim (Bool-cases (is_empty (read_schedule safe_parse m) || is_empty actions)) [
        | inl off ↦ unfold observe_deterministic_fault in (rw off (omega arith))
        | inr on ↦
            rw (read_state-observe safe_parse m actions, on)
              (unfold observe_deterministic_fault in
                (rw on ((step_applied (read_schedule safe_parse m) actions (read_state m)).1)))
      ]

  injections_counted :
      (requests : List (List FaultAction)) (m : Fields)
      → Tracks m
      → injections m requests + length (read_state m).applied_fault_ids
        ≤ length (read_schedule safe_parse m)
  unfolding injections
  injections_counted [] m t = omega (
    arith,
    length-le_of_Subset (read_state m).applied_fault_ids
        (map (λ f. f.id) (read_schedule safe_parse m)) t.inv.applied_once t.scheduled,
    length-map (read_schedule safe_parse m) (λ f. f.id),
  )
  injections_counted (actions ∷ more) m t =
      let m' = (observe_deterministic_fault safe_parse m actions).0 in
      let rest = injections_counted more m' (observe-Tracks m actions t) in
      ground (
        arith,
        rest,
        observe_applied m actions,
        ap length (read_schedule-observe safe_parse m actions),
      )

  -- A session that starts without fault state sees at most one injection for each fault of its
  -- schedule, over any requests.
  pub injections_bounded :
      (m : Fields) (requests : List (List FaultAction))
      → get_field "scenarioFaultState" m ≡ none
      → injections m requests ≤ length (read_schedule safe_parse m)
  injections_bounded m requests new =
      let start : read_state m ≡ empty_state = unfold read_state in (rw (new, read_state)) in
      omega (
        arith,
        injections_counted requests m
            (record { inv = rw start empty_state-Inv; scheduled = rw start tt }),
      )
