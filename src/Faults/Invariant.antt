-- ===== src/Faults/Invariant.antt =====
-- What holds of the fault state between two requests.
use agent_benchmark.Common.{
  String, ◌≡◌, true, false, Option, none, some, List, [], ◌∷◌, arith, eq_iff, Bool-cases,
  Option-cases, contains, is_unique, Subset, Subset-append, contains-append_self,
  is_unique-append_new, not-contains_of_Subset, find, find-passes, inl, inr, All-append,
}
use agent_benchmark.Faults.{FaultAction, DeterministicFault, FaultRuntimeState}
use agent_benchmark.Faults.State.{
  step, recover, inject, choose, counted, is_due, is_pending, includes, unique,
}
use agent_benchmark.Faults.Observe.{empty_state}

-- A pending recovery is of a fault that was applied and has not been recovered.
abbrev pub PendingApplied : Option String → List String → List String → Type 0
PendingApplied none applied recovered = Unit
PendingApplied (some id) applied recovered =
    (contains id applied ≡ true) × (contains id recovered ≡ false)

pub record Inv (s : FaultRuntimeState) : Type 0 where
  pub applied_once : is_unique s.applied_fault_ids ≡ true
  pub recovered_once : is_unique s.recovered_fault_ids ≡ true
  pub recovered_applied : Subset s.recovered_fault_ids s.applied_fault_ids
  pub pending_applied :
      PendingApplied s.pending_recovery_fault_id s.applied_fault_ids s.recovered_fault_ids

pub empty_state-Inv : Inv empty_state
empty_state-Inv = ground arith

inject-Inv :
    (fault : DeterministicFault) (s : FaultRuntimeState)
    → Inv s
    → contains fault.id s.applied_fault_ids ≡ false
    → Inv (inject fault s).0
unfolding inject
inject-Inv fault s v fresh = record {
  applied_once = is_unique-append_new fault.id s.applied_fault_ids v.applied_once fresh;
  recovered_once = v.recovered_once;
  recovered_applied =
      Subset-append s.recovered_fault_ids s.applied_fault_ids (fault.id ∷ []) v.recovered_applied;
  pending_applied = ground (
    arith,
    contains-append_self fault.id s.applied_fault_ids,
    not-contains_of_Subset fault.id s.recovered_fault_ids s.applied_fault_ids v.recovered_applied
        fresh,
  );
}

recover-Inv :
    (fault : DeterministicFault) (actions : List FaultAction) (s : FaultRuntimeState)
    → Inv s
    → is_pending s fault ≡ true
    → Inv (recover fault actions s).0
unfolding recover
recover-Inv fault actions s v pending = elim (Bool-cases (includes fault.trigger.action actions)) [
  | inl acted ↦
      rw (acted, waiting.1, recover)
        (record {
          applied_once = v.applied_once;
          recovered_once =
              is_unique-append_new fault.id s.recovered_fault_ids v.recovered_once waiting.1;
          recovered_applied =
              All-append (λ id. contains id s.applied_fault_ids ≡ true) s.recovered_fault_ids
                (fault.id ∷ []) v.recovered_applied (waiting.0, tt);
          pending_applied = tt;
        })
  | inr other ↦ rw (other, recover) v
]
  where
    waiting :
        (contains fault.id s.applied_fault_ids ≡ true)
        × (contains fault.id s.recovered_fault_ids ≡ false)
    waiting = elim (Option-cases s.pending_recovery_fault_id) [
      | inl e ↦ ground arith
      | inr (id, e) ↦ ground (arith, eq_iff fault.id id, v.pending_applied)
    ]

counted-Inv : (s : FaultRuntimeState) (actions : List FaultAction) → Inv s → Inv (counted actions s)
unfolding counted
counted-Inv s actions v = record {
  applied_once = v.applied_once;
  recovered_once = v.recovered_once;
  recovered_applied = v.recovered_applied;
  pending_applied = v.pending_applied;
}

choose-Inv :
    (faults : List DeterministicFault) (actions : List FaultAction) (s : FaultRuntimeState)
    → Inv s
    → Inv (choose faults actions s).0
unfolding choose
choose-Inv faults actions s v = elim (Option-cases (find (is_pending s) faults)) [
  | inr (fault, e) ↦ rw (e, choose) (recover-Inv fault actions s v (find-passes _ faults fault e))
  | inl e ↦ elim (Option-cases (find (is_due s actions) faults)) [
    | inl e' ↦ rw (e, e', choose) v
    | inr (fault, e') ↦
        rw (e, e', choose)
          (inject-Inv fault s v (ground (arith, find-passes (is_due s actions) faults fault e')))
  ]
]

-- One request keeps the invariant, whatever the schedule.
pub step-Inv :
    (faults : List DeterministicFault) (actions : List FaultAction) (s : FaultRuntimeState)
    → Inv s
    → Inv (step faults actions s).0
unfolding step
step-Inv faults actions s v =
    choose-Inv faults (unique actions) (counted (unique actions) s)
      (counted-Inv s (unique actions) v)
