-- ===== src/Faults/Each.antt =====
-- Which faults are injected over the requests of a session, and that each one is at most once.
use agent_benchmark.Common.{
  ℕ, String, ◌≤◌, ◌≡◌, refl, ◌∙◌, ap, sym, Bool, true, false, ◌&&◌, ◌||◌, ◌==◌, Option, none, some,
  is_some, List, [], ◌∷◌, ◌++◌, map, arith, if◌then◌else◌, Bool-cases, Option-cases, find, any,
  is_empty, is_unique, length, suc, eq_refl, All, subst, ◌⊎◌, inr, inl,
}
use agent_benchmark.Json.{Json, Fields, get_field}
use agent_benchmark.Faults.{
  FaultAction, FaultKind, stale_view, rejected_mutation, interrupted_navigation, DeterministicFault,
  FaultRuntimeState,
}
use agent_benchmark.Faults.State.{step, inject, counted, unique, is_due, is_pending}
use agent_benchmark.Faults.Observe.{
  read_state, read_schedule, observe_deterministic_fault, empty_state,
}
use agent_benchmark.Faults.Persistence.{read_state-observe, read_schedule-observe, observe_all}
use agent_benchmark.Faults.Invariant.{empty_state-Inv}
use agent_benchmark.Faults.Limit.{
  injections, Tracks, observe-Tracks, injections_bounded, pending_blocks, step-idle,
}

abbrev pub kind_eq : FaultKind → FaultKind → Bool
kind_eq stale_view stale_view = true
kind_eq rejected_mutation rejected_mutation = true
kind_eq interrupted_navigation interrupted_navigation = true
kind_eq _ _ = false

-- The schedule has a fault with this identifier and kind.
abbrev pub is_scheduled : List DeterministicFault → String × FaultKind → Bool
is_scheduled faults (id, kind) = any (λ f. f.id == id && kind_eq f.kind kind) faults

-- The identifiers that come after the first list in the second.
unfoldable pub added : List String → List String → List String
added [] ids = ids
added (x ∷ xs) [] = []
added (x ∷ xs) (id ∷ ids) = added xs ids

-- The entries of a request, from the applied identifiers before and after it.
unfoldable pub log_entries :
    List String → List String → Option FaultKind → List (String × FaultKind)
unfolding added
log_entries before after none = []
log_entries before after (some kind) = map (λ id. (id, kind)) (added before after)

module _ (safe_parse : Json → Option DeterministicFault) where
  -- What each request with an injected fault adds to the applied identifiers, with the kind that it
  -- reports.
  unfoldable pub injected_log : Fields → List (List FaultAction) → List (String × FaultKind)
  unfolding log_entries
  injected_log m [] = []
  injected_log m (actions ∷ more) =
      let (m', o) = observe_deterministic_fault safe_parse m actions in
      let rest = injected_log m' more in
      log_entries (read_state m).applied_fault_ids (read_state m').applied_fault_ids o.injected
      ++ rest

kind_eq_refl : (k : FaultKind) → kind_eq k k ≡ true
kind_eq_refl stale_view = refl
kind_eq_refl rejected_mutation = refl
kind_eq_refl interrupted_navigation = refl

find-is_scheduled :
    (p : DeterministicFault → Bool) (faults : List DeterministicFault) (fault : DeterministicFault)
    → find p faults ≡ some fault
    → is_scheduled faults (fault.id, fault.kind) ≡ true
find-is_scheduled p [] fault e = cc
find-is_scheduled p (f ∷ fs) fault e = elim (Bool-cases (p f)) [
  | inl passes ↦
      let same : f ≡ fault = ground (arith, e, passes) in
      rw (sym same, eq_refl f.id, kind_eq_refl f.kind) refl
  | inr fails ↦ ground (arith, find-is_scheduled p fs fault (ground (arith, e, fails)))
]

added-append : (xs ys : List String) → added xs (xs ++ ys) ≡ ys
unfolding added
added-append [] ys = refl
added-append (x ∷ xs) ys = added-append xs ys

append_nil : (xs : List String) → xs ++ [] ≡ xs
append_nil [] = refl
append_nil (x ∷ xs) = ap (λ l. x ∷ l) (append_nil xs)

append_assoc : (xs ys zs : List String) → (xs ++ ys) ++ zs ≡ xs ++ (ys ++ zs)
append_assoc [] ys zs = refl
append_assoc (x ∷ xs) ys zs = ap (λ l. x ∷ l) (append_assoc xs ys zs)

-- Nothing is injected and nothing applied; or a fault of the schedule is, its identifier is applied and
-- its kind reported.
abbrev Cases : List DeterministicFault → List String → List String → Option FaultKind → Type 0
Cases faults before after injected =
    ((injected ≡ none) × (after ≡ before))
    ⊎ ((fault : DeterministicFault) × (is_scheduled faults (fault.id, fault.kind) ≡ true)
        × (injected ≡ some fault.kind)
        × (after ≡ before ++ fault.id ∷ []))

step-Cases :
    (faults : List DeterministicFault) (actions : List FaultAction) (s : FaultRuntimeState)
    → Cases faults s.applied_fault_ids
        (step faults actions s).0.applied_fault_ids
        (step faults actions s).1.injected
unfolding inject counted
step-Cases faults actions s = elim (Option-cases (find (is_pending s) faults)) [
  | inr (fault, waits) ↦
      let blocked = pending_blocks faults actions s fault waits in inl (blocked.0, blocked.1)
  | inl idle ↦ elim (step-idle faults actions s idle) [
    | inl quiet ↦ inl quiet
    | inr (fault, due, result) ↦ inr (
      fault,
      find-is_scheduled (is_due (counted (unique actions) s) (unique actions)) faults fault due,
      ap (λ r. r.1.injected) result,
      ap (λ r. r.0.applied_fault_ids) result,
    )
  ]
]

module _ (safe_parse : Json → Option DeterministicFault) where
  observe-Cases :
      (m : Fields) (actions : List FaultAction)
      → let (m', o) = observe_deterministic_fault safe_parse m actions in
        Cases
          (read_schedule safe_parse m)
          (read_state m).applied_fault_ids
          (read_state m').applied_fault_ids
          o.injected
  observe-Cases m actions =
      elim (Bool-cases (is_empty (read_schedule safe_parse m) || is_empty actions)) [
        | inl off ↦ unfold observe_deterministic_fault in (rw off (inl (refl, refl)))
        | inr on ↦
            rw (read_state-observe safe_parse m actions, on)
              (unfold observe_deterministic_fault in
                (rw on (step-Cases (read_schedule safe_parse m) actions (read_state m))))
      ]

  abbrev counted_with : ℕ → Option FaultKind → ℕ
  counted_with rest injected = if is_some injected then suc rest else rest

  -- The log holds what the final state has applied, one entry for each injection.
  record Logged (m : Fields) (requests : List (List FaultAction)) : Type 0 where
    applied :
        (read_state (observe_all safe_parse m requests)).applied_fault_ids
        ≡ (read_state m).applied_fault_ids ++ map (λ e. e.0) (injected_log safe_parse m requests)
    counted_once : length (injected_log safe_parse m requests) ≡ injections safe_parse m requests
    scheduled :
        All
          (λ e. is_scheduled (read_schedule safe_parse m) e ≡ true)
          (injected_log safe_parse m requests)

  injected_log-Logged : (requests : List (List FaultAction)) (m : Fields) → Logged m requests
  unfolding injected_log injections observe_all log_entries
  injected_log-Logged [] m = record {
    applied = sym (append_nil (read_state m).applied_fault_ids);
    counted_once = refl;
    scheduled = tt;
  }
  injected_log-Logged (actions ∷ more) m =
      let m' = (observe_deterministic_fault safe_parse m actions).0 in
      let rest = injected_log-Logged more m' in
      let kept = read_schedule-observe safe_parse m actions in
      let later : All (λ e. is_scheduled (read_schedule safe_parse m) e ≡ true)
          (injected_log safe_parse m' more) =
        subst (λ fs. All (λ e. is_scheduled fs e ≡ true) (injected_log safe_parse m' more)) kept
          rest.scheduled in
      let before = (read_state m).applied_fault_ids in
      let after = (read_state m').applied_fault_ids in
      let injected = (observe_deterministic_fault safe_parse m actions).1.injected in
      let logged = injected_log safe_parse m' more in
      let P : List (String × FaultKind) → Type 0 =
        All (λ e. is_scheduled (read_schedule safe_parse m) e ≡ true) in
      elim (observe-Cases m actions) [
        | inl (quiet, same) ↦
            let made : injected_log safe_parse m (actions ∷ more) ≡ logged =
              ap (λ i. log_entries before after i ++ logged) quiet in
            record {
              applied =
                  rest.applied
                  ∙ ap (λ ids. ids ++ map (λ e. e.0) logged) same
                  ∙ ap (λ l. before ++ map (λ e. e.0) l) (sym made);
              counted_once =
                  ap length made
                  ∙ rest.counted_once
                  ∙ ap (counted_with (injections safe_parse m' more)) (sym quiet);
              scheduled = subst P (sym made) later;
            }
        | inr (fault, listed, fired, grown) ↦
            let made : injected_log safe_parse m (actions ∷ more)
                ≡ (fault.id, fault.kind) ∷ logged =
              ap (λ i. log_entries before after i ++ logged) fired
              ∙ ap (λ ids. map (λ id. (id, fault.kind)) ids ++ logged)
                  (ap (added before) grown ∙ added-append before (fault.id ∷ [])) in
            record {
              applied =
                  rest.applied
                  ∙ ap (λ ids. ids ++ map (λ e. e.0) logged) grown
                  ∙ append_assoc before (fault.id ∷ []) (map (λ e. e.0) logged)
                  ∙ ap (λ l. before ++ map (λ e. e.0) l) (sym made);
              counted_once =
                  ap length made
                  ∙ ap suc rest.counted_once
                  ∙ ap (counted_with (injections safe_parse m' more)) (sym fired);
              scheduled = subst P (sym made) (listed, later);
            }
      ]

  observe_all-Tracks :
      (requests : List (List FaultAction)) (m : Fields)
      → Tracks safe_parse m
      → Tracks safe_parse (observe_all safe_parse m requests)
  unfolding observe_all
  observe_all-Tracks [] m t = t
  observe_all-Tracks (actions ∷ more) m t =
      observe_all-Tracks more (observe_deterministic_fault safe_parse m actions).0
        (observe-Tracks safe_parse m actions t)

  -- A session that starts without fault state has each fault of its schedule injected at most once,
  -- over any requests: every injection is of a fault of the schedule, with the kind that the request
  -- reports, no two are of one identifier, and there are no more of them than scheduled faults.
  pub injections_once :
      (m : Fields) (requests : List (List FaultAction))
      → get_field "scenarioFaultState" m ≡ none
      → let log = injected_log safe_parse m requests in
        (length log ≡ injections safe_parse m requests)
        × (is_unique (map (λ e. e.0) log) ≡ true)
        × All (λ e. is_scheduled (read_schedule safe_parse m) e ≡ true) log
        × (length log ≤ length (read_schedule safe_parse m))
  injections_once m requests fresh =
      let start : read_state m ≡ empty_state = unfold read_state in (rw (fresh, read_state)) in
      let logged = injected_log-Logged requests m in
      let final =
        observe_all-Tracks requests m
          (record { inv = rw start empty_state-Inv; scheduled = rw start tt }) in
      let ids : (read_state (observe_all safe_parse m requests)).applied_fault_ids
          ≡ map (λ e. e.0) (injected_log safe_parse m requests) =
        logged.applied
        ∙ ap (λ s. s.applied_fault_ids ++ map (λ e. e.0) (injected_log safe_parse m requests))
            start in
      (
        logged.counted_once,
        ap is_unique (sym ids) ∙ final.inv.applied_once,
        logged.scheduled,
        omega (arith, logged.counted_once, injections_bounded safe_parse m requests fresh),
      )
