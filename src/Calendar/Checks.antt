-- ===== src/Calendar/Checks.antt =====
-- The number of checks until the actor's update appears.
use agent_benchmark.Common.{
  ℕ, List, ◌<◌, ◌∷◌, ◌≡◌, Bool, suc, length, any, leb, true, ◌≤◌, String, ◌+◌, [], arith, ◌↔◌,
  false, some, ◌++◌, ◌∙◌, ap, Option-cases, Bool-cases, if◌then◌else◌, length-append, inl, inr, not,
  ◌||◌,
}
use agent_benchmark.Calendar.{
  ActorUpdate, CalendarAvailabilityCheck, AppSessionState, CalendarEvent, visible_busy_events,
  BusyEvent,
}
use agent_benchmark.Calendar.Rechecks.{
  ExpectedEvent, is_updated, check_status, record_check, recheck_with,
  recheck_calendar_availability, new_check, provisional_event, same_clock, revised, head_check,
  recheck_all,
}

-- The checks are numbered from `n` on, and updated from the required number on.
abbrev pub Numbered : ℕ → ℕ → List CalendarAvailabilityCheck → Type 0
Numbered required n [] = Unit
Numbered required n (c ∷ cs) =
    (c.check_number ≡ n) × (c.status ≡ check_status required n) × Numbered required (suc n) cs

Numbered-append :
    (required n : ℕ) (cs : List CalendarAvailabilityCheck) (c : CalendarAvailabilityCheck)
    → Numbered required n cs
    → c.check_number ≡ n + length cs
    → c.status ≡ check_status required (n + length cs)
    → Numbered required n (cs ++ c ∷ [])
Numbered-append required n [] c h e f =
    let none_yet : n + 0 ≡ n = omega arith in
    (e ∙ none_yet, f ∙ ap (check_status required) none_yet, tt)
Numbered-append required n (d ∷ cs) c h e f =
    let shift : n + suc (length cs) ≡ suc n + length cs = omega arith in
    (
      h.0,
      h.1,
      Numbered-append required (suc n) cs c h.2 (e ∙ shift) (f ∙ ap (check_status required) shift),
    )

abbrev pub any_updated : List CalendarAvailabilityCheck → Bool
any_updated cs = any (λ c. is_updated c.status) cs

is_updated-check_status :
    (required number : ℕ) → is_updated (check_status required number) ≡ leb required number
is_updated-check_status required number = ground arith

any_updated_iff :
    (required n : ℕ) (cs : List CalendarAvailabilityCheck)
    → Numbered required (suc n) cs
    → (any_updated cs ≡ true) ↔ ((0 < length cs) × (required ≤ n + length cs))
any_updated_iff required n [] h = ground arith
any_updated_iff required n (c ∷ cs) h =
    let here : is_updated c.status ≡ leb required (suc n) =
      ap is_updated h.1 ∙ is_updated-check_status required (suc n) in
    ground (arith, here, any_updated_iff required (suc n) cs h.2)

updated_lem :
    (required : ℕ) (cs : List CalendarAvailabilityCheck)
    → 0 < required
    → Numbered required 1 cs
    → leb required (length cs) ≡ any_updated cs
updated_lem required cs positive h = ground (arith, positive, any_updated_iff required 0 cs h)

record Inv (update : ActorUpdate) (s : AppSessionState) : Type 0 where
  numbered : Numbered update.required_rechecks 1 s.calendar_availability_checks
  bounded : length s.calendar_availability_checks ≤ update.required_rechecks

module _ (expected : ExpectedEvent) (update : ActorUpdate)
    (positive : 0 < update.required_rechecks) where
  record_check-Inv :
      (s : AppSessionState) (id now : String) (event : CalendarEvent)
      → Inv update s
      → any_updated s.calendar_availability_checks ≡ false
      → Inv update (record_check update s id now event).0
  unfolding record_check
  record_check-Inv s id now event v waits =
      let checks = s.calendar_availability_checks in
      let next : length checks + 1 ≡ 1 + length checks = omega arith in
      record {
        numbered =
            Numbered-append update.required_rechecks 1 checks (new_check update s id now event)
              v.numbered next (ap (check_status update.required_rechecks) next);
        bounded = ground (
          arith,
          positive,
          waits,
          length-append checks (new_check update s id now event ∷ []),
          any_updated_iff update.required_rechecks 0 checks v.numbered,
        );
      }

  recheck_with-Inv :
      (s : AppSessionState) (id now : String)
      → Inv update s
      → any_updated s.calendar_availability_checks ≡ false
      → Inv update (recheck_with expected update s id now).0
  unfolding recheck_with
  recheck_with-Inv s id now v waits = elim (Option-cases (provisional_event expected update s)) [
    | inl lost ↦ rw (lost, recheck_with) v
    | inr (event, found) ↦
        elim (Bool-cases (
          not (same_clock event.start_time update.provisional_start_time)
          || revised (head_check s.calendar_availability_checks) event)) [
            | inl changed ↦ rw (found, changed, recheck_with) v
            | inr same ↦ rw (found, same, recheck_with) (record_check-Inv s id now event v waits)
          ]
  ]

  recheck-Inv :
      (s : AppSessionState) (id now : String)
      → Inv update s
      → Inv update (recheck_calendar_availability expected (some update) s id now).0
  unfolding recheck_calendar_availability
  recheck-Inv s id now v = elim (Bool-cases (any_updated s.calendar_availability_checks)) [
    | inl applied ↦ rw (applied, recheck_calendar_availability) v
    | inr waits ↦ rw (waits, recheck_calendar_availability) (recheck_with-Inv s id now v waits)
  ]

  recheck_all-Inv :
      (attempts : List (List CalendarEvent × String × String)) (s : AppSessionState)
      → Inv update s
      → Inv update (recheck_all expected update s attempts)
  unfolding recheck_all
  recheck_all-Inv [] s v = v
  recheck_all-Inv ((events, id, now) ∷ more) s v = recheck_all-Inv more _ (
      recheck-Inv (record s { calendar_events = events }) id now
        (record { numbered = v.numbered; bounded = v.bounded }))

  -- Over any rechecks and any changes of the events in between, the checks are numbered from 1, there
  -- are never more than required, and the actor's commitment becomes visible with the check that is
  -- marked as updated, the last required one.
  pub rechecks_bounded :
      (attempts : List (List CalendarEvent × String × String)) (events : List CalendarEvent)
      (busy : List BusyEvent)
      → let start : AppSessionState = record {
        calendar_events = events;
        calendar_availability_checks = [];
      } in
        let checks = (recheck_all expected update start attempts).calendar_availability_checks in
        Numbered update.required_rechecks 1 checks
        × (length checks ≤ update.required_rechecks)
        × (visible_busy_events busy (some update) (length checks)
            ≡ (if any_updated checks then busy ++ update.busy_event ∷ [] else busy))
  unfolding visible_busy_events
  rechecks_bounded attempts events busy =
      let start : AppSessionState = record {
        calendar_events = events;
        calendar_availability_checks = [];
      } in
      let v = recheck_all-Inv attempts start (record { numbered = tt; bounded = omega arith }) in
      (
        v.numbered,
        v.bounded,
        ap (λ b. if b then busy ++ update.busy_event ∷ [] else busy)
            (updated_lem update.required_rechecks
              (recheck_all expected update start attempts).calendar_availability_checks positive
              v.numbered),
      )
