-- ===== src/Calendar/Rechecks.antt =====
-- `recheckCalendarAvailability`: the tentative event is tracked until the actor's update appears.
use agent_benchmark.Common.{
  String, ℕ, Option, List, Bool, none, some, ◌∷◌, if◌then◌else◌, false, nat_eq, true, ◌==◌, find,
  leb, length, not, any, ◌++◌, ◌+◌, [], ◌&&◌, ◌||◌,
}
use agent_benchmark.Calendar.{
  CalendarAvailabilityCheck, CheckStatus, Clock, ActorUpdate, CalendarEvent, AppSessionState,
  updated, pending,
}

-- What the task's configuration expects of the tentative event, its addresses in lower case.
pub record ExpectedEvent : Type 0 where
  pub date : String
  pub duration_minutes : ℕ
  pub attendee_email : String
  pub secondary_attendee_email : Option String

pub data RecheckError : Type 0 where
  no_pending_update already_applied keep_tracked_event create_tentative_event : RecheckError

pub data RecheckResult : Type 0 where
  refused : RecheckError → RecheckResult
  checked : CalendarAvailabilityCheck → String → RecheckResult

abbrev pub is_updated : CheckStatus → Bool
is_updated pending = false
is_updated updated = true

abbrev pub same_clock : Clock → Clock → Bool
same_clock a b = nat_eq a.hours b.hours && nat_eq a.minutes b.minutes

abbrev pub same_optional : Option String → Option String → Bool
same_optional none none = true
same_optional (some a) (some b) = a == b
same_optional _ _ = false

abbrev pub is_provisional : ExpectedEvent → ActorUpdate → CalendarEvent → Bool
is_provisional expected update event =
    event.date == expected.date
    && same_clock event.start_time update.provisional_start_time
    && nat_eq event.duration_minutes expected.duration_minutes
    && event.attendee_email == expected.attendee_email
    && same_optional event.secondary_attendee_email expected.secondary_attendee_email

abbrev pub head_check : List CalendarAvailabilityCheck → Option CalendarAvailabilityCheck
head_check [] = none
head_check (c ∷ cs) = some c

-- The event of the first check, or the one that the task expects.
unfoldable pub provisional_event :
    ExpectedEvent → ActorUpdate → AppSessionState → Option CalendarEvent
provisional_event expected update s = elim (head_check s.calendar_availability_checks) [
  | none ↦ find (is_provisional expected update) s.calendar_events
  | some c ↦
      if c.event_id == ""
      then find (is_provisional expected update) s.calendar_events
      else find (λ e. e.id == c.event_id) s.calendar_events
]

abbrev pub revised : Option CalendarAvailabilityCheck → CalendarEvent → Bool
revised none event = false
revised (some c) event = not (nat_eq event.revision_count c.baseline_revision_count)

abbrev pub tracked_error : Option CalendarAvailabilityCheck → RecheckError
tracked_error none = create_tentative_event
tracked_error (some c) = if c.event_id == "" then create_tentative_event else keep_tracked_event

abbrev pub baseline : Option CalendarAvailabilityCheck → CalendarEvent → ℕ
baseline none event = event.revision_count
baseline (some c) event = c.baseline_revision_count

abbrev pub check_status : ℕ → ℕ → CheckStatus
check_status required number = if leb required number then updated else pending

abbrev pub new_check :
    ActorUpdate → AppSessionState → String → String → CalendarEvent → CalendarAvailabilityCheck
new_check update s id now event =
    let number = length s.calendar_availability_checks + 1 in
    record {
      id = id;
      check_number = number;
      status = check_status update.required_rechecks number;
      event_id = event.id;
      baseline_revision_count = baseline (head_check s.calendar_availability_checks) event;
      created_at = now;
    }

-- The check of an event that is as it should be.
unfoldable pub record_check :
    ActorUpdate
    → AppSessionState
    → String
    → String
    → CalendarEvent
    → AppSessionState × RecheckResult
record_check update s id now event =
    let check = new_check update s id now event in
    (
      record s { calendar_availability_checks = s.calendar_availability_checks ++ check ∷ [] },
      checked check
          (if is_updated check.status then update.applied_message else update.pending_message),
    )

unfoldable pub recheck_with :
    ExpectedEvent
    → ActorUpdate
    → AppSessionState
    → String
    → String
    → AppSessionState × RecheckResult
unfolding provisional_event
recheck_with expected update s id now =
    let first = head_check s.calendar_availability_checks in
    elim (provisional_event expected update s) [
      | none ↦ (s, refused (tracked_error first))
      | some event ↦
          if not (same_clock event.start_time update.provisional_start_time) || revised first event
          then (s, refused (tracked_error first))
          else record_check update s id now event
    ]

unfoldable pub recheck_calendar_availability :
    ExpectedEvent
    → Option ActorUpdate
    → AppSessionState
    → String
    → String
    → AppSessionState × RecheckResult
unfolding recheck_with
recheck_calendar_availability expected none s id now = (s, refused no_pending_update)
recheck_calendar_availability expected (some update) s id now =
    if any (λ c. is_updated c.status) s.calendar_availability_checks
    then (s, refused already_applied)
    else recheck_with expected update s id now

-- Rechecks one after another, each after any change of the events.
unfoldable pub recheck_all :
    ExpectedEvent
    → ActorUpdate
    → AppSessionState
    → List (List CalendarEvent × String × String)
    → AppSessionState
unfolding recheck_calendar_availability
recheck_all expected update s [] = s
recheck_all expected update s ((events, id, now) ∷ more) =
    recheck_all expected update
      (recheck_calendar_availability expected (some update) (record s { calendar_events = events })
        id now).0
      more
