-- ===== src/Calendar/Tests.antt =====
-- A day with commitments, and three rechecks.
use agent_benchmark.Common.{
  ℕ, List, none, String, [], arith, ◌∷◌, length, ◌≤◌, ◌≡◌, map, some, if◌then◌else◌, refl, ◌++◌,
}
use agent_benchmark.Calendar.Slots.{SlotParams, compute_earliest_free_slot, find_slot, relevant}
use agent_benchmark.Calendar.Earliest.{Earliest, slot-Earliest}
use agent_benchmark.Calendar.{
  CalendarEvent, ActorUpdate, AppSessionState, BusyEvent, to_minutes, to_clock, visible_busy_events,
  pending, updated, CalendarAvailabilityCheck, CheckStatus,
}
use agent_benchmark.Calendar.Rechecks.{
  ExpectedEvent, recheck_calendar_availability, recheck_with, record_check, provisional_event,
  recheck_all,
}
use agent_benchmark.Calendar.Checks.{Numbered, any_updated, rechecks_bounded}

abbrev busy_at : ℕ → ℕ → ℕ → BusyEvent
busy_at h m duration = record {
  id = "b";
  title = "standup";
  date = "2026-01-05";
  start_time = record { hours = h; minutes = m };
  duration_minutes = duration;
  attendee_email = "ann@example.com";
  secondary_attendee_email = none;
}

abbrev day : SlotParams
day = record {
  date = "2026-01-05";
  duration_minutes = 5;
  window_start = record { hours = 9; minutes = 0 };
  window_end = record { hours = 9; minutes = 20 };
  attendees = "ann@example.com" ∷ [];
  busy_events = busy_at 9 0 5 ∷ busy_at 9 8 2 ∷ [];
}

day_slot : compute_earliest_free_slot (λ s. s) day ≡ some (record { hours = 9; minutes = 10 })
unfolding compute_earliest_free_slot find_slot relevant to_minutes to_clock
day_slot = refl

slot-Earliest_example : Earliest (λ s. s) day (compute_earliest_free_slot (λ s. s) day)
slot-Earliest_example = slot-Earliest (λ s. s) day

abbrev tentative : CalendarEvent
tentative = record {
  id = "e";
  title = "sync";
  date = "2026-01-05";
  start_time = record { hours = 9; minutes = 5 };
  duration_minutes = 5;
  attendee_email = "ann@example.com";
  secondary_attendee_email = none;
  revision_count = 0;
}

abbrev expected : ExpectedEvent
expected = record {
  date = "2026-01-05";
  duration_minutes = 5;
  attendee_email = "ann@example.com";
  secondary_attendee_email = none;
}

abbrev update : ActorUpdate
update = record {
  required_rechecks = 2;
  pending_message = "wait";
  applied_message = "now";
  provisional_start_time = record { hours = 9; minutes = 5 };
  busy_event = busy_at 9 5 5;
}

abbrev rechecks : List (List CalendarEvent × String × String)
rechecks =
    ([], "c0", "t0")
    ∷ (tentative ∷ [], "c1", "t1")
    ∷ (record tentative { revision_count = 1 } ∷ [], "c2", "t2")
    ∷ (tentative ∷ [], "c3", "t3")
    ∷ (tentative ∷ [], "c4", "t4")
    ∷ []

abbrev fresh : AppSessionState
fresh = record { calendar_events = []; calendar_availability_checks = [] }

abbrev statuses : List CalendarAvailabilityCheck → List (String × CheckStatus)
statuses checks = map (λ c. (c.id, c.status)) checks

rechecks_run :
    statuses (recheck_all expected update fresh rechecks).calendar_availability_checks
    ≡ ("c1", pending) ∷ ("c3", updated) ∷ []
unfolding recheck_all recheck_calendar_availability recheck_with record_check provisional_event
rechecks_run = refl

rechecks_bounded_example :
    let checks = (recheck_all expected update fresh rechecks).calendar_availability_checks in
    Numbered 2 1 checks
    × (length checks ≤ 2)
    × (visible_busy_events [] (some update) (length checks)
        ≡ (if any_updated checks then [] ++ update.busy_event ∷ [] else []))
rechecks_bounded_example = rechecks_bounded expected update (omega arith) rechecks [] []
