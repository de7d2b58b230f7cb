-- ===== src/Calendar.antt =====
-- Scheduling in the calendar site: apps/hosted-sites/src/apps/calendar-lite/scheduling.ts and the
-- availability checks of actions.ts. A time `HH:MM` is its two numbers; `toLowerCase` is Unicode's
-- case mapping, a parameter.
pub mod Slots
pub mod Attending
pub mod Earliest
pub mod Rechecks
pub mod Checks
mod Tests
use agent_benchmark.Common.{
  ℕ, String, List, ◌*◌, ◌/◌, Option, ◌+◌, ◌%◌, some, if◌then◌else◌, leb, ◌++◌, ◌∷◌, [], none,
}

pub record Clock : Type 0 where
  pub hours : ℕ
  pub minutes : ℕ

unfoldable pub to_minutes : Clock → ℕ
to_minutes time = time.hours * 60 + time.minutes

unfoldable pub to_clock : ℕ → Clock
to_clock total_minutes = record { hours = total_minutes / 60; minutes = total_minutes % 60 }

pub record BusyEvent : Type 0 where
  pub id : String
  pub title : String
  pub date : String
  pub start_time : Clock
  pub duration_minutes : ℕ
  pub attendee_email : String
  pub secondary_attendee_email : Option String

pub record ActorUpdate : Type 0 where
  pub required_rechecks : ℕ
  pub pending_message : String
  pub applied_message : String
  pub provisional_start_time : Clock
  pub busy_event : BusyEvent

-- `visibleBusyEvents`, of the configuration's events and update.
unfoldable pub visible_busy_events : List BusyEvent → Option ActorUpdate → ℕ → List BusyEvent
visible_busy_events events none checks = events
visible_busy_events events (some update) checks =
    if leb update.required_rechecks checks then events ++ update.busy_event ∷ [] else events

pub record CalendarEvent : Type 0 where
  pub id : String
  pub title : String
  pub date : String
  pub start_time : Clock
  pub duration_minutes : ℕ
  pub attendee_email : String
  pub secondary_attendee_email : Option String
  pub revision_count : ℕ

pub data CheckStatus : Type 0 where
  pending updated : CheckStatus

pub record CalendarAvailabilityCheck : Type 0 where
  pub id : String
  pub check_number : ℕ
  pub status : CheckStatus
  pub event_id : String
  pub baseline_revision_count : ℕ
  pub created_at : String

pub record AppSessionState : Type 0 where
  pub calendar_events : List CalendarEvent
  pub calendar_availability_checks : List CalendarAvailabilityCheck
