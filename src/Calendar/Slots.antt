-- ===== src/Calendar/Slots.antt =====
-- `computeEarliestFreeSlot`.
use agent_benchmark.Common.{
  zero, ℕ, String, List, Bool, map, Option, ◌+◌, any, filter, ltb, none, ◌-◌, map_option, contains,
  ◌==◌, ◌&&◌, suc, ◌∷◌, [], if◌then◌else◌, some,
}
use agent_benchmark.Calendar.{BusyEvent, to_minutes, to_clock, Clock}

pub record Busy : Type 0 where
  pub start : ℕ
  pub end : ℕ

pub record SlotParams : Type 0 where
  pub date : String
  pub duration_minutes : ℕ
  pub window_start : Clock
  pub window_end : Clock
  pub attendees : List String
  pub busy_events : List BusyEvent

abbrev pub emails : BusyEvent → List String
emails busy = elim busy.secondary_attendee_email [
  | none ↦ busy.attendee_email ∷ []
  | some other ↦ busy.attendee_email ∷ other ∷ []
]

abbrev pub shares_attendee : List String → BusyEvent → Bool
shares_attendee attendees busy = any (λ e. contains e attendees) (emails busy)

abbrev pub interval : BusyEvent → Busy
interval busy = record {
  start = to_minutes busy.start_time;
  end = to_minutes busy.start_time + busy.duration_minutes;
}

unfoldable pub relevant : (String → String) → SlotParams → List Busy
unfolding to_minutes
relevant lower p = map interval (
    filter (shares_attendee (map lower p.attendees)) (filter (λ b. b.date == p.date) p.busy_events))

abbrev pub overlaps : ℕ → ℕ → Busy → Bool
overlaps start duration busy = ltb start busy.end && ltb busy.start (start + duration)

abbrev pub conflicts : List Busy → ℕ → ℕ → Bool
conflicts busy duration start = any (overlaps start duration) busy

-- The loop from `start`, on the number of starts that are left in the window.
unfoldable pub find_slot : List Busy → ℕ → ℕ → ℕ → Option ℕ
find_slot busy duration zero start = none
find_slot busy duration (suc left) start =
    let later = find_slot busy duration left (suc start) in
    if conflicts busy duration start then later else some start

-- `start + duration <= windowEnd` holds for this many starts from `windowStart` on.
abbrev pub starts_in : ℕ → ℕ → ℕ → ℕ
starts_in window_start window_end duration = window_end + 1 - (window_start + duration)

unfoldable pub compute_earliest_free_slot : (String → String) → SlotParams → Option Clock
unfolding relevant find_slot to_clock to_minutes
compute_earliest_free_slot lower p =
    let from = to_minutes p.window_start in
    map_option to_clock (
      find_slot (relevant lower p) p.duration_minutes
        (starts_in from (to_minutes p.window_end) p.duration_minutes) from)
