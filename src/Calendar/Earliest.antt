-- ===== src/Calendar/Earliest.antt =====
-- The slot that is found is free and the earliest.
use agent_benchmark.Common.{
  zero, List, ℕ, ◌≡◌, Option, arith, ◌≤◌, ◌<◌, ◌+◌, true, some, false, none, suc, String,
  Bool-cases, nat_eq, inr, inl, subst, map_option, nat_eq_iff, ◌↔◌, ◌∷◌, [], refl,
}
use agent_benchmark.Calendar.{to_minutes, to_clock, Clock}
use agent_benchmark.Calendar.Slots.{
  Busy, conflicts, find_slot, compute_earliest_free_slot, SlotParams, relevant, starts_in,
}
use agent_benchmark.Calendar.Attending.{Free, Clear, relevant_iff}

-- Every time has its clock.
pub to_minutes-to_clock : (n : ℕ) → to_minutes (to_clock n) ≡ n
unfolding to_minutes to_clock
to_minutes-to_clock n = omega arith

-- What the find_slot says of the starts from `start` on.
abbrev Found : List Busy → ℕ → ℕ → ℕ → Option ℕ → Type 0
Found busy duration left start none =
    (t : ℕ) → start ≤ t → t < start + left → conflicts busy duration t ≡ true
Found busy duration left start (some s) =
    (start ≤ s)
    × (s < start + left)
    × (conflicts busy duration s ≡ false)
    × ((t : ℕ) → start ≤ t → t < s → conflicts busy duration t ≡ true)

from_next :
    (busy : List Busy) (duration start t : ℕ)
    → conflicts busy duration start ≡ true
    → (suc start ≤ t → conflicts busy duration t ≡ true)
    → start ≤ t
    → conflicts busy duration t ≡ true
from_next busy duration start t taken later low = elim (Bool-cases (nat_eq start t)) [
  | inl same ↦ subst (λ x. conflicts busy duration x ≡ true) ((nat_eq_iff start t).0 same) taken
  | inr other ↦ later (ground (arith, other, low))
]

earlier_taken :
    (busy : List Busy) (duration left start : ℕ) (r : Option ℕ)
    → conflicts busy duration start ≡ true
    → Found busy duration left (suc start) r
    → Found busy duration (suc left) start r
earlier_taken busy duration left start none taken h =
    λ t low high. from_next busy duration start t taken (λ next. h t next (omega (arith, high))) low
earlier_taken busy duration left start (some s) taken h = (
  omega (arith, h.0),
  omega (arith, h.1),
  h.2,
  λ t low high. from_next busy duration start t taken (λ next. h.3 t next high) low,
)

find_slot-Found :
    (busy : List Busy) (duration left start : ℕ)
    → Found busy duration left start (find_slot busy duration left start)
unfolding find_slot
find_slot-Found busy duration zero start = λ t low high. absurd (omega (arith, low, high))
find_slot-Found busy duration (suc left) start = elim (Bool-cases (conflicts busy duration start)) [
  | inr free ↦
      rw (free, find_slot)
        (omega arith, omega arith, free, λ t low high. absurd (omega (arith, low, high)))
  | inl taken ↦
      rw (taken, find_slot)
        (earlier_taken busy duration left start (find_slot busy duration left (suc start)) taken
          (find_slot-Found busy duration left (suc start)))
]

conflicts_iff :
    (busy : List Busy) (duration t : ℕ) → (conflicts busy duration t ≡ false) ↔ Free busy duration t
conflicts_iff [] duration t = (λ _. tt, λ _. refl)
conflicts_iff (b ∷ busy) duration t = ground (arith, conflicts_iff busy duration t)

conflicts-Free :
    (busy : List Busy) (duration t : ℕ)
    → conflicts busy duration t ≡ true
    → Free busy duration t
    → ⊥
conflicts-Free busy duration t taken free = cc (taken, (conflicts_iff busy duration t).1 free)

-- What is said of a computed slot: a start in the window that is clear of every commitment of the day
-- that an attendee has, where no earlier start of the window is; or that no start of the window is.
abbrev pub Earliest : (String → String) → SlotParams → Option Clock → Type 0
Earliest lower p none =
    (t : ℕ)
    → to_minutes p.window_start ≤ t
    → t + p.duration_minutes ≤ to_minutes p.window_end
    → Clear lower p t
    → ⊥
Earliest lower p (some c) =
    (to_minutes p.window_start ≤ to_minutes c)
    × (to_minutes c + p.duration_minutes ≤ to_minutes p.window_end)
    × Clear lower p (to_minutes c)
    × ((t : ℕ) → to_minutes p.window_start ≤ t → t < to_minutes c → Clear lower p t → ⊥)

Found-Earliest :
    (lower : String → String) (p : SlotParams) (r : Option ℕ)
    → Found
        (relevant lower p)
        p.duration_minutes
        (starts_in (to_minutes p.window_start) (to_minutes p.window_end) p.duration_minutes)
        (to_minutes p.window_start)
        r
    → Earliest lower p (map_option to_clock r)
Found-Earliest lower p none h = λ t low high clear.
    conflicts-Free (relevant lower p) p.duration_minutes t (h t low (omega (arith, high)))
      ((relevant_iff lower p t).1 clear)
Found-Earliest lower p (some s) h = rw (to_minutes-to_clock s) (
  h.0,
  omega (arith, h.0, h.1),
  (relevant_iff lower p s).0 ((conflicts_iff (relevant lower p) p.duration_minutes s).0 h.2),
  λ t low high clear.
      conflicts-Free (relevant lower p) p.duration_minutes t (h.3 t low high)
        ((relevant_iff lower p t).1 clear),
)

-- The computed slot is the earliest in the window that is clear of every commitment of the day that one
-- of the attendees has, and none is computed exactly when no start in the window is.
pub slot-Earliest :
    (lower : String → String) (p : SlotParams)
    → Earliest lower p (compute_earliest_free_slot lower p)
unfolding compute_earliest_free_slot
slot-Earliest lower p = Found-Earliest lower p _ (
    find_slot-Found (relevant lower p) p.duration_minutes
      (starts_in (to_minutes p.window_start) (to_minutes p.window_end) p.duration_minutes)
      (to_minutes p.window_start))
