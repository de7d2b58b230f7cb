-- ===== src/Calendar/Attending.antt =====
-- Which commitments the search for a slot keeps clear of: those of the day and of an attendee.
use agent_benchmark.Common.{
  String, ℕ, List, [], ◌∷◌, map, filter, some, Option-cases, Bool-cases, inl, inr, ◌≡◌, refl, ap,
  sym, ◌∙◌, true, ◌==◌, contains, arith, eq_iff, eq_refl, All, ◌↔◌, ◌⊎◌, ◌≤◌, ◌+◌,
}
use agent_benchmark.Calendar.{BusyEvent, to_minutes}
use agent_benchmark.Calendar.Slots.{Busy, SlotParams, relevant, shares_attendee, interval}

-- No commitment overlaps the time from `t` on: each ends by then or starts after it.
abbrev pub Free : List Busy → ℕ → ℕ → Type 0
Free busy duration t = All (λ b. (b.end ≤ t) ⊎ (t + duration ≤ b.start)) busy

-- One of the attendees, in lower case, is the commitment's attendee or its second one.
abbrev pub Attends : (String → String) → List String → BusyEvent → Type 0
Attends lower attendees b =
    (a : String) × (contains a attendees ≡ true)
    × ((b.attendee_email ≡ lower a) ⊎ (b.secondary_attendee_email ≡ some (lower a)))

-- Each commitment of the day that an attendee has ends by `t` or starts after the meeting.
abbrev pub Clear : (String → String) → SlotParams → ℕ → Type 0
Clear lower p t =
    All
      (λ b.
        b.date ≡ p.date
        → Attends lower p.attendees b
        → (to_minutes b.start_time + b.duration_minutes ≤ t)
          ⊎ (t + p.duration_minutes ≤ to_minutes b.start_time))
      p.busy_events

module _ (lower : String → String) where
  contains-map_of :
      (a e : String) (names : List String)
      → contains a names ≡ true
      → e ≡ lower a
      → contains e (map lower names) ≡ true
  contains-map_of a e [] h q = cc
  contains-map_of a e (x ∷ names) h q = elim (Bool-cases (x == a)) [
    | inl same ↦
        let equal = (eq_iff (lower x) e).1 (ap lower ((eq_iff x a).0 same) ∙ sym q) in
        ground (arith, equal)
    | inr other ↦ ground (arith, contains-map_of a e names (ground (arith, h, other)) q)
  ]

  contains-map :
      (e : String) (names : List String)
      → contains e (map lower names) ≡ true
      → (a : String) × (contains a names ≡ true) × (e ≡ lower a)
  contains-map e [] h = cc
  contains-map e (x ∷ names) h = elim (Bool-cases (lower x == e)) [
    | inl same ↦ (x, ground (arith, eq_refl x), sym ((eq_iff (lower x) e).0 same))
    | inr other ↦
        let (a, listed, q) = contains-map e names (ground (arith, h, other)) in
        (a, ground (arith, listed), q)
  ]

  Attends-of :
      (names : List String) (b : BusyEvent)
      → shares_attendee (map lower names) b ≡ true
      → Attends lower names b
  Attends-of names b h = elim (Bool-cases (contains b.attendee_email (map lower names))) [
    | inl first ↦
        let (a, listed, q) = contains-map b.attendee_email names first in (a, listed, inl q)
    | inr not_first ↦ elim (Option-cases b.secondary_attendee_email) [
      | inl e ↦ absurd (ground (arith, h, e, not_first))
      | inr (other, e) ↦
          let (a, listed, q) = contains-map other names (ground (arith, h, e, not_first)) in
          (a, listed, inr (e ∙ ap some q))
    ]
  ]

  shares_attendee_of :
      (names : List String) (b : BusyEvent)
      → Attends lower names b
      → shares_attendee (map lower names) b ≡ true
  shares_attendee_of names b (a, listed, inl q) =
      let found = contains-map_of a b.attendee_email names listed q in
      elim (Option-cases b.secondary_attendee_email) [
        | inl e ↦ ground (arith, e, found)
        | inr (other, e) ↦ ground (arith, e, found)
      ]
  shares_attendee_of names b (a, listed, inr q) =
      let found = contains-map_of a (lower a) names listed refl in ground (arith, q, found)

  Free-iff :
      (p : SlotParams) (t : ℕ) (bs : List BusyEvent)
      → Free
          (map interval
            (filter (shares_attendee (map lower p.attendees)) (filter (λ b. b.date == p.date) bs)))
          p.duration_minutes
          t
        ↔ All
            (λ b.
              b.date ≡ p.date
              → Attends lower p.attendees b
              → (to_minutes b.start_time + b.duration_minutes ≤ t)
                ⊎ (t + p.duration_minutes ≤ to_minutes b.start_time))
            bs
  Free-iff p t [] = (λ _. tt, λ _. tt)
  Free-iff p t (b ∷ bs) =
      let rest = Free-iff p t bs in
      elim (Bool-cases (b.date == p.date)) [
        | inr other_day ↦ rw other_day (
          λ h. (λ d. absurd (cc ((eq_iff b.date p.date).1 d, other_day)), rest.0 h),
          λ h. rest.1 h.1,
        )
        | inl today ↦ elim (Bool-cases (shares_attendee (map lower p.attendees) b)) [
          | inr nobody ↦
              rw (today, nobody)
                (
                  λ h.
                      (λ _ at. absurd (cc (shares_attendee_of p.attendees b at, nobody)), rest.0 h),
                  λ h. rest.1 h.1,
                )
          | inl shared ↦
              rw (today, shared)
                (
                  λ h. (λ _ _. h.0, rest.0 h.1),
                  λ h. (
                    h.0 ((eq_iff b.date p.date).0 today) (Attends-of p.attendees b shared),
                    rest.1 h.1,
                  ),
                )
        ]
      ]

  -- A time is free of the relevant commitments exactly when it is clear of those of the attendees.
  pub relevant_iff :
      (p : SlotParams) (t : ℕ) → Free (relevant lower p) p.duration_minutes t ↔ Clear lower p t
  unfolding relevant
  relevant_iff p t = Free-iff p t p.busy_events
