-- ===== src/Lifecycle/Outcomes.antt =====
-- What the lifecycle commands report and forward.
use agent_benchmark.Lifecycle.Commands.{
  TimeoutDatabase, Effect, timed_out, timeout_attempt, TimeoutParams, AttemptRow, TimedSession,
  TimeoutTransition, timeout_summary, TimeoutRun, resolve_advance, cancel_attempt, ReadModel,
  CancelTransition, CancelResult, AdvanceSession, active_session, is_cancelled, cancelled_effects,
  find_session,
}
use agent_benchmark.Common.{
  ◌≡◌, List, true, false, Option-cases, Option, inl, some, inr, none, Bool-cases, [], String, refl,
  contains, map, ◌↔◌, ◌⊎◌, subst, any, sym, ◌==◌, arith, ◌∷◌, ◌∙◌, ap, eq_iff, find-passes,
}
use agent_benchmark.Lifecycle.{is_terminal, cancelled, AttemptStatus}

-- What a time-out needs: an unfinished attempt, its sessions, and the routine's transition.
pub record TimesOut (db : TimeoutDatabase) (p : TimeoutParams) : Type 0 where
  pub attempt : AttemptRow
  pub rows : List TimedSession
  pub transition : TimeoutTransition
  pub found : db.attempt ≡ some attempt
  pub unfinished : is_terminal attempt.status ≡ false
  pub loaded : db.sessions ≡ some rows
  pub answered : db.timeout_hosted_attempt (timeout_summary p rows) ≡ some transition
  pub moved : transition.transitioned ≡ true

-- A run reports success only on a transition, and does nothing outside the database otherwise.
abbrev pub Reports : TimeoutDatabase → TimeoutParams → TimeoutRun → Type 0
Reports db p r = (r.result.ok ≡ true → TimesOut db p) × (r.result.ok ≡ false → r.effects ≡ [])

timed_out-Reports :
    (db : TimeoutDatabase) (p : TimeoutParams) (attempt : AttemptRow) (rows : List TimedSession)
    (t : Option TimeoutTransition)
    → db.attempt ≡ some attempt
    → is_terminal attempt.status ≡ false
    → db.sessions ≡ some rows
    → db.timeout_hosted_attempt (timeout_summary p rows) ≡ t
    → Reports db p (timed_out p rows t)
unfolding timed_out
timed_out-Reports db p attempt rows none a b c d = (λ e. cc, λ _. refl)
timed_out-Reports db p attempt rows (some t) a b c d = elim (Bool-cases t.transitioned) [
  | inr kept ↦ rw (kept, timed_out) (λ e. cc, λ _. refl)
  | inl moved ↦
      rw (moved, timed_out)
        (
          λ _. record {
            attempt = attempt;
            rows = rows;
            transition = t;
            found = a;
            unfinished = b;
            loaded = c;
            answered = d;
            moved = moved;
          },
          λ e. cc,
        )
]

-- A time-out succeeds only for an unfinished attempt that the database then moves; in every other
-- case nothing is evicted, invalidated or forwarded.
pub timeout_attempt-Reports :
    (db : TimeoutDatabase) (p : TimeoutParams) → Reports db p (timeout_attempt db p)
unfolding timeout_attempt
timeout_attempt-Reports db p = elim (Option-cases db.attempt) [
  | inl a ↦ rw (a, timeout_attempt) (λ e. cc, λ _. refl)
  | inr (attempt, a) ↦ elim (Bool-cases (is_terminal attempt.status)) [
    | inl b ↦ rw (a, b, timeout_attempt) (λ e. cc, λ _. refl)
    | inr b ↦ elim (Option-cases db.sessions) [
      | inl c ↦ rw (a, b, c, timeout_attempt) (λ e. cc, λ _. refl)
      | inr (rows, c) ↦
          let moved : timeout_attempt db p
              ≡ timed_out p rows (db.timeout_hosted_attempt (timeout_summary p rows)) =
            rw (a, b, c, timeout_attempt) refl in
          subst (Reports db p) (sym moved) (
            timed_out-Reports db p attempt rows (db.timeout_hosted_attempt (timeout_summary p rows))
              a b c refl)
    ]
  ]
]

-- A finished attempt is left alone: the database's routine is not even called.
pub timeout_finished :
    (db : TimeoutDatabase) (p : TimeoutParams) (attempt : AttemptRow)
    → db.attempt ≡ some attempt
    → is_terminal attempt.status ≡ true
    → ((timeout_attempt db p).requested ≡ none)
      × ((timeout_attempt db p).effects ≡ [])
      × ((timeout_attempt db p).result.ok ≡ false)
unfolding timeout_attempt
timeout_finished db p attempt a b = rw (a, b, timeout_attempt) (refl, refl, refl)

any-contains :
    (current : String) (sessions : List AdvanceSession)
    → any (λ s. s.id == current) sessions ≡ contains current (map (λ s. s.id) sessions)
any-contains current [] = refl
any-contains current (s ∷ sessions) = ground (arith, any-contains current sessions)

active_session-id :
    (m : ReadModel) (s : AdvanceSession)
    → active_session m ≡ some s
    → m.active_session_id ≡ some s.id
active_session-id m s e = elim (Option-cases m.active_session_id) [
  | inl idle ↦ absurd (ground (arith, e, idle))
  | inr (id, a) ↦
      let found : find_session id m.sessions ≡ some s = ground (arith, e, a) in
      a ∙ ap some (sym ((eq_iff s.id id).0 (find-passes (λ x. x.id == id) m.sessions s found)))
]

is_cancelled_iff : (s : AttemptStatus) → (is_cancelled s ≡ true) ↔ (s ≡ cancelled)
is_cancelled_iff s = ground arith

-- Moving on is invalid exactly for a session of another attempt; it is complete exactly when valid
-- with no active session, and the next session is the active one.
pub resolve_advance_lem :
    (m : ReadModel) (current : String)
    → let a = resolve_advance m current in
      (a.valid ≡ contains current (map (λ s. s.id) m.sessions))
      × ((a.complete ≡ true) ↔ ((a.valid ≡ true) × (m.active_session_id ≡ none)))
      × ((s : AdvanceSession) → a.next_session ≡ some s → m.active_session_id ≡ some s.id)
unfolding resolve_advance
resolve_advance_lem m current = elim (Bool-cases (any (λ s. s.id == current) m.sessions)) [
  | inl known ↦
      rw (known, resolve_advance)
        (sym known ∙ any-contains current m.sessions, ground arith, active_session-id m)
  | inr other ↦
      rw (other, resolve_advance)
        (sym other ∙ any-contains current m.sessions, ground arith, λ s e. cc)
]

-- A cancellation succeeds exactly when there is no attempt or it is cancelled now; sessions in memory
-- are evicted exactly when this command made the transition.
pub cancel_attempt_lem :
    (run : String) (t : CancelTransition)
    → (r : CancelResult) × (effects : List Effect) × (cancel_attempt run (some t)
        ≡ some (r, effects))
      × ((r.ok ≡ true) ↔ ((t.attempt_found ≡ false) ⊎ (t.attempt_status ≡ cancelled)))
      × ((r.transitioned ≡ true) ↔ ((t.attempt_found ≡ true) × (t.transitioned ≡ true)))
      × (t.attempt_found ≡ false → effects ≡ [])
unfolding cancel_attempt
cancel_attempt_lem run t = elim (Bool-cases t.attempt_found) [
  | inl found ↦ (
    record {
      ok = is_cancelled t.attempt_status;
      attempt_id = t.attempt_id;
      status = some t.attempt_status;
      transitioned = t.transitioned;
    },
    cancelled_effects run t,
    rw found refl,
    ground (arith, found, is_cancelled_iff t.attempt_status),
    ground (arith, found),
    λ e. cc (found, e),
  )
  | inr missing ↦ (
    record { ok = true; attempt_id = none; status = none; transitioned = false },
    [],
    rw missing refl,
    (λ _. inl missing, λ _. refl),
    ground (arith, missing),
    λ _. refl,
  )
]
