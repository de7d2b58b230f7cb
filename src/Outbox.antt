-- ===== src/Outbox.antt =====
-- The callback outbox: apps/hosted-orchestrator/src/callback-outbox.ts, with the claim of
-- supabase/migrations/20260619000016_callback_outbox.sql. Times are milliseconds. The table is a
-- list of rows; the answers of the web application and of the database's calls are parameters.
pub mod Delivery
pub mod Summary
pub mod Attempts
mod Tests
use Prim.Native.String.{String, []}
use Prim.Native.Nat.{ℕ, min, suc, max}
use agent_benchmark.Common.{
  String, List, ℕ, Bool, ◌∷◌, true, Option, ◌&&◌, if◌then◌else◌, ltb, map, min, [], suc, false, leb,
  ◌||◌, some, ◌*◌, max, zero, none, nat_eq, filter, ◌^◌, ◌+◌, contains, ◌-◌,
}
use agent_benchmark.Json.{Json}

pub data CallbackStatus : Type 0 where
  pending delivering delivered dead : CallbackStatus

pub record CallbackOutboxRow : Type 0 where
  pub id : String
  pub attempt_id : String
  pub run_id : String
  pub event_type : String
  pub payload : Json
  pub status : CallbackStatus
  pub attempts : ℕ
  pub next_attempt_at : ℕ
  pub locked_at : Option ℕ
  pub delivered_at : Option ℕ
  pub last_error : Option String
  pub created_at : ℕ
  pub updated_at : ℕ

abbrev pub Table : Type 0
Table = List CallbackOutboxRow

pub record CallbackDeliverySummary : Type 0 where
  pub reconciled : ℕ
  pub claimed : ℕ
  pub delivered : ℕ
  pub retried : ℕ
  pub dead : ℕ

abbrev pub max_attempts : ℕ
max_attempts = 8

unfoldable pub retry_delay_ms : ℕ → ℕ
retry_delay_ms attempts = min 300000 (1000 * 2 ^ (attempts - 1))

abbrev pub is_pending : CallbackStatus → Bool
is_pending pending = true
is_pending _ = false

abbrev pub is_delivering : CallbackStatus → Bool
is_delivering delivering = true
is_delivering _ = false

-- `status = 'pending' and next_attempt_at <= now()`, or a delivery locked for over five minutes.
abbrev pub locked_before : ℕ → Option ℕ → Bool
locked_before t none = false
locked_before t (some l) = ltb (l + 300000) t

abbrev pub is_open : ℕ → CallbackOutboxRow → Bool
is_open now row =
    (is_pending row.status && leb row.next_attempt_at now)
    || (is_delivering row.status && locked_before now row.locked_at)

-- The first statement of the claim: rows that used up their attempts die.
unfoldable pub bury_exhausted : ℕ → CallbackOutboxRow → CallbackOutboxRow
bury_exhausted now row =
    if leb max_attempts row.attempts && is_open now row
    then record row { status = dead; locked_at = none; updated_at = now }
    else row

abbrev pub take : ℕ → Table → Table
take zero rows = []
take (suc n) [] = []
take (suc n) (r ∷ rows) = r ∷ take n rows

-- `order by next_attempt_at, created_at`
abbrev pub before : CallbackOutboxRow → CallbackOutboxRow → Bool
before a b =
    ltb a.next_attempt_at b.next_attempt_at
    || (nat_eq a.next_attempt_at b.next_attempt_at && leb a.created_at b.created_at)

unfoldable pub insert : CallbackOutboxRow → Table → Table
insert r [] = r ∷ []
insert r (s ∷ rows) = if before r s then r ∷ s ∷ rows else s ∷ insert r rows

unfoldable pub sort : Table → Table
unfolding insert
sort [] = []
sort (r ∷ rows) = insert r (sort rows)

unfoldable pub lock_row : ℕ → CallbackOutboxRow → CallbackOutboxRow
lock_row now row = record row {
  status = delivering;
  attempts = suc row.attempts;
  locked_at = some now;
  updated_at = now;
}

abbrev pub ids : Table → List String
ids rows = map (λ r. r.id) rows

-- The claim: the rows for this worker, and the table with them locked.
unfoldable pub claim : ℕ → ℕ → Table → Table × Table
unfolding bury_exhausted sort lock_row
claim now limit table =
    let alive = map (bury_exhausted now) table in
    let candidates =
      take (max 1 (min limit 100))
        (sort (filter (λ r. is_open now r && ltb r.attempts max_attempts) alive)) in
    (
      map (lock_row now) candidates,
      map (λ r. if contains r.id (ids candidates) then lock_row now r else r) alive,
    )
