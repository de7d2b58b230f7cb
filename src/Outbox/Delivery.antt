-- ===== src/Outbox/Delivery.antt =====
-- `createCallbackOutboxProcessor`: what happens to each claimed row.
use Prim.Native.Nat.{ℕ, zero, suc, max, min}
use agent_benchmark.Common.{
  String, ℕ, zero, Bool, suc, Option, map, leb, ◌∷◌, some, [], none, max, min, if◌then◌else◌, ◌==◌,
  length, ◌&&◌, ◌+◌,
}
use agent_benchmark.Outbox.{
  CallbackDeliverySummary, claim, CallbackOutboxRow, Table, delivered, max_attempts, dead, pending,
  is_delivering, retry_delay_ms,
}

-- `.eq("id", id).eq("status", "delivering")`
abbrev pub update_delivering : String → (CallbackOutboxRow → CallbackOutboxRow) → Table → Table
update_delivering id f table =
    map (λ r. if r.id == id && is_delivering r.status then f r else r) table

abbrev pub delivered_row : ℕ → CallbackOutboxRow → CallbackOutboxRow
delivered_row now r = record r {
  status = delivered;
  delivered_at = some now;
  locked_at = none;
  last_error = none;
  updated_at = now;
}

-- `errorMessage`: `.slice(0, 1_000)`, in characters, where the source counts UTF-16 units.
abbrev pub first_chars : ℕ → String → String
first_chars zero s = ""
first_chars (suc n) String.[] = ""
first_chars (suc n) (String.◌∷◌ c s) = String.◌∷◌ c (first_chars n s)

abbrev pub error_message : String → String
error_message message = first_chars 1000 message

-- The row as it was claimed tells how many attempts were made.
abbrev pub failed_row : ℕ → String → CallbackOutboxRow → CallbackOutboxRow → CallbackOutboxRow
failed_row now message claimed r = record r {
  status = if leb max_attempts claimed.attempts then dead else pending;
  next_attempt_at = now + retry_delay_ms claimed.attempts;
  locked_at = none;
  last_error = some (error_message message);
  updated_at = now;
}

unfoldable pub mark_delivered : ℕ → CallbackOutboxRow → Table → Table
mark_delivered now row table = update_delivering row.id (delivered_row now) table

-- The flag tells whether the row is dead.
unfoldable pub mark_failed : ℕ → String → CallbackOutboxRow → Table → Table × Bool
mark_failed now message row table =
    (update_delivering row.id (failed_row now message row) table, leb max_attempts row.attempts)

-- The answer to a callback: `response.ok`, or why it failed.
pub data Fetched : Type 0 where
  ok : Fetched
  refused : String → Fetched

-- How a call of the database ends. One that throws may have taken effect.
pub data Write : Type 0 where
  done : Write
  thrown : Bool → String → Write

-- What the calls made for one row answer.
pub record Answers : Type 0 where
  pub fetched : Fetched
  pub marking : Write
  pub failing : Write

abbrev pub written : Bool → Table → Table → Table
written applied after before = if applied then after else before

abbrev pub count_delivered : CallbackDeliverySummary → CallbackDeliverySummary
count_delivered s = record s { delivered = suc s.delivered }

abbrev pub count_failed : Bool → CallbackDeliverySummary → CallbackDeliverySummary
count_failed is_dead s =
    if is_dead then record s { dead = suc s.dead } else record s { retried = suc s.retried }

-- `markFailed` in the catch block. A summary is `none` where `process` throws.
unfoldable pub fail_row :
    ℕ
    → String
    → Write
    → CallbackOutboxRow
    → Table
    → CallbackDeliverySummary
    → Table × Option CallbackDeliverySummary
unfolding mark_failed
fail_row now message done row table summary =
    let (failed, is_dead) = mark_failed now message row table in
    (failed, some (count_failed is_dead summary))
fail_row now message (thrown applied _) row table summary =
    (written applied (mark_failed now message row table).0 table, none)

-- A `markDelivered` that throws is caught like a refused callback.
unfoldable pub deliver_row :
    ℕ
    → Answers
    → CallbackOutboxRow
    → Table
    → CallbackDeliverySummary
    → Table × Option CallbackDeliverySummary
unfolding mark_delivered fail_row
deliver_row now a row table summary = elim a.fetched [
  | refused message ↦ fail_row now message a.failing row table summary
  | ok ↦ elim a.marking [
    | done ↦ (mark_delivered now row table, some (count_delivered summary))
    | thrown applied message ↦
        fail_row now message a.failing row (written applied (mark_delivered now row table) table)
          summary
  ]
]

-- The loop over the claimed rows. `answers` gets the number of rows before.
unfoldable pub deliver_rows :
    ℕ
    → (ℕ → CallbackOutboxRow → Answers)
    → ℕ
    → Table
    → Table × Option CallbackDeliverySummary
    → Table × Option CallbackDeliverySummary
unfolding deliver_row
deliver_rows now answers calls [] s = s
deliver_rows now answers calls (row ∷ rows) (table, none) = (table, none)
deliver_rows now answers calls (row ∷ rows) (table, some s) =
    deliver_rows now answers (suc calls) rows (deliver_row now (answers calls row) row table s)

abbrev pub empty_summary : CallbackDeliverySummary
empty_summary = record { reconciled = 0; claimed = 0; delivered = 0; retried = 0; dead = 0 }

-- What is outside: `reconcile`, if it is asked for, which adds the missing rows of completed attempts
-- and gives their number or throws; how the claim ends; and the answers for each row.
pub record Outside : Type 0 where
  pub reconcile : Option (Table → Table × Option ℕ)
  pub claiming : Write
  pub answers : ℕ → CallbackOutboxRow → Answers

abbrev pub reconciled_table : Option (Table → Table × Option ℕ) → Table → Table × Option ℕ
reconciled_table none table = (table, some 0)
reconciled_table (some f) table = f table

unfoldable pub claim_and_deliver :
    ℕ → Outside → ℕ → ℕ → Table → Table × Option CallbackDeliverySummary
unfolding claim deliver_rows
claim_and_deliver now outside limit reconciled table =
    let (rows, locked) = claim now (max 1 (min limit 100)) table in
    elim outside.claiming [
      | thrown applied _ ↦ (written applied locked table, none)
      | done ↦
          deliver_rows now outside.answers 0 rows
            (locked, some (record empty_summary { reconciled = reconciled; claimed = length rows }))
    ]

-- After the reconciliation, which gave a number or threw.
abbrev pub delivered_after :
    ℕ → Outside → ℕ → Table → Option ℕ → Table × Option CallbackDeliverySummary
delivered_after now outside limit complete none = (complete, none)
delivered_after now outside limit complete (some reconciled) =
    claim_and_deliver now outside limit reconciled complete

-- `process`. Without persistence or a web address nothing is done.
unfoldable pub process : Bool → ℕ → Outside → ℕ → Table → Table × Option CallbackDeliverySummary
unfolding claim_and_deliver
process configured now outside limit table =
    let (complete, count) = reconciled_table outside.reconcile table in
    if configured
    then delivered_after now outside limit complete count
    else (table, some empty_summary)
