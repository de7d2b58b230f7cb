-- ===== src/Outbox/Tests.antt =====
-- Deliveries at a web application that refuses every callback, or none.
use agent_benchmark.Json.{null}
use Prim.Native.String.{String, []}
use Prim.Native.Nat.{ℕ}
use agent_benchmark.Common.{
  String, ℕ, List, ◌≡◌, true, false, map, none, some, ◌++◌, nat_eq, if◌then◌else◌, ◌∷◌, ◌≤◌, ◌<◌,
  [], ◌*◌, refl,
}
use agent_benchmark.Outbox.{
  Table, retry_delay_ms, CallbackStatus, pending, delivering, CallbackOutboxRow, claim, delivered,
  bury_exhausted, sort, insert, lock_row, dead,
}
use agent_benchmark.Outbox.Delivery.{
  process, Outside, deliver_rows, refused, ok, deliver_row, mark_failed, mark_delivered, fail_row,
  claim_and_deliver, done, thrown,
}
use agent_benchmark.Outbox.Attempts.{AllMove, process-AllMove}
use agent_benchmark.Outbox.Summary.{AllAccounted, process-AllAccounted, retry_delay_ms_doubles}

abbrev row : String → CallbackStatus → ℕ → CallbackOutboxRow
row id status attempts = record {
  id = id;
  attempt_id = "a";
  run_id = "r";
  event_type = "run.complete";
  payload = null;
  status = status;
  attempts = attempts;
  next_attempt_at = 0;
  locked_at = none;
  delivered_at = none;
  last_error = none;
  created_at = 0;
  updated_at = 0;
}

abbrev table : Table
table = row "x" pending 0 ∷ row "y" pending 7 ∷ row "z" delivered 1 ∷ []

-- Every callback is refused, and one row is added by the reconciliation.
abbrev down : Outside
down = record {
  reconcile = some (λ t. (t ++ row "w" pending 0 ∷ [], some 1));
  claiming = done;
  answers = λ n r. record { fetched = refused "HTTP 503"; marking = done; failing = done };
}

-- The callbacks arrive, the first one's mark takes effect but throws, and so does the second one's
-- failure.
abbrev unmarked : Outside
unmarked = record {
  reconcile = none;
  claiming = done;
  answers = λ n r. record {
    fetched = ok;
    marking = thrown (nat_eq n 0) "reset";
    failing = if nat_eq n 0 then done else thrown false "reset";
  };
}

abbrev statuses : Table → List (CallbackStatus × ℕ)
statuses t = map (λ r. (r.status, r.attempts)) t

down_run :
    (statuses (process true 10 down 20 table).0
      ≡ (pending, 1) ∷ (dead, 8) ∷ (delivered, 1) ∷ (pending, 1) ∷ [])
    × (statuses (process true 10 unmarked 20 table).0
        ≡ (delivered, 1) ∷ (delivering, 8) ∷ (delivered, 1) ∷ [])
    × ((process true 10 unmarked 20 table).1 ≡ none)
unfolding process claim deliver_rows deliver_row mark_failed bury_exhausted sort insert lock_row
    retry_delay_ms fail_row mark_delivered claim_and_deliver
down_run = (refl, refl, refl)

retry_delay_ms_doubles_run :
    (retry_delay_ms 1 ≡ 1000)
    × (retry_delay_ms 3 ≤ 300000)
    × (3 < 8 → retry_delay_ms 5 ≡ 2 * retry_delay_ms 4)
retry_delay_ms_doubles_run = retry_delay_ms_doubles 3

process-AllAccounted_example : AllAccounted (process true 10 down 20 table).1
process-AllAccounted_example = process-AllAccounted true 10 down 20 table

process-AllMove_example :
    AllMove (table ++ row "w" pending 0 ∷ []) (process true 10 down 20 table).0
process-AllMove_example = process-AllMove true 10 down 20 table (row "w" pending 0 ∷ []) refl refl
