-- ===== src/Outbox/Summary.antt =====
-- The summary of a run, and the delay before a retry.
use native.Mathlib.Nat.{two-pow-succ, pow-le-pow_right}
use agent_benchmark.Outbox.{
  retry_delay_ms, ℕ, Bool, CallbackOutboxRow, Table, CallbackDeliverySummary, claim,
}
use agent_benchmark.Outbox.Delivery.{
  deliver_row, deliver_rows, process, mark_failed, Fetched, refused, ok, reconciled_table,
  empty_summary, fail_row, Write, done, thrown, Answers, Outside, claim_and_deliver,
  delivered_after,
}
use agent_benchmark.Common.{
  ℕ, Bool, ◌≤◌, suc, String, none, some, subst, ap, ◌∙◌, Option, ◌<◌, ◌+◌, ◌≡◌, arith, length, ◌*◌,
  false, ◌∷◌, refl, [], max, min, true, ◌^◌,
}

-- The delay starts at one second, doubles with each of the eight attempts, and never exceeds five
-- minutes.
pub retry_delay_ms_doubles :
    (n : ℕ)
    → (retry_delay_ms 1 ≡ 1000)
      × (retry_delay_ms n ≤ 300000)
      × (n < 8 → retry_delay_ms (n + 2) ≡ 2 * retry_delay_ms (n + 1))
unfolding retry_delay_ms
retry_delay_ms_doubles n = (
  refl,
  ground arith,
  λ h.
      let cap : 2 ^ n ≤ 2 ^ 7 = pow-le-pow_right (omega arith) {j = 7} (omega (arith, h)) in
      ground (arith, two-pow-succ n, cap),
)

-- A summary, where there is one, that accounts for so many rows of those claimed.
abbrev pub Accounts : ℕ → ℕ → Option CallbackDeliverySummary → Type 0
Accounts total claimed none = Unit
Accounts total claimed (some u) = (u.delivered + u.retried + u.dead ≡ total) × (u.claimed ≡ claimed)

fail_row_counts :
    (now : ℕ) (m : String) (w : Write) (row : CallbackOutboxRow) (t : Table)
    (s : CallbackDeliverySummary)
    → Accounts (suc (s.delivered + s.retried + s.dead)) s.claimed (fail_row now m w row t s).1
unfolding fail_row mark_failed
fail_row_counts now m done row t s = ground arith
fail_row_counts now m (thrown b _) row t s = tt

deliver_row_counts :
    (now : ℕ) (f : Fetched) (w v : Write) (row : CallbackOutboxRow) (t : Table)
    (s : CallbackDeliverySummary)
    → Accounts
        (suc (s.delivered + s.retried + s.dead))
        s.claimed
        (deliver_row now (record { fetched = f; marking = w; failing = v }) row t s).1
unfolding deliver_row
deliver_row_counts now (refused m) w v row t s = fail_row_counts now m v row t s
deliver_row_counts now ok done v row t s = ground arith
deliver_row_counts now ok (thrown b m) v row t s = fail_row_counts now m v row _ s

Accounts-agree :
    {a b c d : ℕ} (s : Option CallbackDeliverySummary)
    → a ≡ b
    → c ≡ d
    → Accounts a c s
    → Accounts b d s
Accounts-agree none p q h = tt
Accounts-agree (some u) p q h = (h.0 ∙ p, h.1 ∙ q)

deliver_rows_counts :
    (now : ℕ) (answers : ℕ → CallbackOutboxRow → Answers) (calls : ℕ) (rows t : Table)
    (s : Option CallbackDeliverySummary) (total claimed : ℕ)
    → Accounts total claimed s
    → Accounts (length rows + total) claimed (deliver_rows now answers calls rows (t, s)).1
unfolding deliver_rows
deliver_rows_counts now answers calls [] t s total claimed h =
    Accounts-agree {d = claimed} s (omega arith) refl h
deliver_rows_counts now answers calls (row ∷ rows) t none total claimed h = tt
deliver_rows_counts now answers calls (row ∷ rows) t (some s) total claimed h =
    let a = answers calls row in
    let (t', s') = deliver_row now a row t s in
    let one = deliver_row_counts now a.fetched a.marking a.failing row t s in
    subst (λ k. Accounts k claimed (deliver_rows now answers (suc calls) rows (t', s')).1)
      (omega arith)
      (deliver_rows_counts now answers (suc calls) rows t' s' (suc total) claimed
        (Accounts-agree s' (ap suc h.0) h.1 one))

-- A summary, where there is one, accounts for every claimed row.
abbrev pub AllAccounted : Option CallbackDeliverySummary → Type 0
AllAccounted none = Unit
AllAccounted (some u) = u.delivered + u.retried + u.dead ≡ u.claimed

Accounts-all : (n : ℕ) (s : Option CallbackDeliverySummary) → Accounts (n + 0) n s → AllAccounted s
Accounts-all n none h = tt
Accounts-all n (some u) h = omega (arith, h)

claim_and_deliver-AllAccounted :
    (now : ℕ) (reconcile : Option (Table → Table × Option ℕ)) (w : Write)
    (answers : ℕ → CallbackOutboxRow → Answers) (limit reconciled : ℕ) (t : Table)
    → AllAccounted
        (claim_and_deliver now
          (record { reconcile = reconcile; claiming = w; answers = answers })
          limit
          reconciled
          t).1
unfolding claim_and_deliver
claim_and_deliver-AllAccounted now reconcile (thrown b _) answers limit reconciled t = tt
claim_and_deliver-AllAccounted now reconcile done answers limit reconciled t =
    let (rows, locked) = claim now (max 1 (min limit 100)) t in
    let start = record empty_summary { reconciled = reconciled; claimed = length rows } in
    Accounts-all (length rows) _
      (deliver_rows_counts now answers 0 rows locked (some start) 0 (length rows) (refl, refl))

delivered_after-AllAccounted :
    (now : ℕ) (outside : Outside) (limit : ℕ) (t : Table) (count : Option ℕ)
    → AllAccounted (delivered_after now outside limit t count).1
delivered_after-AllAccounted now outside limit t none = tt
delivered_after-AllAccounted now outside limit t (some k) =
    claim_and_deliver-AllAccounted now outside.reconcile outside.claiming outside.answers limit k t

-- In the summary of a run that does not throw every claimed row is delivered, retried or dead,
-- whatever the web application answers.
pub process-AllAccounted :
    (configured : Bool) (now : ℕ) (outside : Outside) (limit : ℕ) (table : Table)
    → AllAccounted (process configured now outside limit table).1
unfolding process
process-AllAccounted false now outside limit table = refl
process-AllAccounted true now outside limit table =
    delivered_after-AllAccounted now outside limit (reconciled_table outside.reconcile table).0
      (reconciled_table outside.reconcile table).1
