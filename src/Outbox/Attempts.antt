-- ===== src/Outbox/Attempts.antt =====
-- Which rows a run may change, and how.
use Prim.Native.String.{String, ◌∷◌}
use agent_benchmark.Outbox.{
  CallbackStatus, CallbackOutboxRow, Table, bury_exhausted, insert, sort, ids, max_attempts, take,
  delivered, is_open, dead, is_pending, lock_row, claim, is_delivering, CallbackDeliverySummary,
  pending, delivering,
}
use agent_benchmark.Common.{
  String, Bool, ◌≡◌, arith, ◌∙◌, All, ℕ, contains, true, ◌≤◌, ap, map, Bool-cases, is_unique, ◌∷◌,
  false, leb, ◌==◌, filter, [], suc, eq_iff, ◌&&◌, ◌||◌, refl, zero, inl, inr, ap₂, if◌then◌else◌,
  ltb, max, none, min, All-imp, sym, Option, some, subst, ◌++◌,
}
use agent_benchmark.Outbox.Delivery.{
  deliver_row, deliver_rows, process, mark_delivered, Fetched, mark_failed, refused, ok,
  update_delivering, delivered_row, failed_row, fail_row, Write, done, thrown, Answers, Outside,
  written, claim_and_deliver, delivered_after, reconciled_table,
}

abbrev pub is_final : CallbackStatus → Bool
is_final delivered = true
is_final dead = true
is_final _ = false

-- A row before and after: the same callback, no attempt is forgotten or made after the eighth, and
-- a delivered or dead row stays as it is.
pub record Moves (r s : CallbackOutboxRow) : Type 0 where
  pub same_id : s.id ≡ r.id
  pub grows : r.attempts ≤ s.attempts
  pub bounded : r.attempts ≤ max_attempts → s.attempts ≤ max_attempts
  pub final : is_final r.status ≡ true → s ≡ r

Moves-refl : (r : CallbackOutboxRow) → Moves r r
Moves-refl r = record { same_id = refl; grows = omega arith; bounded = λ h. h; final = λ h. refl }

Moves-trans : (r s t : CallbackOutboxRow) → Moves r s → Moves s t → Moves r t
Moves-trans r s t h k = record {
  same_id = k.same_id ∙ h.same_id;
  grows = omega (arith, h.grows, k.grows);
  bounded = λ b. k.bounded (h.bounded b);
  final = λ f. k.final (ap (λ x. is_final x.status) (h.final f) ∙ f) ∙ h.final f;
}

-- Row by row.
abbrev pub AllMove : Table → Table → Type 0
AllMove [] [] = Unit
AllMove (r ∷ rs) (s ∷ ss) = Moves r s × AllMove rs ss
AllMove _ _ = ⊥

AllMove-map :
    (f : CallbackOutboxRow → CallbackOutboxRow) (t : Table)
    → All (λ r. Moves r (f r)) t
    → AllMove t (map f t)
AllMove-map f [] h = tt
AllMove-map f (r ∷ t) (p, h) = (p, AllMove-map f t h)

AllMove-trans : (t u v : Table) → AllMove t u → AllMove u v → AllMove t v
AllMove-trans [] [] v h k = k
AllMove-trans (r ∷ t) (s ∷ u) (x ∷ v) (p, h) (q, k) =
    (Moves-trans r s x p q, AllMove-trans t u v h k)
AllMove-trans [] (s ∷ u) v h k = absurd h
AllMove-trans (r ∷ t) [] v h k = absurd h
AllMove-trans (r ∷ t) (s ∷ u) [] h k = absurd k

All-always :
    (P : CallbackOutboxRow → Type 0) (t : Table) → ((r : CallbackOutboxRow) → P r) → All P t
All-always P [] h = tt
All-always P (r ∷ t) h = (h r, All-always P t h)

final_rests :
    (s : CallbackStatus) → is_final s ≡ true → (is_pending s ≡ false) × (is_delivering s ≡ false)
final_rests pending h = cc
final_rests delivering h = cc
final_rests delivered h = (refl, refl)
final_rests dead h = (refl, refl)

bury_exhausted-Moves : (now : ℕ) (r : CallbackOutboxRow) → Moves r (bury_exhausted now r)
unfolding bury_exhausted
bury_exhausted-Moves now r = elim (Bool-cases (leb max_attempts r.attempts && is_open now r)) [
  | inl e ↦
      rw (e, bury_exhausted)
        (record {
          same_id = refl;
          grows = omega arith;
          bounded = λ h. h;
          final = λ f. absurd (ground (arith, e, final_rests r.status f));
        })
  | inr e ↦ rw (e, bury_exhausted) (Moves-refl r)
]

-- Rows with distinct ids: the ids of those that pass a test are carried by no other row.
contains-take :
    (id : String) (n : ℕ) (t : Table)
    → contains id (ids (take n t)) ≡ true
    → contains id (ids t) ≡ true
contains-take id zero t h = cc
contains-take id (suc n) [] h = cc
contains-take id (suc n) (r ∷ t) h = ground (arith, contains-take id n t)

contains-insert :
    (id : String) (r : CallbackOutboxRow) (t : Table)
    → contains id (ids (insert r t)) ≡ (r.id == id || contains id (ids t))
unfolding insert
contains-insert id r [] = refl
contains-insert id r (s ∷ t) = ground (arith, contains-insert id r t)

contains-sort : (id : String) (t : Table) → contains id (ids (sort t)) ≡ contains id (ids t)
unfolding sort
contains-sort id [] = refl
contains-sort id (r ∷ t) = ground (arith, contains-insert id r (sort t), contains-sort id t)

contains-filter :
    (id : String) (p : CallbackOutboxRow → Bool) (t : Table)
    → contains id (ids (filter p t)) ≡ true
    → contains id (ids t) ≡ true
contains-filter id p [] h = cc
contains-filter id p (r ∷ t) h = ground (arith, contains-filter id p t)

passes_later :
    (p : CallbackOutboxRow → Bool) (x : CallbackOutboxRow) (t rest : Table)
    → All (λ r. contains r.id (ids (filter p rest)) ≡ true → p r ≡ true) t
    → contains x.id (ids t) ≡ false
    → All (λ r. contains r.id (ids (filter p (x ∷ rest))) ≡ true → p r ≡ true) t
passes_later p x [] rest h d = tt
passes_later p x (r ∷ t) rest (q, h) d = (
  λ c. ground (arith, eq_iff x.id r.id, eq_iff r.id x.id, q),
  passes_later p x t rest h (ground (arith, d)),
)

filter_passes :
    (p : CallbackOutboxRow → Bool) (t : Table)
    → is_unique (ids t) ≡ true
    → All (λ r. contains r.id (ids (filter p t)) ≡ true → p r ≡ true) t
filter_passes p [] u = tt
filter_passes p (x ∷ t) u = (
  λ c. ground (arith, contains-filter x.id p t, u),
  passes_later p x t t (filter_passes p t (ground (arith, u))) (ground (arith, u)),
)

lock_row-Moves :
    (now : ℕ) (b : Bool) (r : CallbackOutboxRow)
    → (b ≡ true → (is_open now r && ltb r.attempts max_attempts) ≡ true)
    → Moves r (if b then lock_row now r else r)
unfolding lock_row
lock_row-Moves now false r h = Moves-refl r
lock_row-Moves now true r h = record {
  same_id = refl;
  grows = omega arith;
  bounded = λ b. ground (arith, h refl);
  final = λ f. absurd (ground (arith, h refl, final_rests r.status f));
}

ids-bury_exhausted : (now : ℕ) (t : Table) → ids (map (bury_exhausted now) t) ≡ ids t
unfolding bury_exhausted
ids-bury_exhausted now [] = refl
ids-bury_exhausted now (r ∷ t) =
    ap₂ (λ x xs. x ∷ xs) (bury_exhausted-Moves now r).same_id (ids-bury_exhausted now t)

claim-AllMove :
    (now limit : ℕ) (t : Table) → is_unique (ids t) ≡ true → AllMove t (claim now limit t).1
unfolding claim
claim-AllMove now limit t u =
    let alive = map (bury_exhausted now) t in
    let p : CallbackOutboxRow → Bool = λ r. is_open now r && ltb r.attempts max_attempts in
    let n = max 1 (min limit 100) in
    let chosen = ids (take n (sort (filter p alive))) in
    AllMove-trans t alive (map (λ r. if contains r.id chosen then lock_row now r else r) alive)
      (AllMove-map (bury_exhausted now) t
        (All-always (λ r. Moves r (bury_exhausted now r)) t (bury_exhausted-Moves now)))
      (AllMove-map (λ r. if contains r.id chosen then lock_row now r else r) alive
        (All-imp
          (λ r h. lock_row-Moves now (contains r.id chosen) r (λ c. h (
            sym (contains-sort r.id (filter p alive))
            ∙ contains-take r.id n (sort (filter p alive)) c)))
          alive (filter_passes p alive (ap is_unique (ids-bury_exhausted now t) ∙ u))))

update-Moves :
    (id : String) (f : CallbackOutboxRow → CallbackOutboxRow) (r : CallbackOutboxRow)
    → (f r).id ≡ r.id
    → (f r).attempts ≡ r.attempts
    → Moves r (if r.id == id && is_delivering r.status then f r else r)
update-Moves id f r e a = elim (Bool-cases (r.id == id && is_delivering r.status)) [
  | inl c ↦ rw c (record {
    same_id = e;
    grows = omega (arith, a);
    bounded = λ b. omega (arith, a, b);
    final = λ h. absurd (ground (arith, c, final_rests r.status h));
  })
  | inr c ↦ rw c (Moves-refl r)
]

update-AllMove :
    (id : String) (f : CallbackOutboxRow → CallbackOutboxRow) (t : Table)
    → ((r : CallbackOutboxRow) → (f r).id ≡ r.id)
    → ((r : CallbackOutboxRow) → (f r).attempts ≡ r.attempts)
    → AllMove t (update_delivering id f t)
update-AllMove id f t e a =
    let g : CallbackOutboxRow → CallbackOutboxRow =
      λ r. if r.id == id && is_delivering r.status then f r else r in
    AllMove-map g t (All-always (λ r. Moves r (g r)) t (λ r. update-Moves id f r (e r) (a r)))

AllMove-refl : (t : Table) → AllMove t t
AllMove-refl [] = tt
AllMove-refl (r ∷ t) = (Moves-refl r, AllMove-refl t)

written-AllMove :
    (b : Bool) (t after before : Table)
    → AllMove t after
    → AllMove t before
    → AllMove t (written b after before)
written-AllMove true t after before h k = h
written-AllMove false t after before h k = k

mark_failed-AllMove :
    (now : ℕ) (m : String) (row : CallbackOutboxRow) (t : Table)
    → AllMove t (mark_failed now m row t).0
unfolding mark_failed
mark_failed-AllMove now m row t =
    update-AllMove row.id (failed_row now m row) t (λ r. refl) (λ r. refl)

fail_row-AllMove :
    (now : ℕ) (m : String) (w : Write) (row : CallbackOutboxRow) (t : Table)
    (s : CallbackDeliverySummary)
    → AllMove t (fail_row now m w row t s).0
unfolding fail_row
fail_row-AllMove now m done row t s = mark_failed-AllMove now m row t
fail_row-AllMove now m (thrown b _) row t s =
    written-AllMove b t _ t (mark_failed-AllMove now m row t) (AllMove-refl t)

deliver_row-AllMove :
    (now : ℕ) (f : Fetched) (w v : Write) (row : CallbackOutboxRow) (t : Table)
    (s : CallbackDeliverySummary)
    → AllMove t (deliver_row now (record { fetched = f; marking = w; failing = v }) row t s).0
unfolding deliver_row mark_delivered
deliver_row-AllMove now (refused m) w v row t s = fail_row-AllMove now m v row t s
deliver_row-AllMove now ok done v row t s =
    update-AllMove row.id (delivered_row now) t (λ r. refl) (λ r. refl)
deliver_row-AllMove now ok (thrown b m) v row t s =
    let marked = mark_delivered now row t in
    AllMove-trans t (written b marked t) _
      (written-AllMove b t marked t
        (update-AllMove row.id (delivered_row now) t (λ r. refl) (λ r. refl)) (AllMove-refl t))
      (fail_row-AllMove now m v row (written b marked t) s)

deliver_rows-AllMove :
    (now : ℕ) (answers : ℕ → CallbackOutboxRow → Answers) (calls : ℕ) (rows t : Table)
    (s : Option CallbackDeliverySummary)
    → AllMove t (deliver_rows now answers calls rows (t, s)).0
unfolding deliver_rows
deliver_rows-AllMove now answers calls [] t s = AllMove-refl t
deliver_rows-AllMove now answers calls (row ∷ rows) t none = AllMove-refl t
deliver_rows-AllMove now answers calls (row ∷ rows) t (some s) =
    let a = answers calls row in
    let (t', s') = deliver_row now a row t s in
    AllMove-trans t t' (deliver_rows now answers (suc calls) rows (t', s')).0
      (deliver_row-AllMove now a.fetched a.marking a.failing row t s)
      (deliver_rows-AllMove now answers (suc calls) rows t' s')

claim_and_deliver-AllMove :
    (now : ℕ) (reconcile : Option (Table → Table × Option ℕ)) (w : Write)
    (answers : ℕ → CallbackOutboxRow → Answers) (limit reconciled : ℕ) (t : Table)
    → is_unique (ids t) ≡ true
    → AllMove t
        (claim_and_deliver now
          (record { reconcile = reconcile; claiming = w; answers = answers })
          limit
          reconciled
          t).0
unfolding claim_and_deliver
claim_and_deliver-AllMove now reconcile (thrown b _) answers limit reconciled t u =
    written-AllMove b t _ t (claim-AllMove now (max 1 (min limit 100)) t u) (AllMove-refl t)
claim_and_deliver-AllMove now reconcile done answers limit reconciled t u =
    let (rows, locked) = claim now (max 1 (min limit 100)) t in
    AllMove-trans t locked _ (claim-AllMove now (max 1 (min limit 100)) t u)
      (deliver_rows-AllMove now answers 0 rows locked _)

counted-AllMove :
    (now : ℕ) (outside : Outside) (limit : ℕ) (t : Table) (count : Option ℕ)
    → is_unique (ids t) ≡ true
    → AllMove t (delivered_after now outside limit t count).0
counted-AllMove now outside limit t none u = AllMove-refl t
counted-AllMove now outside limit t (some k) u =
    claim_and_deliver-AllMove now outside.reconcile outside.claiming outside.answers limit k t u

-- Where the reconciliation, if there is one, only adds rows, and the ids with theirs are distinct, a
-- run loses no row, neither of the table nor added, makes no attempt after the eighth, and leaves
-- every delivered or dead row as it is, whatever the web application answers and whichever call of
-- the database throws, before or after it took effect.
pub process-AllMove :
    (configured : Bool) (now : ℕ) (outside : Outside) (limit : ℕ) (t added : Table)
    → (reconciled_table outside.reconcile t).0 ≡ t ++ added
    → is_unique (ids (t ++ added)) ≡ true
    → AllMove (if configured then t ++ added else t) (process configured now outside limit t).0
unfolding process
process-AllMove false now outside limit t added e u = AllMove-refl t
process-AllMove true now outside limit t added e u =
    subst
      (λ x.
        AllMove x
          (delivered_after now outside limit (reconciled_table outside.reconcile t).0
            (reconciled_table outside.reconcile t).1).0)
      e
      (counted-AllMove now outside limit (reconciled_table outside.reconcile t).0
        (reconciled_table outside.reconcile t).1 (ap (λ x. is_unique (ids x)) e ∙ u))
