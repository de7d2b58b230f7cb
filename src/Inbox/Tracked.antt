-- ===== src/Inbox/Tracked.antt =====
-- The policy checks of the inbox over every course of actions.
use agent_benchmark.Common.{
  ℕ, suc, ◌+◌, ◌≤◌, ◌<◌, String, Bool, true, false, ◌≡◌, ◌⊎◌, some, List, [], ◌∷◌, ◌++◌, any,
  length, length-append, leb, if◌then◌else◌, Bool-cases, Option-cases, inl, inr, arith, refl, ap,
  ◌∙◌, or-eq_false, contains, subst, sym,
}
use agent_benchmark.Inbox.{InboxDraft, InboxPolicyCheck, pending, updated, AppSessionState}
use agent_benchmark.Inbox.Actions.{
  DraftInput, save_inbox_draft, update_inbox_draft, send_inbox_draft, record_violation, store_new,
  store_revised, find_draft,
}
use agent_benchmark.Inbox.Recheck.{
  Action, save, update, send, recheck, Task, act, act_all, recheck_inbox_policy,
  InboxPolicyAmendment, is_updated, next_check, status_at, baseline,
}
use agent_benchmark.Inbox.Safe.{checked_elim}
use agent_benchmark.Inbox.Policy.{recheck_elim}

-- The checks from number `n` on: numbered without a gap, of one draft at one revision, and updated
-- exactly from the required number on.
abbrev pub Numbered : InboxPolicyAmendment → ℕ → ℕ → List InboxPolicyCheck → Type 0
Numbered a n revision [] = Unit
Numbered a n revision (c ∷ cs) =
    (c.check_number ≡ n)
    × (c.status ≡ status_at a n)
    × (c.baseline_revision_count ≡ revision)
    × Numbered a (suc n) revision cs

-- The checks of a session: no more than are required.
pub record IsTracked (a : InboxPolicyAmendment) (checks : List InboxPolicyCheck) : Type 0 where
  pub numbered : (revision : ℕ) × Numbered a 1 revision checks
  pub bounded : length checks ≤ a.required_rechecks

Numbered-snoc :
    (a : InboxPolicyAmendment) (n revision : ℕ) (cs : List InboxPolicyCheck) (c : InboxPolicyCheck)
    → Numbered a n revision cs
    → c.check_number ≡ n + length cs
    → c.status ≡ status_at a (n + length cs)
    → c.baseline_revision_count ≡ revision
    → Numbered a n revision (cs ++ c ∷ [])
Numbered-snoc a n revision [] c h p q r =
    (omega (arith, p), q ∙ ap (status_at a) (omega arith), r, tt)
Numbered-snoc a n revision (d ∷ cs) c (x, y, z, h) p q r = (
  x,
  y,
  z,
  Numbered-snoc a (suc n) revision cs c h (omega (arith, p)) (q ∙ ap (status_at a) (omega arith)) r,
)

pub is_updated-at :
    (a : InboxPolicyAmendment) (n : ℕ) (c : InboxPolicyCheck)
    → c.status ≡ status_at a n
    → is_updated c ≡ leb a.required_rechecks n
is_updated-at a n c h =
    ap (λ s. elim s [ updated ↦ true | pending ↦ false ]) h ∙ at_number (leb a.required_rechecks n)
  where
    at_number :
        (b : Bool)
        → (elim (if b then updated else pending) [ updated ↦ true | pending ↦ false ]) ≡ b
    at_number true = refl
    at_number false = refl

-- While no check is updated, fewer than the required ones were made.
none_updated-lt :
    (a : InboxPolicyAmendment) (n revision : ℕ) (cs : List InboxPolicyCheck)
    → Numbered a (suc n) revision cs
    → any is_updated cs ≡ false
    → (n + length cs < a.required_rechecks) ⊎ (cs ≡ [])
none_updated-lt a n revision [] h e = inr refl
none_updated-lt a n revision (c ∷ cs) (x, y, z, h) e =
    let (open', others) = or-eq_false (is_updated c) (any is_updated cs) e in
    let below : suc n < a.required_rechecks = ground (arith, is_updated-at a (suc n) c y, open') in
    longer (none_updated-lt a (suc n) revision cs h others) below
  where
    longer :
        (suc n + length cs < a.required_rechecks) ⊎ (cs ≡ [])
        → suc n < a.required_rechecks
        → (n + length (c ∷ cs) < a.required_rechecks) ⊎ (c ∷ cs ≡ [])
    longer (inl more) below = inl (omega (arith, more))
    longer (inr none_left) below = inl (omega (arith, below, ap length none_left))

baseline-stays :
    (a : InboxPolicyAmendment) (revision : ℕ) (cs : List InboxPolicyCheck) (d : InboxDraft)
    → Numbered a 1 revision cs
    → (r : ℕ) × Numbered a 1 r cs × (baseline cs d ≡ r)
baseline-stays a revision [] d h = (d.revision_count, tt, refl)
baseline-stays a revision (c ∷ cs) d (x, y, z, h) = (revision, (x, y, z, h), z)

next-IsTracked :
    (a : InboxPolicyAmendment) (checks : List InboxPolicyCheck) (d : InboxDraft) (id now : String)
    → 0 < a.required_rechecks
    → any is_updated checks ≡ false
    → IsTracked a checks
    → IsTracked a (checks ++ next_check a checks d id now ∷ [])
next-IsTracked a checks d id now positive open' t =
    let (revision, h) = t.numbered in
    let (r, k, same) = baseline-stays a revision checks d h in
    record {
      numbered = (
        r,
        Numbered-snoc a 1 r checks (next_check a checks d id now) k (omega arith)
            (ap (status_at a) (omega arith)) same,
      );
      bounded = fits (none_updated-lt a 0 revision checks h open');
    }
  where
    fits :
        (0 + length checks < a.required_rechecks) ⊎ (checks ≡ [])
        → length (checks ++ next_check a checks d id now ∷ []) ≤ a.required_rechecks
    fits (inl fewer) =
        omega (arith, fewer, length-append checks (next_check a checks d id now ∷ []))
    fits (inr empty) =
        omega (
          arith,
          positive,
          ap length empty,
          length-append checks (next_check a checks d id now ∷ []),
        )

-- The other actions leave the checks alone.
save-keeps :
    (t : Task) (s : AppSessionState) (i : DraftInput)
    → (save_inbox_draft t.lower i s).0.policy_checks ≡ s.policy_checks
unfolding save_inbox_draft record_violation
save-keeps t s i = elim (Bool-cases (contains i.target s.thread_ids)) [
  | inr unknown ↦ rw (unknown, save_inbox_draft) refl
  | inl known ↦
      rw (known, save_inbox_draft)
        (checked_elim (λ r. r.0.policy_checks ≡ s.policy_checks) t.lower i s (store_new i s)
          (λ m. refl) (λ rule m. refl) (λ rs a. refl))
]

update-keeps :
    (t : Task) (s : AppSessionState) (i : DraftInput)
    → (update_inbox_draft t.lower i s).0.policy_checks ≡ s.policy_checks
unfolding update_inbox_draft record_violation
update-keeps t s i = elim (Option-cases (find_draft i.target s.drafts)) [
  | inl missing ↦ rw (missing, update_inbox_draft) refl
  | inr (d, found) ↦
      rw (found, update_inbox_draft)
        (checked_elim (λ r. r.0.policy_checks ≡ s.policy_checks) t.lower i s (store_revised i s d)
          (λ m. refl) (λ rule m. refl) (λ rs a. refl))
]

send-keeps :
    (s : AppSessionState) (id now : String)
    → (send_inbox_draft id now s).0.policy_checks ≡ s.policy_checks
unfolding send_inbox_draft
send-keeps s id now = elim (Option-cases (find_draft id s.drafts)) [
  | inl missing ↦ rw (missing, send_inbox_draft) refl
  | inr (d, found) ↦ rw (found, send_inbox_draft) refl
]

recheck-IsTracked :
    (t : Task) (a : InboxPolicyAmendment) (s : AppSessionState) (id now : String)
    → t.amendment ≡ some a
    → 0 < a.required_rechecks
    → IsTracked a s.policy_checks
    → IsTracked a
        (recheck_inbox_policy t.before t.amendment t.target_thread id now s).0.policy_checks
unfolding recheck_inbox_policy
recheck-IsTracked t a s id now e positive v =
    subst
      (λ o. IsTracked a (recheck_inbox_policy t.before o t.target_thread id now s).0.policy_checks)
      (sym e)
      (recheck_elim (λ u. IsTracked a u.policy_checks) t.before a t.target_thread id now s v
        (λ d open' _ _. next-IsTracked a s.policy_checks d id now positive open' v))

act-IsTracked :
    (t : Task) (a : InboxPolicyAmendment) (s : AppSessionState) (x : Action)
    → t.amendment ≡ some a
    → 0 < a.required_rechecks
    → IsTracked a s.policy_checks
    → IsTracked a (act t s x).policy_checks
unfolding act
act-IsTracked t a s (save i) e positive v = subst (IsTracked a) (sym (save-keeps t s i)) v
act-IsTracked t a s (update i) e positive v = subst (IsTracked a) (sym (update-keeps t s i)) v
act-IsTracked t a s (send id now) e positive v = subst (IsTracked a) (sym (send-keeps s id now)) v
act-IsTracked t a s (recheck id now) e positive v = recheck-IsTracked t a s id now e positive v

-- With an amendment that requires some rechecks, whatever is saved, updated, sent or rechecked: the
-- policy checks are numbered from 1 without a gap, never more than required, all at one baseline
-- revision, and a check shows the amendment exactly from the required number on.
pub act_all-IsTracked :
    (t : Task) (a : InboxPolicyAmendment) (actions : List Action) (s : AppSessionState)
    → t.amendment ≡ some a
    → 0 < a.required_rechecks
    → IsTracked a s.policy_checks
    → IsTracked a (act_all t s actions).policy_checks
unfolding act_all
act_all-IsTracked t a [] s e positive v = v
act_all-IsTracked t a (x ∷ more) s e positive v =
    act_all-IsTracked t a more (act t s x) e positive (act-IsTracked t a s x e positive v)
