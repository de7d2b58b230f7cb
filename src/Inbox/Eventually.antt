-- ===== src/Inbox/Eventually.antt =====
-- Rechecking with an unchanged draft shows the amendment in the end.
use agent_benchmark.Common.{
  ℕ, suc, ◌+◌, ◌<◌, String, Bool, true, false, ◌≡◌, none, some, List, [], ◌∷◌, ◌++◌, any, ◌==◌,
  ◌&&◌, ◌||◌, map, length, length-append, leb, if◌then◌else◌, arith, refl, ap, ◌∙◌, find-passes,
  and-eq_true,
}
use agent_benchmark.Inbox.{InboxDraft, InboxPolicyCheck, AppSessionState}
use agent_benchmark.Inbox.Actions.{find_draft}
use agent_benchmark.Inbox.Recheck.{
  Action, recheck, Task, act, act_all, recheck_inbox_policy, recheck_with, InboxPolicyAmendment,
  is_updated, next_check, provisional_draft, tracked_draft_id, is_revised, is_provisional,
  in_thread,
}
use agent_benchmark.Inbox.Tracked.{is_updated-at}

any-append :
    (xs ys : List InboxPolicyCheck)
    → any is_updated (xs ++ ys) ≡ (if any is_updated xs then true else any is_updated ys)
any-append [] ys = refl
any-append (x ∷ xs) ys = ground (arith, any-append xs ys)

or-false : (b : Bool) → (b || false) ≡ b
or-false true = refl
or-false false = refl

-- The identifier and the time of each recheck.
abbrev pub rechecks : List (String × String) → List Action
rechecks times = map (λ e. recheck e.0 e.1) times

module _ (t : Task) (a : InboxPolicyAmendment) (d : InboxDraft) (task : t.amendment ≡ some a)
    (named : (d.id == "") ≡ false) (provisional : is_provisional t.before a d ≡ true) where
  -- After `n` rechecks of the draft, none of which showed the amendment.
  record IsWatched (n : ℕ) (s : AppSessionState) : Type 0 where
    count : length s.policy_checks ≡ n
    fresh : any is_updated s.policy_checks ≡ false
    found :
        provisional_draft t.before a t.target_thread (tracked_draft_id s.policy_checks) s.drafts
        ≡ some d
    unchanged : is_revised s.policy_checks d ≡ false
    kept : find_draft d.id s.drafts ≡ some d

  abbrev after : AppSessionState → String → String → AppSessionState
  after s id now = record s {
    policy_checks = s.policy_checks ++ next_check a s.policy_checks d id now ∷ [];
  }

  recheck_with_watched :
      (n : ℕ) (s : AppSessionState) (id now : String)
      → IsWatched n s
      → (recheck_with t.before a t.target_thread id now s).0 ≡ after s id now
  unfolding recheck_with
  recheck_with_watched n s id now w =
      rw (w.fresh, recheck_with, w.found, provisional, w.unchanged) refl

  recheck_watched :
      (n : ℕ) (s : AppSessionState) (id now : String)
      → IsWatched n s
      → act t s (recheck id now) ≡ after s id now
  unfolding act recheck_inbox_policy
  recheck_watched n s id now w =
      ap (λ o. (recheck_inbox_policy t.before o t.target_thread id now s).0) task
      ∙ recheck_with_watched n s id now w

  tracked-snoc :
      (cs : List InboxPolicyCheck) (drafts : List InboxDraft) (id now : String)
      → provisional_draft t.before a t.target_thread (tracked_draft_id cs) drafts ≡ some d
      → find_draft d.id drafts ≡ some d
      → provisional_draft t.before a t.target_thread
          (tracked_draft_id (cs ++ next_check a cs d id now ∷ []))
          drafts
        ≡ some d
  tracked-snoc [] drafts id now found kept = rw named kept
  tracked-snoc (c ∷ cs) drafts id now found kept = found

  unrevised-snoc :
      (cs : List InboxPolicyCheck) (id now : String)
      → is_revised cs d ≡ false
      → is_revised (cs ++ next_check a cs d id now ∷ []) d ≡ false
  unrevised-snoc [] id now h = ground arith
  unrevised-snoc (c ∷ cs) id now h = h

  shown :
      (n : ℕ) (s : AppSessionState) (id now : String)
      → IsWatched n s
      → any is_updated (after s id now).policy_checks ≡ leb a.required_rechecks (suc n)
  shown n s id now w =
      let next = next_check a s.policy_checks d id now in
      let status : is_updated next ≡ leb a.required_rechecks (suc (length s.policy_checks)) =
        is_updated-at a (suc (length s.policy_checks)) next refl in
      any-append s.policy_checks (next ∷ []) ∙ rw (w.fresh, status, w.count) (or-false _)

  IsWatched-next :
      (n : ℕ) (s : AppSessionState) (id now : String)
      → suc n < a.required_rechecks
      → IsWatched n s
      → IsWatched (suc n) (after s id now)
  IsWatched-next n s id now below w = record {
    count = omega (
      arith,
      length-append s.policy_checks (next_check a s.policy_checks d id now ∷ []),
      w.count,
    );
    fresh = shown n s id now w ∙ ground (arith, below);
    found = tracked-snoc s.policy_checks s.drafts id now w.found w.kept;
    unchanged = unrevised-snoc s.policy_checks id now w.unchanged;
    kept = w.kept;
  }

  watched_appears :
      (times : List (String × String)) (n : ℕ) (s : AppSessionState)
      → IsWatched n s
      → 0 < length times
      → n + length times ≡ a.required_rechecks
      → any is_updated (act_all t s (rechecks times)).policy_checks ≡ true
  unfolding act_all
  watched_appears [] n s w some_left total = absurd (omega (arith, some_left))
  watched_appears ((id, now) ∷ []) n s w some_left total =
      ap (λ u. any is_updated u.policy_checks) (recheck_watched n s id now w)
      ∙ (shown n s id now w ∙ ground (arith, total))
  watched_appears ((id, now) ∷ next ∷ more) n s w some_left total =
      ap (λ u. any is_updated (act_all t u (rechecks (next ∷ more))).policy_checks)
        (recheck_watched n s id now w)
      ∙ watched_appears (next ∷ more) (suc n) (after s id now)
          (IsWatched-next n s id now (omega (arith, total)) w) (omega arith) (omega (arith, total))

-- Where a named provisional draft stands in the task's thread and no check was made, as many rechecks
-- as the amendment requires, with no other action between them, show the amendment.
pub amendment_appears :
    (t : Task) (a : InboxPolicyAmendment) (d : InboxDraft) (s : AppSessionState)
    (times : List (String × String))
    → t.amendment ≡ some a
    → (d.id == "") ≡ false
    → s.policy_checks ≡ []
    → provisional_draft t.before a t.target_thread none s.drafts ≡ some d
    → find_draft d.id s.drafts ≡ some d
    → 0 < a.required_rechecks
    → length times ≡ a.required_rechecks
    → any is_updated (act_all t s (rechecks times)).policy_checks ≡ true
amendment_appears t a d s times task named empty found kept positive enough =
    let passes = and-eq_true (in_thread t.target_thread d) (is_provisional t.before a d) (
      find-passes (λ x. in_thread t.target_thread x && is_provisional t.before a x) s.drafts d
        found) in
    watched_appears t a d task named passes.1 times 0 s
      (record {
        count = rw empty refl;
        fresh = rw empty refl;
        found = rw empty found;
        unchanged = rw empty refl;
        kept = kept;
      })
      (omega (arith, positive, enough)) (omega (arith, enough))
