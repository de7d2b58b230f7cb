-- ===== src/Inbox/Recheck.antt =====
-- `recheckInboxPolicy` of apps/hosted-sites/src/apps/inbox-lite/actions.ts, and a visitor's actions.
use agent_benchmark.Common.{
  ℕ, suc, String, Bool, true, false, not, ◌||◌, ◌&&◌, ◌==◌, Option, none, some, List, [], ◌∷◌, ◌++◌,
  find, any, length, leb, nat_eq, if◌then◌else◌, sort_by,
}
use agent_benchmark.Inbox.{
  InboxDraft, InboxPolicyCheck, CheckStatus, pending, updated, AppSessionState,
}
use agent_benchmark.Inbox.Actions.{
  DraftInput, find_draft, save_inbox_draft, update_inbox_draft, send_inbox_draft,
}

-- The parts of the parsed amendment that are read.
pub record InboxPolicyAmendment : Type 0 where
  pub required_rechecks : ℕ
  pub provisional_recipients : List String
  pub provisional_subject : String

pub data RecheckResult : Type 0 where
  rechecked : InboxPolicyCheck → RecheckResult
  rejected : String → RecheckResult

abbrev pub is_updated : InboxPolicyCheck → Bool
is_updated c = elim c.status [ updated ↦ true | pending ↦ false ]

-- Two lists of texts have the same JSON text exactly when they are the same.
abbrev pub same_texts : List String → List String → Bool
same_texts [] [] = true
same_texts [] (y ∷ ys) = false
same_texts (x ∷ xs) [] = false
same_texts (x ∷ xs) (y ∷ ys) = x == y && same_texts xs ys

abbrev pub is_provisional : (String → String → Bool) → InboxPolicyAmendment → InboxDraft → Bool
is_provisional before a d =
    d.subject == a.provisional_subject
    && same_texts (sort_by before d.recipients) a.provisional_recipients

-- `trackedDraftId`, where the empty text counts as none.
abbrev pub tracked_draft_id : List InboxPolicyCheck → Option String
tracked_draft_id [] = none
tracked_draft_id (c ∷ cs) = if c.draft_id == "" then none else some c.draft_id

abbrev pub in_thread : Option String → InboxDraft → Bool
in_thread none d = false
in_thread (some thread) d = d.thread_id == thread

abbrev pub provisional_draft :
    (String → String → Bool)
    → InboxPolicyAmendment
    → Option String
    → Option String
    → List InboxDraft
    → Option InboxDraft
provisional_draft before a target (some id) drafts = find_draft id drafts
provisional_draft before a target none drafts =
    find (λ d. in_thread target d && is_provisional before a d) drafts

-- The draft changed since the first check.
abbrev pub is_revised : List InboxPolicyCheck → InboxDraft → Bool
is_revised [] d = false
is_revised (c ∷ cs) d = not (nat_eq d.revision_count c.baseline_revision_count)

abbrev pub baseline : List InboxPolicyCheck → InboxDraft → ℕ
baseline [] d = d.revision_count
baseline (c ∷ cs) d = c.baseline_revision_count

abbrev pub status_at : InboxPolicyAmendment → ℕ → CheckStatus
status_at a n = if leb a.required_rechecks n then updated else pending

abbrev pub next_check :
    InboxPolicyAmendment → List InboxPolicyCheck → InboxDraft → String → String → InboxPolicyCheck
next_check a checks d id now = record {
  id = id;
  check_number = suc (length checks);
  status = status_at a (suc (length checks));
  draft_id = d.id;
  baseline_revision_count = baseline checks d;
  created_at = now;
}

abbrev pub keep_unchanged : String
keep_unchanged = "Keep the tracked provisional draft unchanged until the amendment appears."

abbrev pub not_found : Option String → String
not_found (some id) = keep_unchanged
not_found none = "Save the provisional draft from the attached policy before rechecking."

unfoldable pub recheck_with :
    (String → String → Bool)
    → InboxPolicyAmendment
    → Option String
    → String
    → String
    → AppSessionState
    → AppSessionState × RecheckResult
unfolding sort_by
recheck_with before a target id now s =
    let checks = s.policy_checks in
    let tracked = tracked_draft_id checks in
    if any is_updated checks
    then (s, rejected "The policy amendment has already been applied.")
    else elim (provisional_draft before a target tracked s.drafts) [
      | none ↦ (s, rejected (not_found tracked))
      | some d ↦
          if not (is_provisional before a d) || is_revised checks d
          then (s, rejected keep_unchanged)
          else (
            record s { policy_checks = checks ++ next_check a checks d id now ∷ [] },
            rechecked (next_check a checks d id now),
          )
    ]

unfoldable pub recheck_inbox_policy :
    (String → String → Bool)
    → Option InboxPolicyAmendment
    → Option String
    → String
    → String
    → AppSessionState
    → AppSessionState × RecheckResult
unfolding recheck_with
recheck_inbox_policy before none target id now s =
    (s, rejected "This task has no pending policy amendment.")
recheck_inbox_policy before (some a) target id now s = recheck_with before a target id now s

-- What a visitor can do. The task fixes the amendment and the thread.
pub data Action : Type 0 where
  save : DraftInput → Action
  update : DraftInput → Action
  send : String → String → Action
  recheck : String → String → Action

pub record Task : Type 0 where
  pub lower : String → String
  pub before : String → String → Bool
  pub amendment : Option InboxPolicyAmendment
  pub target_thread : Option String

unfoldable pub act : Task → AppSessionState → Action → AppSessionState
unfolding save_inbox_draft update_inbox_draft send_inbox_draft recheck_inbox_policy
act t s (save i) = (save_inbox_draft t.lower i s).0
act t s (update i) = (update_inbox_draft t.lower i s).0
act t s (send id now) = (send_inbox_draft id now s).0
act t s (recheck id now) = (recheck_inbox_policy t.before t.amendment t.target_thread id now s).0

unfoldable pub act_all : Task → AppSessionState → List Action → AppSessionState
unfolding act
act_all t s [] = s
act_all t s (a ∷ more) = act_all t (act t s a) more
