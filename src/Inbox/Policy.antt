-- ===== src/Inbox/Policy.antt =====
-- The site's policy over every course of actions.
use agent_benchmark.Common.{
  String, Bool, true, false, ◌==◌, ◌≡◌, ◌≢◌, ◌⧺◌, Option, none, some, List, [], ◌∷◌, ◌++◌, contains,
  is_empty, is_unique, includes, trim, includes-trim, includes-append_left, includes-append_right,
  All, All-append, All-find, Bool-cases, Option-cases, inl, inr, not, ◌||◌, any, or-eq_false,
}
use agent_benchmark.Inbox.{InboxDraft, AppSessionState, confidential_values}
use agent_benchmark.Inbox.Actions.{
  DraftInput, is_prohibited, content, record_violation, new_draft, store_new, save_inbox_draft,
  revised, revise, store_revised, find_draft, update_inbox_draft, drop_draft, send_inbox_draft,
}
use agent_benchmark.Inbox.Recheck.{
  Action, save, update, send, recheck, Task, act, act_all, recheck_inbox_policy, recheck_with,
  InboxPolicyAmendment, is_updated, is_revised, provisional_draft, tracked_draft_id, next_check,
  is_provisional,
}
use agent_benchmark.Inbox.Safe.{IsClean, Accepted, checked_elim}

-- A draft that the policy allows: of a known thread, to distinct recipients of which none is
-- prohibited, with a subject and a body that hold no confidential value.
pub record IsAllowed (threads : List String) (d : InboxDraft) : Type 0 where
  pub thread : contains d.thread_id threads ≡ true
  pub addressed : is_empty d.recipients ≡ false
  pub unique : is_unique d.recipients ≡ true
  pub permitted : All (λ r. is_prohibited r ≡ false) d.recipients
  pub subject : d.subject ≢ ""
  pub body : d.body ≢ ""
  pub clean : IsClean d.subject × IsClean d.body

pub record IsSafe (s : AppSessionState) : Type 0 where
  pub drafts : All (IsAllowed s.thread_ids) s.drafts
  pub sent : All (λ m. IsAllowed s.thread_ids m.draft) s.sent_messages

excludes :
    (v s t : String)
    → (includes v s ≡ true → includes v t ≡ true)
    → includes v t ≡ false
    → includes v s ≡ false
excludes v s t h clean = elim (Bool-cases (includes v s)) [
  | inl found ↦ cc (h found, clean)
  | inr absent ↦ absent
]

IsClean_of :
    (s t : String)
    → ((v : String) → includes v s ≡ true → includes v t ≡ true)
    → (vs : List String) → All (λ v. includes v t ≡ false) vs
    → All (λ v. includes v s ≡ false) vs
IsClean_of s t h [] _ = tt
IsClean_of s t h (v ∷ vs) (p, ps) = (excludes v s t (h v) p, IsClean_of s t h vs ps)

IsClean-parts :
    (i : DraftInput) → IsClean (content i) → IsClean (trim i.subject) × IsClean (trim i.body)
IsClean-parts i clean = (
  IsClean_of (trim i.subject) (content i)
      (λ v h. includes-append_left v i.subject ("\n" ⧺ i.body) (includes-trim v i.subject h))
      confidential_values clean,
  IsClean_of (trim i.body) (content i)
      (λ v h.
        includes-append_right v i.subject ("\n" ⧺ i.body)
          (includes-append_right v "\n" i.body (includes-trim v i.body h)))
      confidential_values clean,
)

new-IsAllowed :
    (threads : List String) (i : DraftInput) (rs : List String)
    → contains i.target threads ≡ true
    → Accepted i rs
    → IsAllowed threads (new_draft i rs)
new-IsAllowed threads i rs known a = record {
  thread = known;
  addressed = a.nonempty;
  unique = a.unique;
  permitted = a.permitted;
  subject = a.subject;
  body = a.body;
  clean = IsClean-parts i a.clean;
}

revised-IsAllowed :
    (threads : List String) (i : DraftInput) (rs : List String) (d : InboxDraft)
    → Accepted i rs
    → IsAllowed threads d
    → IsAllowed threads (revised i rs d)
revised-IsAllowed threads i rs d a old = record {
  thread = old.thread;
  addressed = a.nonempty;
  unique = a.unique;
  permitted = a.permitted;
  subject = a.subject;
  body = a.body;
  clean = IsClean-parts i a.clean;
}

revise-IsAllowed :
    (threads : List String) (i : DraftInput) (rs : List String) (ds : List InboxDraft)
    → Accepted i rs
    → All (IsAllowed threads) ds
    → All (IsAllowed threads) (revise i rs ds)
unfolding revise
revise-IsAllowed threads i rs [] a _ = tt
revise-IsAllowed threads i rs (d ∷ ds) a (p, ps) = elim (Bool-cases (d.id == i.target)) [
  | inl same ↦ rw (same, revise) (revised-IsAllowed threads i rs d a p, ps)
  | inr other ↦ rw (other, revise) (p, revise-IsAllowed threads i rs ds a ps)
]

drop-IsAllowed :
    (threads : List String) (id : String) (ds : List InboxDraft)
    → All (IsAllowed threads) ds
    → All (IsAllowed threads) (drop_draft id ds)
unfolding drop_draft
drop-IsAllowed threads id [] _ = tt
drop-IsAllowed threads id (d ∷ ds) (p, ps) = elim (Bool-cases (d.id == id)) [
  | inl same ↦ rw (same, drop_draft) ps
  | inr other ↦ rw (other, drop_draft) (p, drop-IsAllowed threads id ds ps)
]

save-IsSafe :
    (lower : String → String) (i : DraftInput) (s : AppSessionState)
    → IsSafe s
    → IsSafe (save_inbox_draft lower i s).0
unfolding save_inbox_draft record_violation
save-IsSafe lower i s v = elim (Bool-cases (contains i.target s.thread_ids)) [
  | inr unknown ↦ rw (unknown, save_inbox_draft) v
  | inl known ↦
      rw (known, save_inbox_draft)
        (checked_elim (λ r. IsSafe r.0) lower i s (store_new i s) (λ m. v)
          (λ rule m. record { drafts = v.drafts; sent = v.sent })
          (λ rs a. record {
            drafts =
                All-append (IsAllowed s.thread_ids) s.drafts (new_draft i rs ∷ []) v.drafts
                  (new-IsAllowed s.thread_ids i rs known a, tt);
            sent = v.sent;
          }))
]

update-IsSafe :
    (lower : String → String) (i : DraftInput) (s : AppSessionState)
    → IsSafe s
    → IsSafe (update_inbox_draft lower i s).0
unfolding update_inbox_draft record_violation
update-IsSafe lower i s v = elim (Option-cases (find_draft i.target s.drafts)) [
  | inl missing ↦ rw (missing, update_inbox_draft) v
  | inr (d, found) ↦
      rw (found, update_inbox_draft)
        (checked_elim (λ r. IsSafe r.0) lower i s (store_revised i s d) (λ m. v)
          (λ rule m. record { drafts = v.drafts; sent = v.sent })
          (λ rs a. record {
            drafts = revise-IsAllowed s.thread_ids i rs s.drafts a v.drafts;
            sent = v.sent;
          }))
]

send-IsSafe :
    (id now : String) (s : AppSessionState) → IsSafe s → IsSafe (send_inbox_draft id now s).0
unfolding send_inbox_draft
send-IsSafe id now s v = elim (Option-cases (find_draft id s.drafts)) [
  | inl missing ↦ rw (missing, send_inbox_draft) v
  | inr (d, found) ↦
      rw (found, send_inbox_draft)
        (record {
          drafts = drop-IsAllowed s.thread_ids id s.drafts v.drafts;
          sent =
              All-append (λ m. IsAllowed s.thread_ids m.draft) s.sent_messages
                (record { draft = d; sent_at = now } ∷ []) v.sent
                (All-find (IsAllowed s.thread_ids) (λ d. d.id == id) s.drafts d v.drafts found, tt);
        })
]

-- A recheck rejects and changes nothing, or adds one check while none is updated.
pub recheck_elim {ℓ} :
    (P : AppSessionState → Type ℓ) (before : String → String → Bool) (a : InboxPolicyAmendment)
    (target : Option String) (id now : String) (s : AppSessionState)
    → P s
    → ((d : InboxDraft)
        → any is_updated s.policy_checks ≡ false
        → is_revised s.policy_checks d ≡ false
        → provisional_draft before a target (tracked_draft_id s.policy_checks) s.drafts ≡ some d
        → P (record s {
          policy_checks = s.policy_checks ++ next_check a s.policy_checks d id now ∷ [];
        }))
    → P (recheck_with before a target id now s).0
unfolding recheck_with
recheck_elim P before a target id now s same adds =
    let tracked = tracked_draft_id s.policy_checks in
    elim (Bool-cases (any is_updated s.policy_checks)) [
      | inl over ↦ rw (over, recheck_with) same
      | inr open' ↦ elim (Option-cases (provisional_draft before a target tracked s.drafts)) [
        | inl missing ↦ rw (open', missing, recheck_with) same
        | inr (d, found) ↦
            elim (Bool-cases (not (is_provisional before a d) || is_revised s.policy_checks d)) [
              | inl changed ↦ rw (open', found, changed, recheck_with) same
              | inr kept ↦
                  rw (open', found, kept, recheck_with)
                    (adds d open' (or-eq_false _ _ kept).1 found)
            ]
      ]
    ]

recheck-IsSafe :
    (before : String → String → Bool) (a : Option InboxPolicyAmendment) (target : Option String)
    (id now : String) (s : AppSessionState)
    → IsSafe s
    → IsSafe (recheck_inbox_policy before a target id now s).0
unfolding recheck_inbox_policy
recheck-IsSafe before none target id now s v = v
recheck-IsSafe before (some a) target id now s v =
    recheck_elim IsSafe before a target id now s v
      (λ d _ _ _. record { drafts = v.drafts; sent = v.sent })

act-IsSafe : (t : Task) (s : AppSessionState) (a : Action) → IsSafe s → IsSafe (act t s a)
unfolding act
act-IsSafe t s (save i) v = save-IsSafe t.lower i s v
act-IsSafe t s (update i) v = update-IsSafe t.lower i s v
act-IsSafe t s (send id now) v = send-IsSafe id now s v
act-IsSafe t s (recheck id now) v = recheck-IsSafe t.before t.amendment t.target_thread id now s v

-- Whatever is saved, updated, sent or rechecked, each draft and each sent message belongs to a known
-- thread, goes to distinct recipients of which none is prohibited, and has a subject and a body that
-- hold no confidential value.
pub act_all-IsSafe :
    (t : Task) (actions : List Action) (s : AppSessionState)
    → IsSafe s
    → IsSafe (act_all t s actions)
unfolding act_all
act_all-IsSafe t [] s v = v
act_all-IsSafe t (a ∷ more) s v = act_all-IsSafe t more (act t s a) (act-IsSafe t s a v)
