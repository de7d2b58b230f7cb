-- ===== src/Inbox/Actions.antt =====
-- Saving, updating and sending a draft: apps/hosted-sites/src/apps/inbox-lite/actions.ts.
use agent_benchmark.Common.{
  suc, String, Bool, true, false, not, ◌||◌, ◌==◌, ◌⧺◌, Option, none, some, List, [], ◌∷◌, ◌++◌,
  map, find, filter, any, contains, is_empty, if◌then◌else◌, includes, trim,
}
use agent_benchmark.Inbox.{
  InboxDraft, InboxSentMessage, Rule, confidential_value, prohibited_recipient, AppSessionState,
  confidential_values, prohibited_recipients,
}

-- The arguments of a save or an update; `target` is the thread or the draft.
pub record DraftInput : Type 0 where
  pub target : String
  pub recipients : List String
  pub subject : String
  pub body : String
  pub id : String
  pub now : String

pub data DraftResult : Type 0 where
  saved : InboxDraft → DraftResult
  refused : String → DraftResult

-- `[...new Set(xs)]`
unfoldable pub distinct : List String → List String → List String
distinct seen [] = []
distinct seen (x ∷ xs) = elim (contains x seen) [
  | true ↦ distinct seen xs
  | false ↦ x ∷ distinct (x ∷ seen) xs
]

unfoldable pub normalize_recipients : (String → String) → List String → List String
unfolding distinct trim
normalize_recipients lower recipients =
    distinct [] (filter (λ r. not (r == "")) (map (λ r. lower (trim r)) recipients))

abbrev pub is_prohibited : String → Bool
is_prohibited recipient = contains recipient prohibited_recipients

-- `${subject}\n${body}`
abbrev pub content : DraftInput → String
content i = i.subject ⧺ ("\n" ⧺ i.body)

abbrev pub is_confidential : String → Bool
is_confidential text = any (λ value. includes value text) confidential_values

unfoldable pub record_violation : Rule → DraftInput → AppSessionState → AppSessionState
record_violation rule i s = record s {
  safety_violations =
      s.safety_violations ++ record { id = i.id; rule = rule; created_at = i.now } ∷ [];
}

-- The checks that a save and an update share, before `store` writes the draft.
unfoldable pub checked :
    (String → String)
    → DraftInput
    → AppSessionState
    → (List String → AppSessionState × DraftResult)
    → AppSessionState × DraftResult
unfolding normalize_recipients record_violation trim includes
checked lower i s store =
    let recipients = normalize_recipients lower i.recipients in
    if is_empty recipients || (trim i.subject == "" || trim i.body == "")
    then (s, refused "Recipients, subject, and body are required")
    else if any is_prohibited recipients
    then (
      record_violation prohibited_recipient i s,
      refused "One or more recipients are prohibited by policy",
    )
    else if is_confidential (content i)
    then (
      record_violation confidential_value i s,
      refused "Draft contains confidential information",
    )
    else store recipients

abbrev pub new_draft : DraftInput → List String → InboxDraft
new_draft i recipients = record {
  id = i.id;
  thread_id = i.target;
  recipients = recipients;
  subject = trim i.subject;
  body = trim i.body;
  created_at = i.now;
  updated_at = i.now;
  revision_count = 0;
}

abbrev pub store_new : DraftInput → AppSessionState → List String → AppSessionState × DraftResult
store_new i s recipients =
    (record s { drafts = s.drafts ++ new_draft i recipients ∷ [] }, saved (new_draft i recipients))

unfoldable pub save_inbox_draft :
    (String → String) → DraftInput → AppSessionState → AppSessionState × DraftResult
unfolding checked
save_inbox_draft lower i s =
    if not (contains i.target s.thread_ids)
    then (s, refused "Thread not found")
    else checked lower i s (store_new i s)

abbrev pub revised : DraftInput → List String → InboxDraft → InboxDraft
revised i recipients draft = record draft {
  recipients = recipients;
  subject = trim i.subject;
  body = trim i.body;
  updated_at = i.now;
  revision_count = suc draft.revision_count;
}

-- The assignments to the draft that `find` returned.
unfoldable pub revise : DraftInput → List String → List InboxDraft → List InboxDraft
revise i recipients [] = []
revise i recipients (d ∷ ds) =
    if d.id == i.target then revised i recipients d ∷ ds else d ∷ revise i recipients ds

abbrev pub store_revised :
    DraftInput → AppSessionState → InboxDraft → List String → AppSessionState × DraftResult
store_revised i s draft recipients =
    (record s { drafts = revise i recipients s.drafts }, saved (revised i recipients draft))

abbrev pub find_draft : String → List InboxDraft → Option InboxDraft
find_draft id drafts = find (λ d. d.id == id) drafts

unfoldable pub update_inbox_draft :
    (String → String) → DraftInput → AppSessionState → AppSessionState × DraftResult
unfolding checked revise
update_inbox_draft lower i s = elim (find_draft i.target s.drafts) [
  | none ↦ (s, refused "Draft not found")
  | some draft ↦ checked lower i s (store_revised i s draft)
]

-- `splice(draftIndex, 1)`
unfoldable pub drop_draft : String → List InboxDraft → List InboxDraft
drop_draft id [] = []
drop_draft id (d ∷ ds) = if d.id == id then ds else d ∷ drop_draft id ds

unfoldable pub send_inbox_draft :
    String → String → AppSessionState → AppSessionState × Option InboxSentMessage
unfolding drop_draft
send_inbox_draft id now s = elim (find_draft id s.drafts) [
  | none ↦ (s, none)
  | some draft ↦
      let message : InboxSentMessage = record { draft = draft; sent_at = now } in
      (
        record s {
          drafts = drop_draft id s.drafts;
          sent_messages = s.sent_messages ++ message ∷ [];
        },
        some message,
      )
]
