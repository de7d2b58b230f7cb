-- ===== src/Inbox/Amendment.antt =====
-- apps/hosted-sites/src/apps/inbox-lite/policy-amendment.ts: the amendment in a task's configuration.
use agent_benchmark.Common.{
  ℕ, ◌≤◌, String, Bool, ◌==◌, ◌≡◌, Option, none, some, List, [], ◌∷◌, map, leb, is_empty,
  if◌then◌else◌, sort_by, arith,
}
use agent_benchmark.Json.{
  Json, Items, nil, cons, Fields, string, array, get_field, as_string, as_natural, as_record,
}
use agent_benchmark.Inbox.Recheck.{InboxPolicyAmendment}

-- The strings of an array that holds nothing else.
abbrev pub all_strings : Items → Option (List String)
all_strings nil = some []
all_strings (cons (string s) vs) = elim (all_strings vs) [ none ↦ none | some ss ↦ some (s ∷ ss) ]
all_strings (cons _ vs) = none

abbrev pub string_array : Option Json → Option (List String)
string_array (some (array vs)) = all_strings vs
string_array _ = none

-- A text that is not empty.
abbrev pub filled : Option Json → Option String
filled o = elim (as_string o) [ none ↦ none | some s ↦ if s == "" then none else some s ]

abbrev pub at_least_two : Option Json → Option ℕ
at_least_two o = elim (as_natural o) [ none ↦ none | some n ↦ if leb 2 n then some n else none ]

abbrev pub some_texts : Option Json → Option (List String)
some_texts o = elim (string_array o) [
  | none ↦ none
  | some ss ↦ if is_empty ss then none else some ss
]

-- `none` where one of the guards fails.
abbrev pub read_amendment :
    (String → String) → (String → String → Bool) → Fields → Option InboxPolicyAmendment
read_amendment lower before r = elim (at_least_two (get_field "requiredRechecks" r)) [
  | none ↦ none
  | some n ↦ elim (filled (get_field "pendingMessage" r)) [
    | none ↦ none
    | some _ ↦ elim (filled (get_field "appliedMessage" r)) [
      | none ↦ none
      | some _ ↦ elim (some_texts (get_field "provisionalRecipients" r)) [
        | none ↦ none
        | some rs ↦ elim (filled (get_field "provisionalSubject" r)) [
          | none ↦ none
          | some subject ↦ some (record {
            required_rechecks = n;
            provisional_recipients = sort_by before (map lower rs);
            provisional_subject = subject;
          })
        ]
      ]
    ]
  ]
]

unfoldable pub read_inbox_policy_amendment :
    (String → String) → (String → String → Bool) → Fields → Option InboxPolicyAmendment
unfolding get_field sort_by
read_inbox_policy_amendment lower before config =
    elim (as_record (get_field "policyAmendment" config)) [
      | none ↦ none
      | some r ↦ read_amendment lower before r
    ]

at_least_two-le : (o : Option Json) (n : ℕ) → at_least_two o ≡ some n → 2 ≤ n
at_least_two-le o n h = bounded (as_natural o) h
  where
    bounded :
        (m : Option ℕ)
        → (elim m [ none ↦ none | some n ↦ if leb 2 n then some n else none ]) ≡ some n
        → 2 ≤ n
    bounded none e = cc
    bounded (some k) e = ground (arith, e)
