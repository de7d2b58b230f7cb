-- ===== src/Sweep.antt =====
-- apps/hosted-orchestrator/src/expiry-sweep.ts: the time-outs of attempts whose sessions expired.
pub mod Earliest
mod Tests
use agent_benchmark.Common.{
  ℕ, suc, ◌+◌, String, Bool, true, false, ◌==◌, Option, none, some, List, [], ◌∷◌, ◌++◌,
  if◌then◌else◌, ltb, contains, sort_by,
}

pub record ExpiredSessionCandidate : Type 0 where
  pub id : String
  pub attempt_id : Option String
  pub run_id : Option String
  pub task_slug : String
  pub sequence_index : ℕ

-- A candidate whose attempt is known.
pub record Claim : Type 0 where
  pub session : ExpiredSessionCandidate
  pub attempt : String

-- `Boolean(session.attemptId)`: null and the empty text are dropped.
abbrev pub claim_of : ExpiredSessionCandidate → Option String → List Claim
claim_of s none = []
claim_of s (some attempt) =
    if attempt == "" then [] else record { session = s; attempt = attempt } ∷ []

unfoldable pub claims : List ExpiredSessionCandidate → List Claim
claims [] = []
claims (s ∷ ss) = claim_of s s.attempt_id ++ claims ss

-- `left.sequenceIndex - right.sequenceIndex || left.id.localeCompare(right.id)` below zero, with the
-- comparison of the locale as a parameter.
abbrev pub precedes : (String → String → Bool) → Claim → Claim → Bool
precedes locale_before a b =
    if ltb a.session.sequence_index b.session.sequence_index
    then true
    else if ltb b.session.sequence_index a.session.sequence_index
    then false
    else locale_before a.session.id b.session.id

-- How a call of `timeoutAttempt` ends: with the body's `ok`, or by an exception.
pub data Answer : Type 0 where
  body : Bool → Answer
  threw : Answer

-- The calls in their order, those that threw among them, and the count that is returned.
pub record Swept : Type 0 where
  pub calls : List Claim
  pub errors : List Claim
  pub timed_out_attempts : ℕ

abbrev pub counted : Claim → Answer → Swept → Swept
counted c (body true) r = record r {
  calls = c ∷ r.calls;
  timed_out_attempts = suc r.timed_out_attempts;
}
counted c (body false) r = record r { calls = c ∷ r.calls }
counted c threw r = record r { calls = c ∷ r.calls; errors = c ∷ r.errors }

-- The loop, with the attempts that were claimed before.
unfoldable pub sweep : (Claim → Answer) → List String → List Claim → Swept
sweep timeout_attempt claimed [] = record { calls = []; errors = []; timed_out_attempts = 0 }
sweep timeout_attempt claimed (c ∷ cs) = elim (contains c.attempt claimed) [
  | true ↦ sweep timeout_attempt claimed cs
  | false ↦ counted c (timeout_attempt c) (sweep timeout_attempt (c.attempt ∷ claimed) cs)
]

unfoldable pub timeout_expired_attempts :
    (String → String → Bool) → (Claim → Answer) → List ExpiredSessionCandidate → Swept
unfolding sweep claims sort_by
timeout_expired_attempts locale_before timeout_attempt sessions =
    sweep timeout_attempt [] (sort_by (precedes locale_before) (claims sessions))
