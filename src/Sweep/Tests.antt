-- ===== src/Sweep/Tests.antt =====
-- Three expired sessions of two attempts, and one of none.
use agent_benchmark.Common.{
  ℕ, String, List, [], ◌∷◌, ◌≡◌, refl, some, none, true, Option, map, Bool, ◌==◌, if◌then◌else◌,
}
use agent_benchmark.Sweep.{
  ExpiredSessionCandidate, Claim, Answer, body, threw, timeout_expired_attempts,
}
use agent_benchmark.Sweep.Earliest.{IsSweepOf, sweep-IsSweepOf}

abbrev session : String → Option String → ℕ → ExpiredSessionCandidate
session id attempt index = record {
  id = id;
  attempt_id = attempt;
  run_id = none;
  task_slug = "task";
  sequence_index = index;
}

abbrev sessions : List ExpiredSessionCandidate
sessions =
    session "s2" (some "a") 2
    ∷ session "s0" none 0
    ∷ session "s1" (some "a") 1
    ∷ session "s3" (some "b") 3
    ∷ []

abbrev before : String → String → Bool
before a b = a == "s1"

abbrev answer : Claim → Answer
answer c = if c.attempt == "a" then body true else threw

sweep_run :
    map (λ c. c.session.id) (timeout_expired_attempts before answer sessions).calls
    ≡ "s1" ∷ "s3" ∷ []
unfolding timeout_expired_attempts
sweep_run = refl

count_run : (timeout_expired_attempts before answer sessions).timed_out_attempts ≡ 1
unfolding timeout_expired_attempts
count_run = refl

sweep-IsSweepOf_example :
    IsSweepOf answer sessions (timeout_expired_attempts before answer sessions)
sweep-IsSweepOf_example = sweep-IsSweepOf before answer sessions
