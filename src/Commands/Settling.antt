-- ===== src/Commands/Settling.antt =====
-- The loop of attempts ends, and what a settled command leaves.
use agent_benchmark.Common.{
  zero, suc, Option, ℕ, ◌≤◌, arith, ◌∙◌, some, ◌+◌, ◌≡◌, Bool-cases, ◌<◌, leb, inl, none, inr, refl,
}
use agent_benchmark.Commands.{Options, Store, StoredResponse}
use agent_benchmark.Commands.Process.{
  Command, attempts, settle, Turn, settled, escaped, again, attempt,
}
use agent_benchmark.Commands.Attempts.{
  Counts, calls_of, Settled, Kept-trans, Ended, Outcome, attempts_of, attempt-Outcome, bury-Ended,
}

module _ (o : Options) (c : Command) where
  Settled-trans :
      (s t : Store) (r : StoredResponse) (u : Store)
      → Counts o c s t
      → Settled o c t r u
      → Settled o c s r u
  Settled-trans s t r u h k = record {
    kept = Kept-trans c.command_id s t u h.kept k.kept;
    answers = k.answers;
    called = k.called;
    letters = omega (arith, h.letters, k.letters);
  }

  Counts-trans : (s t u : Store) → Counts o c s t → Counts o c t u → Counts o c s u
  Counts-trans s t u h k = record {
    kept = Kept-trans c.command_id s t u h.kept k.kept;
    called = k.called;
    bounded = k.bounded;
    letters = k.letters ∙ h.letters;
  }

  Ended-trans : (s t : Store) (e : Option Turn) → Counts o c s t → Ended o c t e → Ended o c s e
  Ended-trans s t none h k = k
  Ended-trans s t (some (settled r u)) h k = Settled-trans s t r u h k
  Ended-trans s t (some (escaped u)) h k = Counts-trans s t u h k
  Ended-trans s t (some (again u)) h k = k

  -- The rest of the loop after a turn.
  abbrev continue : ℕ → Turn → Option Turn
  continue n (settled r t) = some (settled r t)
  continue n (escaped t) = some (escaped t)
  continue n (again t) = attempts o n c t

  continue-Ended :
      (n : ℕ) (s : Store) (turn : Turn)
      → Outcome o c s turn
      → suc n + attempts_of c.command_id s ≡ o.max_command_attempts
      → ((t : Store)
          → calls_of c.command_id t ≤ attempts_of c.command_id t
          → n + attempts_of c.command_id t ≡ o.max_command_attempts
          → attempts_of c.command_id t < o.max_command_attempts
          → Ended o c t (attempts o n c t))
      → Ended o c s (continue n turn)
  continue-Ended n s (settled r t) h fuel more = h
  continue-Ended n s (escaped t) h fuel more = h
  continue-Ended n s (again t) h fuel more =
      Ended-trans s t (attempts o n c t) h.0 (more t h.0.called (omega (arith, h.1, fuel)) h.2)

  -- As much fuel as there are attempts left is enough.
  attempts-Ended :
      (n : ℕ) (s : Store)
      → calls_of c.command_id s ≤ attempts_of c.command_id s
      → n + attempts_of c.command_id s ≡ o.max_command_attempts
      → attempts_of c.command_id s < o.max_command_attempts
      → Ended o c s (attempts o n c s)
  unfolding attempts
  attempts-Ended zero s called fuel left = omega (arith, fuel, left)
  attempts-Ended (suc n) s called fuel left =
      continue-Ended n s (attempt o c s) (attempt-Outcome o c s called left) fuel (attempts-Ended n)

  -- A command that is settled, from attempts persisted or not.
  pub settle-Ended :
      (s : Store)
      → calls_of c.command_id s ≤ attempts_of c.command_id s
      → attempts_of c.command_id s ≤ o.max_command_attempts
      → Ended o c s (settle o c s)
  unfolding settle
  settle-Ended s called bounded =
      elim (Bool-cases (leb o.max_command_attempts (attempts_of c.command_id s))) [
        | inl e ↦
            rw (e, settle)
              (bury-Ended o c _ _ _ s s (record {
                kept = record {
                  same_results = refl;
                  same_responses = refl;
                  elsewhere = λ j d. (refl, refl, refl);
                };
                called = called;
                bounded = bounded;
                letters = refl;
              }))
        | inr e ↦ rw (e, settle) (attempts-Ended _ s called (ground (arith, e)) (ground (arith, e)))
      ]
