-- ===== src/Commands/Attempts.antt =====
-- How often the loop of `processMessage` calls the handler, and what it leaves alone.

use Prim.Native.String.{String, []}
use agent_benchmark.Common.{
  count, String, ◌≡◌, ◌∙◌, ◌≤◌, ℕ, ◌==◌, arith, suc, get_or, get, map, false, Bool-cases, ◌<◌, inl,
  inr, eq_iff, List, put, ap, ◌++◌, get-put_self, ◌∷◌, get-put, [], ◌+◌, ltb, if◌then◌else◌, refl,
  ltb→lt, Option-cases, count-append, Option, some, none, get-remove,
}
use agent_benchmark.Commands.{
  Options, Store, ℕ, StoredResponse, get_or, Fields, Failure, List, CommandDeadLetter, Option,
  Handled, responded, threw,
}
use agent_benchmark.Commands.Process.{
  Command, Turn, bury, settled, escaped, again, reports, dead_letter_of, fail_attempt, attempt,
  payload_of, answer,
}
use agent_benchmark.Json.{Fields, end}

abbrev pub attempts_of : String → Store → ℕ
attempts_of j s = get_or (get j s.retries) 0

abbrev pub calls_of : String → Store → ℕ
calls_of j s = count j s.calls

abbrev pub letters_of : String → Store → ℕ
letters_of j s = count j (map (λ l. l.command_id) s.dead_letters)

count-letters :
    (j : String) (ls : List CommandDeadLetter) (l : CommandDeadLetter)
    → count j (map (λ l. l.command_id) (ls ++ l ∷ []))
      ≡ count j (map (λ l. l.command_id) ls) + (if l.command_id == j then 1 else 0)
count-letters j [] l = ground arith
count-letters j (k ∷ ls) l = ground (arith, count-letters j ls l)

-- The stored results and the responses, and the counts of other commands, stay.
pub record Kept (id : String) (s t : Store) : Type 0 where
  pub same_results : t.results ≡ s.results
  pub same_responses : t.responses ≡ s.responses
  pub elsewhere :
      (j : String)
      → (id == j) ≡ false
      → (attempts_of j t ≡ attempts_of j s)
        × (calls_of j t ≡ calls_of j s)
        × (letters_of j t ≡ letters_of j s)

pub Kept-trans : (id : String) (s t u : Store) → Kept id s t → Kept id t u → Kept id s u
Kept-trans id s t u h k = record {
  same_results = k.same_results ∙ h.same_results;
  same_responses = k.same_responses ∙ h.same_responses;
  elsewhere = λ j e. ground (arith, h.elsewhere j e, k.elsewhere j e);
}

module _ (o : Options) (c : Command) where
  -- The counts of a command in the middle of its attempts.
  pub record Counts (s t : Store) : Type 0 where
    pub kept : Kept c.command_id s t
    pub called : calls_of c.command_id t ≤ attempts_of c.command_id t
    pub bounded : attempts_of c.command_id t ≤ o.max_command_attempts
    pub letters : letters_of c.command_id t ≡ letters_of c.command_id s

  pub record Settled (s : Store) (r : StoredResponse) (t : Store) : Type 0 where
    pub kept : Kept c.command_id s t
    pub answers : r.command_id ≡ c.command_id
    pub called : calls_of c.command_id t ≤ o.max_command_attempts
    pub letters : letters_of c.command_id t ≤ suc (letters_of c.command_id s)

  abbrev pub Outcome : Store → Turn → Type 0
  Outcome s (settled r t) = Settled s r t
  Outcome s (escaped t) = Counts s t
  Outcome s (again t) =
      Counts s t
      × (attempts_of c.command_id t ≡ suc (attempts_of c.command_id s))
      × (attempts_of c.command_id t < o.max_command_attempts)

  -- The counts read four fields only.
  Counts-agree :
      (s t u : Store)
      → u.results ≡ t.results
      → u.retries ≡ t.retries
      → u.calls ≡ t.calls
      → u.dead_letters ≡ t.dead_letters
      → u.responses ≡ t.responses
      → Counts s t
      → Counts s u
  Counts-agree s t u e1 e2 e3 e4 e5 h = record {
    kept = record {
      same_results = e1 ∙ h.kept.same_results;
      same_responses = e5 ∙ h.kept.same_responses;
      elsewhere = λ j d. rw (e2, e3, e4) (h.kept.elsewhere j d);
    };
    called = rw (e2, e3) h.called;
    bounded = rw e2 h.bounded;
    letters = rw e4 h.letters;
  }

  -- The loop ends with a response or an exception of the callback, never for want of fuel.
  abbrev pub Ended : Store → Option Turn → Type 0
  Ended s none = ⊥
  Ended s (some (settled r t)) = Settled s r t
  Ended s (some (escaped t)) = Counts s t
  Ended s (some (again t)) = ⊥

  pub bury-Ended :
      (payload : Fields) (f : Failure) (n : ℕ) (s t : Store)
      → Counts s t
      → Ended s (some (bury o c payload f n t))
  unfolding bury
  bury-Ended payload f n s t h =
      let letter = dead_letter_of c payload f n in
      elim (Bool-cases (reports o t.dead_letter_calls letter)) [
        | inl e ↦
            rw (e, bury)
              (record {
                kept = record {
                  same_results = h.kept.same_results;
                  same_responses = h.kept.same_responses;
                  elsewhere = λ j d.
                      ground
                        (arith, h.kept.elsewhere j d, count-letters j t.dead_letters letter, d);
                };
                answers = refl;
                called = omega (arith, h.called, h.bounded);
                letters = ground (
                  arith,
                  h.letters,
                  count-letters c.command_id t.dead_letters letter,
                  eq_iff c.command_id c.command_id,
                );
              })
        | inr e ↦ rw (e, bury) (Counts-agree s t _ refl refl refl refl refl h)
      ]

  Ended-Outcome : (s : Store) (turn : Turn) → Ended s (some turn) → Outcome s turn
  Ended-Outcome s (settled r t) h = h
  Ended-Outcome s (escaped t) h = h
  Ended-Outcome s (again t) h = absurd h

  fail_attempt-Outcome :
      (payload : Fields) (f : Failure) (s t : Store)
      → Kept c.command_id s t
      → letters_of c.command_id t ≡ letters_of c.command_id s
      → attempts_of c.command_id t ≡ attempts_of c.command_id s
      → calls_of c.command_id t ≤ suc (attempts_of c.command_id s)
      → attempts_of c.command_id s < o.max_command_attempts
      → Outcome s (fail_attempt o c payload f t)
  unfolding fail_attempt
  fail_attempt-Outcome payload f s t k letters same called bounded =
      let counted = record t {
        retries = put c.command_id (suc (get_or (get c.command_id t.retries) 0)) t.retries;
      } in
      let here : attempts_of c.command_id counted ≡ suc (attempts_of c.command_id s) =
        ap (λ v. get_or v 0)
          (get-put_self c.command_id (suc (get_or (get c.command_id t.retries) 0)) t.retries)
        ∙ ap suc same in
      let counts : Counts s counted = record {
        kept = record {
          same_results = k.same_results;
          same_responses = k.same_responses;
          elsewhere = λ j d. ground (
            arith,
            k.elsewhere j d,
            d,
            get-put c.command_id j (suc (get_or (get c.command_id t.retries) 0)) t.retries,
          );
        };
        called = omega (arith, called, here);
        bounded = omega (arith, bounded, here);
        letters = letters;
      } in
      elim (Bool-cases (ltb (suc (attempts_of c.command_id t)) o.max_command_attempts)) [
        | inl e ↦
            rw (e, fail_attempt)
              (
                Counts-agree s counted _ refl refl refl refl refl counts,
                here,
                ltb→lt _ _ (ground (arith, e, here)),
              )
        | inr e ↦
            rw (e, fail_attempt)
              (Ended-Outcome s _ (
                bury-Ended payload f _ s _
                  (Counts-agree s counted _ refl refl refl refl refl counts)))
      ]

  calls_once :
      (s : Store)
      → calls_of c.command_id (record s { calls = s.calls ++ c.command_id ∷ [] })
        ≡ suc (calls_of c.command_id s)
  calls_once s = ground (
    arith,
    count-append c.command_id s.calls (c.command_id ∷ []),
    eq_iff c.command_id c.command_id,
  )

  call-Kept : (s : Store) → Kept c.command_id s (record s { calls = s.calls ++ c.command_id ∷ [] })
  call-Kept s = record {
    same_results = refl;
    same_responses = refl;
    elsewhere = λ j d. (refl, ground (arith, count-append j s.calls (c.command_id ∷ []), d), refl);
  }

  answer-Outcome :
      (payload : Fields) (h : Handled) (s : Store)
      → calls_of c.command_id s ≤ attempts_of c.command_id s
      → attempts_of c.command_id s < o.max_command_attempts
      → Outcome s (answer o c payload h (record s { calls = s.calls ++ c.command_id ∷ [] }))
  unfolding answer
  answer-Outcome payload (responded r) s called bounded = record {
    kept = record {
      same_results = refl;
      same_responses = refl;
      elsewhere = λ j d.
          ground (arith, (call-Kept s).elsewhere j d, get-remove c.command_id j s.retries, d);
    };
    answers = refl;
    called = omega (arith, calls_once s, called, bounded);
    letters = omega arith;
  }
  answer-Outcome payload (threw f) s called bounded =
      fail_attempt-Outcome payload f s _ (call-Kept s) refl refl
        (omega (arith, calls_once s, called)) bounded

  -- One turn: with attempts left, the handler is called at most once and a failure is counted.
  pub attempt-Outcome :
      (s : Store)
      → calls_of c.command_id s ≤ attempts_of c.command_id s
      → attempts_of c.command_id s < o.max_command_attempts
      → Outcome s (attempt o c s)
  unfolding attempt
  attempt-Outcome s called bounded = elim (Option-cases (payload_of c.payload)) [
    | inl e ↦
        rw (e, attempt)
          (fail_attempt-Outcome end _ s s
            (record {
              same_results = refl;
              same_responses = refl;
              elsewhere = λ j d. (refl, refl, refl);
            })
            refl refl (omega (arith, called)) bounded)
    | inr (payload, e) ↦ rw (e, attempt) (answer-Outcome payload _ s called bounded)
  ]
