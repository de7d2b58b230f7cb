-- ===== src/Sweep/Earliest.antt =====
-- The sweep times out each attempt once, for its earliest expired session.
use agent_benchmark.Common.{
  ℕ, suc, ◌≤◌, String, Bool, true, false, ◌==◌, ◌≡◌, ◌≢◌, ◌⊎◌, inl, inr, List, [], ◌∷◌, contains,
  sort_by, In, In-sort, In-of_sort, All, All-In, All-imp, Ascends, sort-Ascends, Distinct, map,
  Bool-cases, arith, eq_iff, refl, ap, sym, ◌∙◌, subst,
}
use agent_benchmark.Sweep.{
  ExpiredSessionCandidate, Claim, claims, precedes, Answer, body, threw, Swept, counted, sweep,
  timeout_expired_attempts,
}

abbrev sequence : Claim → ℕ
sequence c = c.session.sequence_index

-- A call for the claim's attempt, by a session that is not later.
abbrev pub IsCovered : List Claim → Claim → Type 0
IsCovered calls c = (k : Claim) × In k calls × (k.attempt ≡ c.attempt) × (sequence k ≤ sequence c)

counted-calls : (c : Claim) (a : Answer) (r : Swept) → (counted c a r).calls ≡ c ∷ r.calls
counted-calls c (body true) r = refl
counted-calls c (body false) r = refl
counted-calls c threw r = refl

abbrev pub tally : Answer → ℕ → ℕ
tally (body true) n = suc n
tally (body false) n = n
tally threw n = n

-- How many of the calls were answered by `ok`.
abbrev pub ok_count : (Claim → Answer) → List Claim → ℕ
ok_count answer [] = 0
ok_count answer (c ∷ cs) = tally (answer c) (ok_count answer cs)

record Covers (claimed : List String) (cs calls : List Claim) : Type 0 where
  once : Distinct (map (λ c. c.attempt) calls)
  fresh : All (λ c. contains c.attempt claimed ≡ false) calls
  known : (k : Claim) → In k calls → In k cs
  covered : (c : Claim) → In c cs → (contains c.attempt claimed ≡ true) ⊎ IsCovered calls c

fresh-apart :
    (x : String) (claimed : List String) (calls : List Claim)
    → All (λ c. contains c.attempt (x ∷ claimed) ≡ false) calls
    → All (λ y. y ≢ x) (map (λ c. c.attempt) calls)
fresh-apart x claimed [] _ = tt
fresh-apart x claimed (c ∷ cs) (p, ps) =
    (λ e. cc (p, (eq_iff x c.attempt).1 (sym e)), fresh-apart x claimed cs ps)

skip-Covers :
    (claimed : List String) (c : Claim) (cs calls : List Claim)
    → contains c.attempt claimed ≡ true
    → Covers claimed cs calls
    → Covers claimed (c ∷ cs) calls
skip-Covers claimed c cs calls old h = record {
  once = h.once;
  fresh = h.fresh;
  known = λ k m. inr (h.known k m);
  covered = λ d m. at d m;
}
  where
    at : (d : Claim) → In d (c ∷ cs) → (contains d.attempt claimed ≡ true) ⊎ IsCovered calls d
    at d (inl e) = inl (subst (λ x. contains x.attempt claimed ≡ true) (sym e) old)
    at d (inr m) = h.covered d m

call-Covers :
    (claimed : List String) (c : Claim) (cs calls : List Claim)
    → contains c.attempt claimed ≡ false
    → All (λ d. sequence c ≤ sequence d) cs
    → Covers (c.attempt ∷ claimed) cs calls
    → Covers claimed (c ∷ cs) (c ∷ calls)
call-Covers claimed c cs calls new least h = record {
  once = (fresh-apart c.attempt claimed calls h.fresh, h.once);
  fresh = (
    new,
    All-imp
        (λ (d : Claim) (p : contains d.attempt (c.attempt ∷ claimed) ≡ false). ground (arith, p))
        calls h.fresh,
  );
  known = λ k m. from k m;
  covered = λ d m. at d m;
}
  where
    from : (k : Claim) → In k (c ∷ calls) → In k (c ∷ cs)
    from k (inl e) = inl e
    from k (inr m) = inr (h.known k m)

    later :
        (d : Claim)
        → In d cs
        → (contains d.attempt (c.attempt ∷ claimed) ≡ true) ⊎ IsCovered calls d
        → (contains d.attempt claimed ≡ true) ⊎ IsCovered (c ∷ calls) d
    later d m (inr (k, n, e, l)) = inr (k, inr n, e, l)
    later d m (inl e) = elim (Bool-cases (c.attempt == d.attempt)) [
      | inl same ↦ inr (
        c,
        inl refl,
        (eq_iff c.attempt d.attempt).0 same,
        All-In (λ d. sequence c ≤ sequence d) cs d least m,
      )
      | inr other ↦ inl (ground (arith, e, other))
    ]

    at : (d : Claim) → In d (c ∷ cs) → (contains d.attempt claimed ≡ true) ⊎ IsCovered (c ∷ calls) d
    at d (inl e) = inr (c, inl refl, ap (λ x. x.attempt) (sym e), omega (arith, ap sequence e))
    at d (inr m) = later d m (h.covered d m)

sweep-Covers :
    (answer : Claim → Answer) (claimed : List String) (cs : List Claim)
    → Ascends sequence cs
    → Covers claimed cs (sweep answer claimed cs).calls
unfolding sweep
sweep-Covers answer claimed [] _ = record {
  once = tt;
  fresh = tt;
  known = λ k m. m;
  covered = λ c m. absurd m;
}
sweep-Covers answer claimed (c ∷ cs) (least, later) =
    elim (Bool-cases (contains c.attempt claimed)) [
      | inl old ↦
          rw (old, sweep) (skip-Covers claimed c cs _ old (sweep-Covers answer claimed cs later))
      | inr new ↦
          let r = sweep answer (c.attempt ∷ claimed) cs in
          rw (new, sweep)
            (subst (Covers claimed (c ∷ cs)) (sym (counted-calls c (answer c) r)) (
              call-Covers claimed c cs r.calls new least
                (sweep-Covers answer (c.attempt ∷ claimed) cs later)))
    ]

count-counted :
    (answer : Claim → Answer) (c : Claim) (a : Answer) (r : Swept)
    → answer c ≡ a
    → r.timed_out_attempts ≡ ok_count answer r.calls
    → (counted c a r).timed_out_attempts ≡ ok_count answer (counted c a r).calls
count-counted answer c (body true) r e h =
    ap suc h ∙ ap (λ a. tally a (ok_count answer r.calls)) (sym e)
count-counted answer c (body false) r e h = h ∙ ap (λ a. tally a (ok_count answer r.calls)) (sym e)
count-counted answer c threw r e h = h ∙ ap (λ a. tally a (ok_count answer r.calls)) (sym e)

sweep-count :
    (answer : Claim → Answer) (claimed : List String) (cs : List Claim)
    → (sweep answer claimed cs).timed_out_attempts ≡ ok_count answer (sweep answer claimed cs).calls
unfolding sweep
sweep-count answer claimed [] = refl
sweep-count answer claimed (c ∷ cs) = elim (Bool-cases (contains c.attempt claimed)) [
  | inl old ↦ rw (old, sweep) (sweep-count answer claimed cs)
  | inr new ↦
      rw (new, sweep)
        (count-counted answer c (answer c) _ refl (sweep-count answer (c.attempt ∷ claimed) cs))
]

-- What a sweep promises of the sessions that it is given.
pub record IsSweepOf (answer : Claim → Answer) (sessions : List ExpiredSessionCandidate) (r : Swept)
    : Type 0 where
  -- No attempt is timed out twice.
  pub once : Distinct (map (λ c. c.attempt) r.calls)
  pub known : (k : Claim) → In k r.calls → In k (claims sessions)
  pub covered : (c : Claim) → In c (claims sessions) → IsCovered r.calls c
  pub count : r.timed_out_attempts ≡ ok_count answer r.calls

precedes-le :
    (before : String → String → Bool) (a b : Claim)
    → precedes before a b ≡ true
    → sequence a ≤ sequence b
precedes-le before a b h = ground (arith, h)

not_precedes-le :
    (before : String → String → Bool) (a b : Claim)
    → precedes before a b ≡ false
    → sequence b ≤ sequence a
not_precedes-le before a b h = ground (arith, h)

-- A sweep calls a time-out for exactly the attempts of the expired sessions that name one, each once,
-- for the session of lowest sequence index; the number that it returns is that of the calls answered by
-- `ok`. This holds whichever calls fail or throw.
pub sweep-IsSweepOf :
    (before : String → String → Bool) (answer : Claim → Answer)
    (sessions : List ExpiredSessionCandidate)
    → IsSweepOf answer sessions (timeout_expired_attempts before answer sessions)
unfolding timeout_expired_attempts
sweep-IsSweepOf before answer sessions =
    let sorted = sort_by (precedes before) (claims sessions) in
    let h = sweep-Covers answer [] sorted (
      sort-Ascends (precedes before) sequence (precedes-le before) (not_precedes-le before)
        (claims sessions)) in
    record {
      once = h.once;
      known = λ k m. In-of_sort (precedes before) k (claims sessions) (h.known k m);
      covered = λ c m. not_claimed (h.covered c (In-sort (precedes before) c (claims sessions) m));
      count = sweep-count answer [] sorted;
    }
  where
    not_claimed : {A : Type 0} → (false ≡ true) ⊎ A → A
    not_claimed (inl e) = cc
    not_claimed (inr x) = x
