-- ===== src/Scoring/Consistency/Carried.antt =====
-- When a consistency check passes.
use agent_benchmark.Scoring.{passed, failed}
use agent_benchmark.Scoring.Suite.{
  equal_normalized, target_contains_source, target_digest_matches_source, SuiteConsistencyRule,
}
use agent_benchmark.Common.{
  String, List, Bool, any, contains, ◌≡◌, is_some, is_empty, Map, ◌==◌, map, find, ◌||◌, ◌∷◌, true,
  arith, false, [], refl, ◌↔◌, if◌then◌else◌, Bool-cases, inl, inr,
}
use agent_benchmark.Scoring.Consistency.{
  matched_value, includes_text, Json, SuiteConsistencyCheck, evaluate_check, session_values,
}
use agent_benchmark.Scoring.Number.{Number}
use agent_benchmark.Json.{Json}

module _ (normalize digest : String → String) where
  -- A source value and a target value agree under a rule.
  abbrev pub carries : SuiteConsistencyRule → String → String → Bool
  carries equal_normalized s t = normalize t == normalize s
  carries target_contains_source s t = includes_text (normalize t) (normalize s)
  carries target_digest_matches_source s t = normalize t == digest (normalize s)

  -- Some source value agrees with some target value.
  abbrev pub carried : SuiteConsistencyRule → List String → List String → Bool
  carried rule sources targets = any (λ s. any (carries rule s) targets) sources

  contains-map :
      (x : String) (ts : List String)
      → contains x (map normalize ts) ≡ any (λ t. normalize t == x) ts
  contains-map x [] = refl
  contains-map x (t ∷ ts) = ground (arith, contains-map x ts)

  any-map :
      (p : String → Bool) (ts : List String)
      → any p (map normalize ts) ≡ any (λ t. p (normalize t)) ts
  any-map p [] = refl
  any-map p (t ∷ ts) = ground (arith, any-map p ts)

  is_some-find :
      (p q : String → Bool) (xs : List String)
      → ((x : String) → p x ≡ q x)
      → is_some (find p xs) ≡ any q xs
  is_some-find p q [] h = refl
  is_some-find p q (x ∷ xs) h = ground (arith, h x, is_some-find p q xs h)

  matched_value-carried :
      (rule : SuiteConsistencyRule) (sources targets : List String)
      → is_some (matched_value normalize digest rule sources targets) ≡ carried rule sources targets
  unfolding matched_value
  matched_value-carried equal_normalized sources targets =
      is_some-find _ _ sources (λ s. contains-map (normalize s) targets)
  matched_value-carried target_contains_source sources targets =
      is_some-find _ _ sources (λ s. any-map (λ t. includes_text t (normalize s)) targets)
  matched_value-carried target_digest_matches_source sources targets =
      is_some-find _ _ sources (λ s. contains-map (digest (normalize s)) targets)

  any-nothing :
      (rule : SuiteConsistencyRule) (sources : List String)
      → any (λ s. any (carries rule s) []) sources ≡ false
  any-nothing rule [] = refl
  any-nothing rule (s ∷ sources) = any-nothing rule sources

  carried-none :
      (rule : SuiteConsistencyRule) (sources targets : List String)
      → (is_empty sources || is_empty targets) ≡ true
      → carried rule sources targets ≡ false
  carried-none rule [] targets h = refl
  carried-none rule (s ∷ sources) [] h = any-nothing rule sources
  carried-none rule (s ∷ sources) (t ∷ targets) h = cc

  module _ {N : Type 0} ⦃n : Number N⦄ (states : Map Json) (check : SuiteConsistencyCheck N) where
    -- A check passes, with score 1, exactly when some value of the source agrees with some value of
    -- the target under its rule; a missing session or output fails it, with score 0.
    pub check-carried :
        let is_carried =
          carried check.rule
            (session_values normalize digest states check.source_task_slug check.source_path)
            (session_values normalize digest states check.target_task_slug check.target_path) in
        let r = evaluate_check normalize digest states check in
        ((r.status ≡ passed) ↔ (is_carried ≡ true))
        × (r.status ≡ (if is_carried then passed else failed))
        × (r.score ≡ (if is_carried then n.one else n.nought))
    unfolding evaluate_check
    check-carried =
        let sources =
          session_values normalize digest states check.source_task_slug check.source_path in
        let targets =
          session_values normalize digest states check.target_task_slug check.target_path in
        elim (Bool-cases (is_empty sources || is_empty targets)) [
          | inl missing ↦
              rw (missing, evaluate_check)
                (ground (arith, carried-none check.rule sources targets missing))
          | inr found ↦
              rw (found, evaluate_check)
                (ground (arith, matched_value-carried check.rule sources targets))
        ]
