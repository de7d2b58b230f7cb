-- ===== src/Aggregation/Accepted.antt =====
-- The outcomes of an attempt are what scenarioNodeOutcomeSchema accepts.
use agent_benchmark.Common.{
  ◌≡◌, refl, subst, true, Bool-cases, inl, inr, Option, none, some, List, [], ◌∷◌, map, arith, get,
  All, All-get, All-map, All-of_entries, Option-cases, find,
}
use agent_benchmark.Json.{Json}
use agent_benchmark.Scoring.{is_passed}
use agent_benchmark.Scoring.Number.{Number, IsRounded, IsUnit}
use agent_benchmark.Scoring.Strict.{HostedWebEvaluatorResult}
use agent_benchmark.Scoring.Scenario.{ScenarioNodeOutcome}
use agent_benchmark.Scoring.Scenario.Outcome.{kind_cases}
use agent_benchmark.Aggregation.{CapabilityAttemptSession, GraphNode, AttemptGraph}
use agent_benchmark.Aggregation.Session.{collect, chain, parsed_evaluators}
use agent_benchmark.Aggregation.Outcomes.{
  session_by_task_slug, node_outcome, session_outcome, worked, avoidance, is_named,
}

pub All-collect {ℓ κ μ ν} :
    {A : Type ℓ} {B : Type κ} (P : A → Type μ) (Q : B → Type ν) (f : A → Option B) (xs : List A)
    → All P xs
    → ((x : A) (b : B) → P x → f x ≡ some b → Q b)
    → All Q (collect f xs)
unfolding collect
All-collect P Q f [] h step = tt
All-collect P Q f (x ∷ xs) (p, ps) step = elim (Option-cases (f x)) [
  | inl e ↦ rw e (All-collect P Q f xs ps step)
  | inr (b, e) ↦ rw e (step x b p e, All-collect P Q f xs ps step)
]

-- A session that passed has a score of the unit interval.
abbrev pub PassedUnit : {N : Type 0} ⦃n : Number N⦄ → CapabilityAttemptSession N → Type 0
PassedUnit s = is_passed s.status ≡ true → IsUnit s.score

module _ {N : Type 0} ⦃n : Number N⦄ (laws : IsRounded N) where
  module _ (parse : Json → Option (HostedWebEvaluatorResult N)) (g : AttemptGraph N) where
    avoidance-IsUnit :
        (v : GraphNode N) (found : Option (HostedWebEvaluatorResult N)) (o : ScenarioNodeOutcome N)
        → avoidance v found ≡ some o
        → IsUnit o.score
    avoidance-IsUnit v none o e = ground (arith, e, laws.nought_le, laws.one_le)
    avoidance-IsUnit v (some x) o e = ground (arith, e, laws.nought_le, laws.one_le)

    worked-IsUnit :
        (v : GraphNode N) (s : CapabilityAttemptSession N)
        → PassedUnit s
        → IsUnit (worked parse g.edges v s).score
    unfolding worked
    worked-IsUnit v s h = elim (Bool-cases (is_passed s.status)) [
      | inl p ↦ rw (p, worked) (h p)
      | inr p ↦ rw (p, worked) (laws.nought_le, laws.one_le)
    ]

    outcome_in-IsUnit :
        (so : Option (CapabilityAttemptSession N)) (v : GraphNode N) (o : ScenarioNodeOutcome N)
        → ((s : CapabilityAttemptSession N) → so ≡ some s → PassedUnit s)
        → chain so (session_outcome parse g.edges v) ≡ some o
        → IsUnit o.score
    unfolding session_outcome worked
    outcome_in-IsUnit none v o h e = cc
    outcome_in-IsUnit (some s) v o h e = elim (kind_cases v.kind) [
      | inl k ↦
          let made : worked parse g.edges v s ≡ o = ground (arith, e, k) in
          subst (λ x. IsUnit x.score) made (worked-IsUnit v s (h s refl))
      | inr k ↦
          avoidance-IsUnit v
            (find (λ x. is_named v.avoidance_evaluator_name x.name)
              (parsed_evaluators parse s.evaluators))
            o (ground (arith, e, k))
    ]

    pub node_outcome-IsUnit :
        (sessions : List (CapabilityAttemptSession N)) (v : GraphNode N) (o : ScenarioNodeOutcome N)
        → All PassedUnit sessions
        → node_outcome parse g.edges (session_by_task_slug sessions) v ≡ some o
        → IsUnit o.score
    unfolding node_outcome
    node_outcome-IsUnit sessions v o h e =
        outcome_in-IsUnit (get v.task_slug (session_by_task_slug sessions)) v o
          (λ s at.
            All-get PassedUnit v.task_slug s (session_by_task_slug sessions)
              (All-of_entries PassedUnit (map (λ s. (s.task_slug, s)) sessions) []
                ((All-map (λ x. PassedUnit x.1) (λ s. (s.task_slug, s)) sessions).1 h) tt)
              at)
          e
