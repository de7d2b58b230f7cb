-- ===== src/Aggregation/Passing.antt =====
-- When the scenario of an attempt passes, said of the attempt's sessions.
use agent_benchmark.Common.{
  ◌≡◌, ◌≢◌, ◌↔◌, ◌⊎◌, inl, inr, refl, ◌∙◌, sym, Bool, true, false, Option, none, some, List, find,
  arith, get,
}
use agent_benchmark.Json.{Json}
use agent_benchmark.Scoring.{passed, is_passed}
use agent_benchmark.Scoring.Number.{Number}
use agent_benchmark.Scoring.Strict.{HostedWebEvaluatorResult}
use agent_benchmark.Scoring.Scenario.{required, distractor, ScenarioNodeOutcome, skipped, succeeded}
use agent_benchmark.Scoring.Scenario.Outcome.{NodeHolds}
use agent_benchmark.Aggregation.{CapabilityAttemptSession, GraphNode, AttemptGraph}
use agent_benchmark.Aggregation.Session.{parsed_evaluators, chain}
use agent_benchmark.Aggregation.Outcomes.{
  is_named, session_by_task_slug, session_outcome, avoidance, worked,
}

module _ {N : Type 0} ⦃n : Number N⦄ (parse : Json → Option (HostedWebEvaluatorResult N))
    (g : AttemptGraph N) (sessions : List (CapabilityAttemptSession N)) where
  abbrev pub session_of : GraphNode N → Option (CapabilityAttemptSession N)
  session_of v = get v.task_slug (session_by_task_slug sessions)

  abbrev pub evaluators_of : CapabilityAttemptSession N → List (HostedWebEvaluatorResult N)
  evaluators_of s = parsed_evaluators parse s.evaluators

  abbrev pub has_passed : Option (HostedWebEvaluatorResult N) → Bool
  has_passed none = false
  has_passed (some e) = is_passed e.status

  -- The evaluator that a distractor names passed.
  abbrev pub is_avoided : GraphNode N → CapabilityAttemptSession N → Bool
  is_avoided v s =
      has_passed (find (λ e. is_named v.avoidance_evaluator_name e.name) (evaluators_of s))

  -- The task of a required node has a passed session, and that of a distractor has none or one whose
  -- evaluator says that the distractor was avoided.
  abbrev pub NodePasses : GraphNode N → Type 0
  NodePasses v =
      (v.kind ≡ required
        → (s : CapabilityAttemptSession N) × (session_of v ≡ some s) × (s.status ≡ passed))
      × (v.kind ≡ distractor
          → (session_of v ≡ none)
            ⊎ ((s : CapabilityAttemptSession N) × (session_of v ≡ some s)
                × (is_avoided v s ≡ true)))

  -- The outcome of a node whose session may be missing.
  abbrev pub outcome_in :
      Option (CapabilityAttemptSession N) → GraphNode N → Option (ScenarioNodeOutcome N)
  outcome_in so v = chain so (session_outcome parse g.edges v)

  pub outcome_in-keyed :
      (so : Option (CapabilityAttemptSession N)) (v : GraphNode N) (o : ScenarioNodeOutcome N)
      → outcome_in so v ≡ some o
      → o.node_id ≡ v.id
  unfolding session_outcome worked
  outcome_in-keyed none v o e = cc
  outcome_in-keyed (some s) v o e = ground (arith, e)

  worked_iff :
      (so : Option (CapabilityAttemptSession N)) (v : GraphNode N)
      → v.kind ≡ required
      → ((o : ScenarioNodeOutcome N) × (outcome_in so v ≡ some o) × (o.status ≡ succeeded))
        ↔ ((s : CapabilityAttemptSession N) × (so ≡ some s) × (s.status ≡ passed))
  unfolding session_outcome worked
  worked_iff none v k = (λ (o, e, p). cc, λ (s, e, p). cc)
  worked_iff (some s) v k = (
    λ (o, e, p). (s, refl, ground (arith, e, p, k)),
    λ (t, e, p). (worked parse g.edges v s, ground (arith, k), ground (arith, e, p)),
  )

  avoidance_iff :
      (v : GraphNode N) (found : Option (HostedWebEvaluatorResult N))
      → (avoidance v found ≡ none) ↔ (has_passed found ≡ true)
  avoidance_iff v none = (λ e. cc, λ e. cc)
  avoidance_iff v (some x) = (λ e. ground (arith, e), λ e. ground (arith, e))

  avoidance_engaged :
      (v : GraphNode N) (found : Option (HostedWebEvaluatorResult N)) (o : ScenarioNodeOutcome N)
      → avoidance v found ≡ some o
      → o.status ≢ skipped
  avoidance_engaged v none o e p = ground (arith, e, p)
  avoidance_engaged v (some x) o e p = ground (arith, e, p)

  left_iff :
      (so : Option (CapabilityAttemptSession N)) (v : GraphNode N)
      → v.kind ≡ distractor
      → ((outcome_in so v ≡ none)
          ⊎ ((o : ScenarioNodeOutcome N) × (outcome_in so v ≡ some o) × (o.status ≡ skipped)))
        ↔ ((so ≡ none)
            ⊎ ((s : CapabilityAttemptSession N) × (so ≡ some s) × (is_avoided v s ≡ true)))
  unfolding session_outcome
  left_iff none v k = (λ _. inl refl, λ _. inl refl)
  left_iff (some s) v k =
      let found = find (λ e. is_named v.avoidance_evaluator_name e.name) (evaluators_of s) in
      let outcome : outcome_in (some s) v ≡ avoidance v found = rw k refl in
      (
        λ h. inr (
          s,
          refl,
          elim h [
            | inl e ↦ (avoidance_iff v found).0 (sym outcome ∙ e)
            | inr (o, e, p) ↦ absurd (avoidance_engaged v found o (sym outcome ∙ e) p)
          ],
        ),
        λ h. inl (
            outcome ∙ elim h [
              | inl e ↦ cc
              | inr (t, e, p) ↦
                  (avoidance_iff v found).1 (let q : is_avoided v s ≡ true = cc (e, p) in q)
            ]),
      )

  pub NodeHolds-iff :
      (v : GraphNode N) → NodeHolds (outcome_in (session_of v) v) v.node ↔ NodePasses v
  NodeHolds-iff v = (
    λ (need, left). (
      λ k. (worked_iff (session_of v) v k).0 (need k),
      λ k. (left_iff (session_of v) v k).0 (left k),
    ),
    λ (need, left). (
      λ k. (worked_iff (session_of v) v k).1 (need k),
      λ k. (left_iff (session_of v) v k).1 (left k),
    ),
  )
