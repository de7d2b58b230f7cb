-- ===== src/Aggregation/Verdict.antt =====
-- The edges and the faults of an attempt's scenario, and when the scenario passes.
use agent_benchmark.Common.{
  String, ◌≡◌, ◌≢◌, ◌↔◌, ◌⊎◌, inl, inr, refl, ap, ◌∙◌, sym, Bool, true, ◌&&◌, ◌==◌, Option, none,
  some, List, [], ◌∷◌, find, any, contains, arith,
}
use agent_benchmark.Json.{Json}
use agent_benchmark.Scoring.{Status, error}
use agent_benchmark.Scoring.Number.{Number}
use agent_benchmark.Scoring.Strict.{HostedWebEvaluatorResult}
use agent_benchmark.Scoring.Scenario.{
  required, revises, ScheduledFault, ScenarioNodeOutcome, is_revision, errored,
}
use agent_benchmark.Scoring.Scenario.Outcome.{kind_cases}
use agent_benchmark.Aggregation.{CapabilityAttemptSession, GraphNode, GraphEdge, AttemptGraph}
use agent_benchmark.Aggregation.Session.{collect}
use agent_benchmark.Aggregation.Outcomes.{
  recovered_fault_ids, is_proved, session_outcome, worked, revised_node_id, avoidance,
  outcome_status,
}
use agent_benchmark.Aggregation.Passing.{session_of, evaluators_of, NodePasses, outcome_in}

module _ {N : Type 0} ⦃n : Number N⦄ (parse : Json → Option (HostedWebEvaluatorResult N))
    (g : AttemptGraph N) (sessions : List (CapabilityAttemptSession N)) where
  -- The node of an identifier.
  abbrev pub node_at : String → Option (GraphNode N)
  node_at id = find (λ v. v.id == id) g.nodes

  -- An evaluator that proves a revision of the source at the node passed.
  abbrev pub is_revised_at : GraphNode N → String → CapabilityAttemptSession N → Bool
  is_revised_at v source s =
      any
        (λ e.
          is_revision e.relation
          && (e.to_node_id == v.id
              && is_proved e.proof_evaluator_name (evaluators_of parse g sessions s))
          && e.from_node_id == source)
        g.edges

  abbrev pub RevisedAt : GraphNode N → String → Type 0
  RevisedAt v source =
      (v.kind ≡ required)
      × ((s : CapabilityAttemptSession N) × (session_of parse g sessions v ≡ some s)
          × (is_revised_at v source s ≡ true))

  abbrev pub EndPasses : String → Type 0
  EndPasses id = (v : GraphNode N) × (node_at id ≡ some v) × NodePasses parse g sessions v

  -- Both ends pass, and for a revision its proof is at the target.
  abbrev pub EdgePasses : GraphEdge N → Type 0
  EdgePasses e =
      EndPasses e.from_node_id
      × EndPasses e.to_node_id
      × (e.relation ≡ revises
          → (v : GraphNode N) × (node_at e.to_node_id ≡ some v) × RevisedAt v e.from_node_id)

  -- The session of a required node ended without an error and lists the fault as recovered.
  abbrev pub RecoveredAt : GraphNode N → String → Type 0
  RecoveredAt v id =
      (v.kind ≡ required)
      × ((s : CapabilityAttemptSession N) × (session_of parse g sessions v ≡ some s)
          × (s.status ≢ error)
          × (contains id (recovered_fault_ids s.metadata) ≡ true))

  abbrev pub FaultPasses : ScheduledFault N → Type 0
  FaultPasses f = (v : GraphNode N) × (node_at f.node_id ≡ some v) × RecoveredAt v f.id

  abbrev pub made : GraphNode N → Option (ScenarioNodeOutcome N)
  made v = outcome_in parse g sessions (session_of parse g sessions v) v

  abbrev Unlisted : ScenarioNodeOutcome N → Type 0
  Unlisted o = (o.revised_node_ids ≡ []) × (o.recovered_fault_ids ≡ [])

  engaged-Unlisted :
      (v : GraphNode N) (found : Option (HostedWebEvaluatorResult N)) (o : ScenarioNodeOutcome N)
      → avoidance v found ≡ some o
      → Unlisted o
  engaged-Unlisted v none o e = (ground (arith, e), ground (arith, e))
  engaged-Unlisted v (some x) o e = (ground (arith, e), ground (arith, e))

  -- An outcome that lists anything is that of a required node with a session.
  worked_of :
      (so : Option (CapabilityAttemptSession N)) (v : GraphNode N) (o : ScenarioNodeOutcome N)
      → outcome_in parse g sessions so v ≡ some o
      → Unlisted o
        ⊎ ((v.kind ≡ required)
            × ((s : CapabilityAttemptSession N) × (so ≡ some s) × (worked parse g.edges v s ≡ o)))
  unfolding session_outcome
  worked_of none v o e = cc
  worked_of (some s) v o e = elim (kind_cases v.kind) [
    | inl k ↦ inr (k, (s, refl, ground (arith, e, k)))
    | inr k ↦ inl (engaged-Unlisted v _ o (rw k at e))
  ]

  worked-made :
      (so : Option (CapabilityAttemptSession N)) (v : GraphNode N) (s : CapabilityAttemptSession N)
      → v.kind ≡ required
      → so ≡ some s
      → outcome_in parse g sessions so v ≡ some (worked parse g.edges v s)
  unfolding session_outcome
  worked-made none v s k q = cc
  worked-made (some t) v s k q = rw k (cc q)

  error_iff : (s : Status) → (outcome_status s ≡ errored) ↔ (s ≡ error)
  error_iff s = ground arith

  contains-revised :
      (v : GraphNode N) (evaluators : List (HostedWebEvaluatorResult N)) (source : String)
      (edges : List (GraphEdge N))
      → contains source (collect (revised_node_id v evaluators) edges)
        ≡ any
            (λ e.
              is_revision e.relation
              && (e.to_node_id == v.id && is_proved e.proof_evaluator_name evaluators)
              && e.from_node_id == source)
            edges
  unfolding collect revised_node_id
  contains-revised v evaluators source [] = refl
  contains-revised v evaluators source (e ∷ es) =
      ground (arith, contains-revised v evaluators source es)

  pub revised_iff :
      (v : GraphNode N) (source : String)
      → ((o : ScenarioNodeOutcome N) × (made v ≡ some o)
          × (contains source o.revised_node_ids ≡ true))
        ↔ RevisedAt v source
  unfolding worked
  revised_iff v source =
      let so = session_of parse g sessions v in
      let listed = λ (s : CapabilityAttemptSession N).
        contains-revised v (evaluators_of parse g sessions s) source g.edges in
      (
        λ (o, e, h). elim (worked_of so v o e) [
          | inl (none_revised, _) ↦ absurd (ground (arith, h, none_revised))
          | inr (k, (s, q, same)) ↦
              (k, (s, q, sym (listed s) ∙ (ap (λ x. contains source x.revised_node_ids) same ∙ h)))
        ],
        λ (k, (s, q, h)). (worked parse g.edges v s, worked-made so v s k q, listed s ∙ h),
      )

  pub recovered_iff :
      (v : GraphNode N) (id : String)
      → ((o : ScenarioNodeOutcome N) × (made v ≡ some o)
          × (o.status ≢ errored)
          × (contains id o.recovered_fault_ids ≡ true))
        ↔ RecoveredAt v id
  unfolding worked
  recovered_iff v id =
      let so = session_of parse g sessions v in
      (
        λ (o, e, ok, h). elim (worked_of so v o e) [
          | inl (_, none_recovered) ↦ absurd (ground (arith, h, none_recovered))
          | inr (k, (s, q, same)) ↦ (
            k,
            (
              s,
              q,
              (λ p. ok (ap (λ x. x.status) (sym same) ∙ (error_iff s.status).1 p)),
              ap (λ x. contains id x.recovered_fault_ids) same ∙ h,
            ),
          )
        ],
        λ (k, (s, q, ok, h)). (
          worked parse g.edges v s,
          worked-made so v s k q,
          (λ p. ok ((error_iff s.status).0 p)),
          h,
        ),
      )
