-- ===== src/Aggregation/References.antt =====
-- The references of an attempt's components: of its sessions, its edges and its faults.
use agent_benchmark.Common.{
  ℕ, String, ◌≡◌, refl, Option, none, some, List, [], ◌∷◌, ◌++◌, map, map_option, arith, Map, get,
  of_entries, All, All-append, put, All-put, All-get, All-of_entries, Option-cases, inl, inr,
  Bool-cases,
}
use agent_benchmark.Json.{Json}
use agent_benchmark.Scoring.Number.{Number}
use agent_benchmark.Scoring.Strict.{HostedWebEvaluatorResult}
use agent_benchmark.Scoring.Capability.{
  CapabilityScoreDimension, CapabilityScoreComponent, ok, dependency_consistency, recovery_safety,
}
use agent_benchmark.Scoring.Capability.Aggregate.{capability_ids, dimension_ids, check_references}
use agent_benchmark.Scoring.Scenario.{PrivateScenarioGraphEvaluation, ComponentOutcome}
use agent_benchmark.Aggregation.{
  CapabilityAttemptSession, CapabilityCoverageEntry, CapabilityMatrix, GraphNode, AttemptGraph,
}
use agent_benchmark.Aggregation.Session.{
  has_dimension, collect, matching_coverage, build_session_components,
}
use agent_benchmark.Aggregation.Graph.{
  graph_component, component_of, build_graph_components, dependency_component, recovery_component,
  selected_coverage_by_task, node_by_id, selected_coverage,
}
use agent_benchmark.Aggregation.Declared.{
  KnownCapabilities, KnownEntry, Known, included, check_references-Known, collect-Known,
  matching-Known, sessions-Known, Refers, Refers-Known,
}
use agent_benchmark.Aggregation.Manifest.{
  coverage_issues, suite_issues, coverage_issues-none, suite_issues-none,
}

All_true {ℓ} : {A : Type ℓ} (xs : List A) → All (λ x. Unit {0}) xs
All_true [] = tt
All_true (x ∷ xs) = (tt, All_true xs)

All-entries {ℓ} :
    {V : Type ℓ} (P : V → Type 0) (key : V → String) (vs : List V)
    → All P vs
    → All {A = String × V} (λ e. P e.1) (map (λ v. (key v, v)) vs)
All-entries P key [] h = tt
All-entries P key (v ∷ vs) (p, ps) = (p, All-entries P key vs ps)

module _ {N : Type 0} ⦃n : Number N⦄ (matrix : CapabilityMatrix N)
    (entries : All (KnownEntry matrix) matrix.coverage) where
  coverages-Known :
      (sessions : List (CapabilityAttemptSession N)) (m : Map CapabilityCoverageEntry)
      → All (λ e. KnownEntry matrix e.1) m
      → All
          (λ e. KnownEntry matrix e.1)
          (of_entries (collect (selected_coverage matrix) sessions) m)
  unfolding collect of_entries selected_coverage
  coverages-Known [] m h = h
  coverages-Known (s ∷ ss) m h = elim (Option-cases (matching_coverage matrix s)) [
    | inl e ↦ rw e (coverages-Known ss m h)
    | inr (e, at) ↦ rw at (
        coverages-Known ss (put s.task_slug e m)
          (All-put (KnownEntry matrix) s.task_slug e m (matching-Known matrix entries s e at) h))
  ]

  component-Refers :
      (d : CapabilityScoreDimension) (id : String) (v : GraphNode N)
      (result : Option (ComponentOutcome N)) (c : CapabilityScoreComponent N)
      → map_option (component_of d id v) result ≡ some c
      → Refers matrix v.capability_ids d c
  component-Refers d id v none c h = cc
  component-Refers d id v (some r) c h = (ground (arith, h), ground (arith, h))

  graph-Known :
      (d : CapabilityScoreDimension) (id : String) (coverages : Map CapabilityCoverageEntry)
      (v : Option (GraphNode N)) (result : Option (ComponentOutcome N))
      (c : CapabilityScoreComponent N)
      → All (λ e. KnownEntry matrix e.1) coverages
      → ((w : GraphNode N) → v ≡ some w → KnownCapabilities matrix w.capability_ids)
      → graph_component d id coverages v result ≡ some c
      → Known matrix c
  unfolding graph_component
  graph-Known d id coverages none result c covered known h = cc
  graph-Known d id coverages (some v) result c covered known h =
      elim (Option-cases (get v.task_slug coverages)) [
        | inl e ↦ absurd (ground (arith, h, e))
        | inr (e, at) ↦ elim (Bool-cases (has_dimension d e.dimension_ids)) [
          | inl has ↦
              Refers-Known matrix v.capability_ids d c
                (component-Refers d id v result c (rw (at, has, graph_component) at h))
                (known v refl)
                (included matrix d e.dimension_ids
                  (All-get (KnownEntry matrix) v.task_slug e coverages covered at).1 has)
          | inr not_has ↦ absurd (ground (arith, h, at, not_has))
        ]
      ]

  module _ (g : AttemptGraph N)
      (known : All (λ v. KnownCapabilities matrix v.capability_ids) g.nodes) where
    found-Known :
        (id : String) (w : GraphNode N)
        → get id (node_by_id g) ≡ some w
        → KnownCapabilities matrix w.capability_ids
    found-Known id w =
        All-get (λ v. KnownCapabilities matrix v.capability_ids) id w (node_by_id g)
          (All-of_entries (λ v. KnownCapabilities matrix v.capability_ids) _ []
            (All-entries (λ v. KnownCapabilities matrix v.capability_ids) (λ v. v.id) g.nodes known)
            tt)

    graph_components-Known :
        (sessions : List (CapabilityAttemptSession N)) (e : PrivateScenarioGraphEvaluation N)
        → All (Known matrix) (build_graph_components matrix g sessions e)
    unfolding build_graph_components selected_coverage_by_task dependency_component
        recovery_component
    graph_components-Known sessions e =
        let covered = coverages-Known sessions [] tt in
        All-append (Known matrix) _ _
          (collect-Known matrix (λ x. Unit {0}) _ g.edges (All_true g.edges)
            (λ d c _ h.
              graph-Known dependency_consistency _ _ _ _ c covered (found-Known d.to_node_id) h))
          (collect-Known matrix (λ x. Unit {0}) _ g.fault_schedule (All_true g.fault_schedule)
            (λ f c _ h. graph-Known recovery_safety _ _ _ _ c covered (found-Known f.node_id) h))

    check_references-build :
        (of_count : ℕ → N) (parse : Json → Option (HostedWebEvaluatorResult N))
        (sessions : List (CapabilityAttemptSession N)) (e : PrivateScenarioGraphEvaluation N)
        → check_references (capability_ids matrix.capabilities) (dimension_ids matrix.dimensions) (
            build_session_components of_count parse matrix sessions
            ++ build_graph_components matrix g sessions e)
          ≡ ok tt
    check_references-build of_count parse sessions e = check_references-Known matrix _ (
        All-append (Known matrix) _ _ (sessions-Known matrix of_count parse entries sessions)
          (graph_components-Known sessions e))

-- Where neither the schema of the matrix nor that of the suite raises an issue over a reference, no
-- component that is built from an attempt refers to a capability or a dimension that the matrix does
-- not declare, so the aggregation does not throw over a reference, whatever the sessions and the
-- evaluation are. The second schema is that of a suite when it is loaded; the evaluation of an attempt
-- parses the matrix and the graph alone.
pub references_checked :
    {N : Type 0} ⦃n : Number N⦄ (of_count : ℕ → N)
    (parse : Json → Option (HostedWebEvaluatorResult N)) (matrix : CapabilityMatrix N)
    (g : AttemptGraph N) (variants : Map (List String))
    (sessions : List (CapabilityAttemptSession N)) (e : PrivateScenarioGraphEvaluation N)
    → coverage_issues
        (capability_ids matrix.capabilities)
        (dimension_ids matrix.dimensions)
        0
        matrix.coverage
      ≡ []
    → suite_issues variants (some matrix) (some g) ≡ []
    → check_references (capability_ids matrix.capabilities) (dimension_ids matrix.dimensions) (
        build_session_components of_count parse matrix sessions
        ++ build_graph_components matrix g sessions e)
      ≡ ok tt
references_checked of_count parse matrix g variants sessions e covered listed =
    check_references-build matrix (coverage_issues-none matrix 0 matrix.coverage covered) g
      (suite_issues-none matrix variants g listed) of_count parse sessions e
