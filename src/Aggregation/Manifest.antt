-- ===== src/Aggregation/Manifest.antt =====
-- packages/test-cases/src: the checks of references that capabilityMatrixSchema
-- (capability-benchmark.ts) and hostedSuiteMetadataSchema (schemas.ts) make of the matrix and the graph
-- of a suite. An issue keeps the index of what it is about.
use agent_benchmark.Common.{
  ℕ, suc, String, ◌≡◌, true, not, ◌&&◌, Option, none, some, is_some, List, [], ◌∷◌, ◌++◌, map,
  contains, if◌then◌else◌, append-eq_nil, arith, Map, get, keys, All, All-map, Bool-cases, inl, inr,
}
use agent_benchmark.Scoring.Number.{Number}
use agent_benchmark.Scoring.Capability.{dimension_name, interaction_cost}
use agent_benchmark.Scoring.Capability.Aggregate.{capability_ids, dimension_ids}
use agent_benchmark.Aggregation.{CapabilityCoverageEntry, CapabilityMatrix, GraphNode, AttemptGraph}
use agent_benchmark.Aggregation.Session.{has_dimension}
use agent_benchmark.Aggregation.Declared.{KnownCapabilities, KnownEntry}

pub data ReferenceIssue : Type 0 where
  unknown_capability undeclared_dimension : ℕ → String → ReferenceIssue
  budget_missing budget_forbidden : ℕ → ReferenceIssue
  unknown_session unknown_variant : ℕ → String → ReferenceIssue
  matrix_missing : ReferenceIssue
  node_session node_capability : ℕ → String → ReferenceIssue

-- `for (const id of ids) if (!known.has(id)) context.addIssue(issue)`
unfoldable pub unknown_issues :
    (String → ReferenceIssue) → List String → List String → List ReferenceIssue
unknown_issues issue known [] = []
unknown_issues issue known (id ∷ ids) =
    (if contains id known then [] else issue id ∷ []) ++ unknown_issues issue known ids

-- A budget is there exactly when the entry measures the interaction cost.
abbrev pub budget_issues : ℕ → CapabilityCoverageEntry → List ReferenceIssue
budget_issues index e =
    if has_dimension interaction_cost e.dimension_ids
    then if is_some e.interaction_budget then [] else budget_missing index ∷ []
    else if is_some e.interaction_budget
    then budget_forbidden index ∷ []
    else []

-- The loop over `matrix.coverage.entries()`.
unfoldable pub coverage_issues :
    List String → List String → ℕ → List CapabilityCoverageEntry → List ReferenceIssue
unfolding unknown_issues
coverage_issues known_capabilities known_dimensions index [] = []
coverage_issues known_capabilities known_dimensions index (e ∷ es) =
    unknown_issues (unknown_capability index) known_capabilities e.capability_ids
    ++ (unknown_issues (undeclared_dimension index) known_dimensions
          (map dimension_name e.dimension_ids)
        ++ (budget_issues index e
            ++ coverage_issues known_capabilities known_dimensions (suc index) es))

-- The sessions of a suite: the identifiers of the question variants under each task slug. An entry of
-- another session or variant is an issue of the suite.
unfoldable pub suite_coverage_issues :
    Map (List String) → ℕ → List CapabilityCoverageEntry → List ReferenceIssue
suite_coverage_issues variants index [] = []
suite_coverage_issues variants index (e ∷ es) =
    elim (get e.task_slug variants) [
      | none ↦ unknown_session index e.task_slug ∷ []
      | some ids ↦ if contains e.variant_id ids then [] else unknown_variant index e.variant_id ∷ []
    ]
    ++ suite_coverage_issues variants (suc index) es

module _ {N : Type 0} where
  unfoldable pub suite_node_issues :
      List String → List String → ℕ → List (GraphNode N) → List ReferenceIssue
  unfolding unknown_issues
  suite_node_issues slugs known index [] = []
  suite_node_issues slugs known index (v ∷ vs) =
      (if contains v.task_slug slugs then [] else node_session index v.task_slug ∷ [])
      ++ (unknown_issues (node_capability index) known v.capability_ids
          ++ suite_node_issues slugs known (suc index) vs)

  abbrev pub matrix_capabilities : Option (CapabilityMatrix N) → List String
  matrix_capabilities none = []
  matrix_capabilities (some m) = capability_ids m.capabilities

  abbrev pub matrix_coverage : Option (CapabilityMatrix N) → List CapabilityCoverageEntry
  matrix_coverage none = []
  matrix_coverage (some m) = m.coverage

  abbrev pub graph_nodes : Option (AttemptGraph N) → List (GraphNode N)
  graph_nodes none = []
  graph_nodes (some g) = g.nodes

  unfoldable pub suite_issues :
      Map (List String)
      → Option (CapabilityMatrix N)
      → Option (AttemptGraph N)
      → List ReferenceIssue
  unfolding suite_coverage_issues suite_node_issues
  suite_issues variants matrix graph =
      suite_coverage_issues variants 0 (matrix_coverage matrix)
      ++ ((if is_some graph && not (is_some matrix) then matrix_missing ∷ [] else [])
          ++ suite_node_issues (keys variants) (matrix_capabilities matrix) 0 (graph_nodes graph))

unknown_issues-none :
    (issue : String → ReferenceIssue) (known ids : List String)
    → unknown_issues issue known ids ≡ []
    → All (λ id. contains id known ≡ true) ids
unfolding unknown_issues
unknown_issues-none issue known [] h = tt
unknown_issues-none issue known (id ∷ ids) h = elim (Bool-cases (contains id known)) [
  | inl k ↦ (k, unknown_issues-none issue known ids (rw k at h))
  | inr k ↦ absurd (ground (arith, h, k))
]

module _ {N : Type 0} ⦃n : Number N⦄ (matrix : CapabilityMatrix N) where
  -- Entries without an issue name what the matrix declares.
  pub coverage_issues-none :
      (index : ℕ) (es : List CapabilityCoverageEntry)
      → coverage_issues
          (capability_ids matrix.capabilities)
          (dimension_ids matrix.dimensions)
          index
          es
        ≡ []
      → All (KnownEntry matrix) es
  unfolding coverage_issues
  coverage_issues-none index [] h = tt
  coverage_issues-none index (e ∷ es) h =
      let capabilities = capability_ids matrix.capabilities in
      let dimensions = dimension_ids matrix.dimensions in
      let (a, b) = (append-eq_nil _ _).0 h in
      let (c, d) = (append-eq_nil _ _).0 b in
      (
        (
          unknown_issues-none (unknown_capability index) capabilities e.capability_ids a,
          (All-map (λ name. contains name dimensions ≡ true) dimension_name e.dimension_ids).0 (
              unknown_issues-none (undeclared_dimension index) dimensions
                (map dimension_name e.dimension_ids) c),
        ),
        coverage_issues-none (suc index) es ((append-eq_nil (budget_issues index e) _).0 d).1,
      )

  suite_node_issues-none :
      (slugs : List String) (index : ℕ) (vs : List (GraphNode N))
      → suite_node_issues slugs (capability_ids matrix.capabilities) index vs ≡ []
      → All (λ v. KnownCapabilities matrix v.capability_ids) vs
  unfolding suite_node_issues
  suite_node_issues-none slugs index [] h = tt
  suite_node_issues-none slugs index (v ∷ vs) h =
      let (a, b) = (append-eq_nil _ _).0 h in
      let (c, d) = (append-eq_nil _ _).0 b in
      (
        unknown_issues-none (node_capability index) (capability_ids matrix.capabilities)
            v.capability_ids c,
        suite_node_issues-none slugs (suc index) vs d,
      )

  -- A suite without an issue has a graph whose nodes name what its matrix declares.
  pub suite_issues-none :
      (variants : Map (List String)) (g : AttemptGraph N)
      → suite_issues variants (some matrix) (some g) ≡ []
      → All (λ v. KnownCapabilities matrix v.capability_ids) g.nodes
  unfolding suite_issues
  suite_issues-none variants g h =
      suite_node_issues-none (keys variants) 0 g.nodes
        ((append-eq_nil (suite_coverage_issues variants 0 matrix.coverage) _).0 h).1
