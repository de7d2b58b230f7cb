-- ===== src/Aggregation/Declared.antt =====
-- Each component that is built refers to what the matrix declares.
use agent_benchmark.Common.{
  ℕ, String, ◌≡◌, refl, Bool, true, false, ◌==◌, Option, none, some, List, [], ◌∷◌, any, contains,
  arith, All, All-append, All-find, Option-cases, inl, inr, eq_iff, Bool-cases, not, ap, ◌∙◌, sym,
  subst, if◌then◌else◌,
}
use agent_benchmark.Json.{Json}
use agent_benchmark.Scoring.Number.{Number}
use agent_benchmark.Scoring.Strict.{HostedWebEvaluatorResult}
use agent_benchmark.Scoring.Capability.{
  CapabilityScoreDimension, CapabilityScoreComponent, dimension_name, ok, interaction_cost,
  final_state_correctness, evidence_verification,
}
use agent_benchmark.Scoring.Capability.Aggregate.{capability_ids, dimension_ids, check_references}
use agent_benchmark.Aggregation.{
  CapabilityAttemptSession, CapabilityCoverageEntry, CapabilityMatrix, InteractionBudget,
}
use agent_benchmark.Aggregation.Session.{
  has_dimension, listed, collect, matching_coverage, session_components, build_session_components,
  evidence_component, interaction_cost_component, cost_component, final_state_component,
  selected_variant_id,
}

module _ {N : Type 0} ⦃n : Number N⦄ (matrix : CapabilityMatrix N) where
  abbrev pub capabilities : List String
  capabilities = capability_ids matrix.capabilities

  abbrev pub dimensions : List String
  dimensions = dimension_ids matrix.dimensions

  abbrev pub KnownDimension : CapabilityScoreDimension → Type 0
  KnownDimension d = contains (dimension_name d) dimensions ≡ true

  abbrev pub KnownCapabilities : List String → Type 0
  KnownCapabilities ids = All (λ id. contains id capabilities ≡ true) ids

  -- A coverage entry names declared capabilities and dimensions.
  abbrev pub KnownEntry : CapabilityCoverageEntry → Type 0
  KnownEntry e = KnownCapabilities e.capability_ids × All KnownDimension e.dimension_ids

  abbrev pub Known : CapabilityScoreComponent N → Type 0
  Known c = KnownCapabilities c.capability_ids × KnownDimension c.dimension_id

  -- The dimension that an entry includes is one of its declared ones.
  pub included :
      (d : CapabilityScoreDimension) (ds : List CapabilityScoreDimension)
      → All KnownDimension ds
      → has_dimension d ds ≡ true
      → KnownDimension d
  included d [] h e = cc
  included d (x ∷ ds) (p, ps) e = elim (Bool-cases (dimension_name x == dimension_name d)) [
    | inl same ↦
        ap (λ name. contains name dimensions)
          (sym ((eq_iff (dimension_name x) (dimension_name d)).0 same))
        ∙ p
    | inr other ↦ included d ds ps (ground (arith, e, other))
  ]

  none_unknown :
      (ids : List String)
      → KnownCapabilities ids
      → any (λ id. not (contains id capabilities)) ids ≡ false
  none_unknown [] h = refl
  none_unknown (id ∷ ids) (p, h) = rw (p, none_unknown ids h) refl

  pub check_references-Known :
      (cs : List (CapabilityScoreComponent N))
      → All Known cs
      → check_references capabilities dimensions cs ≡ ok tt
  unfolding check_references
  check_references-Known [] h = refl
  check_references-Known (c ∷ cs) ((ids, d), h) =
      rw (none_unknown c.capability_ids ids, d) (check_references-Known cs h)

  listed-Known :
      (o : Option (CapabilityScoreComponent N))
      → ((c : CapabilityScoreComponent N) → o ≡ some c → Known c)
      → All Known (listed o)
  listed-Known none h = tt
  listed-Known (some c) h = (h c refl, tt)

  pub collect-Known {ℓ κ} :
      {A : Type ℓ} (P : A → Type κ) (f : A → Option (CapabilityScoreComponent N)) (xs : List A)
      → All P xs
      → ((x : A) (c : CapabilityScoreComponent N) → P x → f x ≡ some c → Known c)
      → All Known (collect f xs)
  unfolding collect
  collect-Known P f [] _ h = tt
  collect-Known P f (x ∷ xs) (p, ps) h =
      All-append Known (listed (f x)) (collect f xs) (listed-Known (f x) (λ c e. h x c p e))
        (collect-Known P f xs ps h)

  -- A component with these references.
  abbrev pub Refers : List String → CapabilityScoreDimension → CapabilityScoreComponent N → Type 0
  Refers ids d c = (c.capability_ids ≡ ids) × (c.dimension_id ≡ d)

  pub Refers-Known :
      (ids : List String) (d : CapabilityScoreDimension) (c : CapabilityScoreComponent N)
      → Refers ids d c
      → KnownCapabilities ids
      → KnownDimension d
      → Known c
  Refers-Known ids d c (same, at) known declared =
      (subst KnownCapabilities (sym same) known, subst KnownDimension (sym at) declared)

  if_Known :
      (b : Bool) (cs : List (CapabilityScoreComponent N))
      → (b ≡ true → All Known cs)
      → All Known (if b then cs else [])
  if_Known true cs h = h refl
  if_Known false cs h = tt

  pub matching-Known :
      All KnownEntry matrix.coverage
      → (s : CapabilityAttemptSession N) (e : CapabilityCoverageEntry)
      → matching_coverage matrix s ≡ some e
      → KnownEntry e
  unfolding matching_coverage
  matching-Known entries s e h = elim (Option-cases (selected_variant_id s.metadata)) [
    | inl no_variant ↦ absurd (ground (arith, h, no_variant))
    | inr (v, at) ↦
        All-find KnownEntry _ matrix.coverage e entries (rw (at, matching_coverage) at h)
  ]

  module _ (of_count : ℕ → N) (parse : Json → Option (HostedWebEvaluatorResult N)) where
    cost-Refers :
        (s : CapabilityAttemptSession N) (e : CapabilityCoverageEntry)
        (b : Option InteractionBudget) (cost : Option ℕ) (c : CapabilityScoreComponent N)
        → cost_component of_count parse s e b cost ≡ some c
        → Refers e.capability_ids interaction_cost c
    cost-Refers s e none cost c h = cc
    cost-Refers s e (some b) none c h = cc
    cost-Refers s e (some b) (some k) c h = (ground (arith, h), ground (arith, h))

    interaction-Known :
        (s : CapabilityAttemptSession N) (e : CapabilityCoverageEntry)
        (c : CapabilityScoreComponent N)
        → KnownEntry e
        → interaction_cost_component of_count parse s e ≡ some c
        → Known c
    unfolding interaction_cost_component
    interaction-Known s e c (ids, ds) h =
        elim (Bool-cases (has_dimension interaction_cost e.dimension_ids)) [
          | inl has ↦
              Refers-Known e.capability_ids interaction_cost c
                (cost-Refers s e e.interaction_budget s.normalized_action_cost c (rw has at h)) ids
                (included interaction_cost e.dimension_ids ds has)
          | inr not_has ↦ absurd (ground (arith, h, not_has))
        ]

    evidence-Refers :
        (s : CapabilityAttemptSession N) (e : CapabilityCoverageEntry)
        (c : CapabilityScoreComponent N)
        → evidence_component of_count parse s e ≡ some c
        → Refers e.capability_ids evidence_verification c
    unfolding evidence_component
    evidence-Refers s e c h = (ground (arith, h), ground (arith, h))

    session-Known :
        (s : CapabilityAttemptSession N) (e : CapabilityCoverageEntry)
        → KnownEntry e
        → All Known (session_components of_count parse s e)
    unfolding session_components
    session-Known s e (ids, ds) =
        All-append Known _ _
          (if_Known _ (final_state_component s e ∷ [])
            (λ has. ((ids, included final_state_correctness e.dimension_ids ds has), tt)))
          (All-append Known _ _
            (if_Known _ (listed (evidence_component of_count parse s e)) (λ has.
              listed-Known (evidence_component of_count parse s e) (λ c h.
                Refers-Known e.capability_ids evidence_verification c (evidence-Refers s e c h) ids
                  (included evidence_verification e.dimension_ids ds has))))
            (listed-Known (interaction_cost_component of_count parse s e)
              (λ c h. interaction-Known s e c (ids, ds) h)))

    pub sessions-Known :
        All KnownEntry matrix.coverage
        → (ss : List (CapabilityAttemptSession N))
        → All Known (build_session_components of_count parse matrix ss)
    unfolding build_session_components
    sessions-Known entries [] = tt
    sessions-Known entries (s ∷ ss) =
        All-append Known _ _
          (elim (Option-cases (matching_coverage matrix s)) [
            | inl e ↦ rw e tt
            | inr (e, h) ↦ rw h (session-Known s e (matching-Known entries s e h))
          ])
          (sessions-Known entries ss)
