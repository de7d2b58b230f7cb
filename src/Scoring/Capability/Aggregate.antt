-- ===== src/Scoring/Capability/Aggregate.antt =====
-- `aggregateCapabilityScores`: the checks of the declarations, the tracks and dimensions, and the
-- schema that the result is parsed with at the end.
use agent_benchmark.Common.{
  String, Bool, true, false, not, ◌==◌, ◌&&◌, List, [], ◌∷◌, ◌++◌, map, filter, any, all, is_empty,
  contains, is_unique,
}
use agent_benchmark.Scoring.{Status, is_passed, is_error}
use agent_benchmark.Scoring.Number.{Number}
use agent_benchmark.Scoring.Capability.{
  CapabilityScoreComponent, CapabilityDeclaration, DimensionDeclaration, TrackResult,
  DimensionResult, CapabilityBreakdown, CapabilityError, invalid_component, duplicate_capabilities,
  duplicate_dimensions, duplicate_components, undeclared_capability, undeclared_dimension,
  weights_not_one, invalid_breakdown, Result, ok, throw, dimension_name, not_false, status_of,
}
use agent_benchmark.Scoring.Capability.Components.{aggregate_components, weighted_mean}

infixl 5 ◌>>◌
abbrev pub ◌>>◌ {ℓ} : {B : Type ℓ} → Result (Unit {0}) → Result B → Result B
ok _ >> k = k
throw e >> k = throw e

-- `if (condition) throw error;`
abbrev pub throw_if : Bool → CapabilityError → Result (Unit {0})
throw_if true e = throw e
throw_if false e = ok tt

abbrev pub capability_ids : List CapabilityDeclaration → List String
capability_ids = map (λ c. c.id)

module _ {N : Type 0} ⦃n : Number N⦄ where
  abbrev pub in_unit : N → Bool
  in_unit x = n.le n.nought x && n.le x n.one

  -- `capabilityScoreComponentSchema` on a component of the declared type.
  abbrev pub valid_component : CapabilityScoreComponent N → Bool
  valid_component c =
      not (c.id == "")
      && not (is_empty c.capability_ids)
      && all (λ id. not (id == "")) c.capability_ids
      && in_unit c.score
      && n.le n.nought c.weight

  -- The loop over the components: both references of one, then the next.
  unfoldable pub check_references :
      List String → List String → List (CapabilityScoreComponent N) → Result (Unit {0})
  check_references capabilities dimensions [] = ok tt
  check_references capabilities dimensions (c ∷ cs) =
      throw_if (any (λ id. not (contains id capabilities)) c.capability_ids)
        (undeclared_capability c.id)
      >> throw_if (not (contains (dimension_name c.dimension_id) dimensions))
          (undeclared_dimension c.id)
      >> check_references capabilities dimensions cs

  unfoldable pub sum_weights : N → List (DimensionDeclaration N) → N
  sum_weights sum [] = sum
  sum_weights sum (d ∷ ds) = sum_weights (n.plus sum d.weight) ds

  abbrev pub of_capability :
      List (CapabilityScoreComponent N) → String → List (CapabilityScoreComponent N)
  of_capability components id = filter (λ c. contains id c.capability_ids) components

  abbrev pub of_dimension :
      List (CapabilityScoreComponent N) → String → List (CapabilityScoreComponent N)
  of_dimension components id = filter (λ c. dimension_name c.dimension_id == id) components

  unfoldable pub track : List (CapabilityScoreComponent N) → CapabilityDeclaration → TrackResult N
  track components capability = record {
    id = capability.id;
    title = capability.title;
    required = not_false capability.required;
    result =
        aggregate_components (of_capability components capability.id)
          (not_false capability.required);
  }

  unfoldable pub dimension :
      List (CapabilityScoreComponent N) → DimensionDeclaration N → DimensionResult N
  dimension components d = record {
    id = d.id;
    weight = d.weight;
    required = not_false d.required;
    result =
        aggregate_components (of_dimension components (dimension_name d.id)) (not_false d.required);
  }

  abbrev pub required_statuses : List (TrackResult N) → List (DimensionResult N) → List Status
  required_statuses tracks dimensions =
      map (λ t. t.status) (filter (λ t. t.required) tracks)
      ++ map (λ d. d.status) (filter (λ d. d.required) dimensions)

  unfoldable pub breakdown :
      List CapabilityDeclaration
      → List (DimensionDeclaration N)
      → List (CapabilityScoreComponent N)
      → CapabilityBreakdown N
  breakdown capabilities declared components =
      let tracks = map (track components) capabilities in
      let dimensions = map (dimension components) declared in
      let results = required_statuses tracks dimensions in
      record {
        status = status_of (any is_error results) (all is_passed results);
        score = n.to_fixed (weighted_mean (map (λ d. (d.score, d.weight)) dimensions));
        tracks = tracks;
        dimensions = dimensions;
      }

  -- `capabilityBreakdownSchema` on a breakdown of the declared type.
  unfoldable pub valid_breakdown : CapabilityBreakdown N → Bool
  valid_breakdown b =
      in_unit b.score
      && all (λ t. in_unit t.score) b.tracks
      && all (λ d. n.le n.nought d.weight && in_unit d.score) b.dimensions

  abbrev pub dimension_ids : List (DimensionDeclaration N) → List String
  dimension_ids = map (λ d. dimension_name d.id)

  unfoldable pub check_declarations :
      List CapabilityDeclaration
      → List (DimensionDeclaration N)
      → List (CapabilityScoreComponent N)
      → Result (Unit {0})
  check_declarations capabilities dimensions components =
      throw_if (not (all valid_component components)) invalid_component
      >> throw_if (not (is_unique (capability_ids capabilities))) duplicate_capabilities
      >> throw_if (not (is_unique (dimension_ids dimensions))) duplicate_dimensions
      >> throw_if (not (is_unique (map (λ c. c.id) components))) duplicate_components
      >> check_references (capability_ids capabilities) (dimension_ids dimensions) components
      >> throw_if (n.gt (n.distance (sum_weights n.nought dimensions) n.one) n.tolerance)
          weights_not_one

  unfoldable pub aggregate_capability_scores :
      List CapabilityDeclaration
      → List (DimensionDeclaration N)
      → List (CapabilityScoreComponent N)
      → Result (CapabilityBreakdown N)
  aggregate_capability_scores capabilities dimensions components =
      let b = breakdown capabilities dimensions components in
      check_declarations capabilities dimensions components
      >> throw_if (not (valid_breakdown b)) invalid_breakdown
      >> ok b
