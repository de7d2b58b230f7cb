-- ===== src/Scoring/Capability/Validity.antt =====
-- What the checks of `aggregateCapabilityScores` secure.
use agent_benchmark.Common.{
  String, ◌≡◌, refl, Bool, true, false, not, ◌==◌, ◌&&◌, List, [], ◌∷◌, map, any, all, contains,
  is_unique, arith, All, All-filter, all→All, Subset, ◌⊎◌, inl, inr,
}
use agent_benchmark.Scoring.Number.{Number, IsRounded, IsUnit, ◌≼◌}
use agent_benchmark.Scoring.Capability.{
  CapabilityScoreComponent, CapabilityDeclaration, DimensionDeclaration, CapabilityBreakdown,
  CapabilityError, Result, ok, throw, dimension_name, not_false,
}
use agent_benchmark.Scoring.Capability.Components.{
  aggregate_components-IsUnit, weighted_mean-IsUnit, scored, IsScored,
}
use agent_benchmark.Scoring.Capability.Aggregate.{
  ◌>>◌, throw_if, breakdown, track, dimension, of_capability, of_dimension, in_unit,
  valid_component, valid_breakdown, check_references, check_declarations, capability_ids,
  dimension_ids, aggregate_capability_scores,
}

throw_if-ok : (b : Bool) (e : CapabilityError) → throw_if b e ≡ ok tt → b ≡ false
throw_if-ok true e h = cc
throw_if-ok false e h = refl

Result-cases : (m : Result (Unit {0})) → (m ≡ ok tt) ⊎ ((e : CapabilityError) × (m ≡ throw e))
Result-cases (ok tt) = inl refl
Result-cases (throw e) = inr (e, refl)

>>-ok {ℓ} :
    {B : Type ℓ} (m : Result (Unit {0})) (k : Result B) {b : B}
    → (m >> k) ≡ ok b
    → (m ≡ ok tt) × (k ≡ ok b)
>>-ok (ok tt) k h = (refl, h)
>>-ok (throw e) k h = cc

not_any-Subset :
    (ids known : List String) → any (λ id. not (contains id known)) ids ≡ false → Subset ids known
not_any-Subset [] known h = tt
not_any-Subset (id ∷ ids) known h = ground (arith, not_any-Subset ids known)

module _ {N : Type 0} ⦃n : Number N⦄ where
  -- What the checks promise of the components and the declarations.
  pub record IsDeclared (capabilities : List CapabilityDeclaration)
      (dimensions : List (DimensionDeclaration N)) (components : List (CapabilityScoreComponent N))
      : Type 0 where
    pub capabilities_distinct : is_unique (capability_ids capabilities) ≡ true
    pub dimensions_distinct : is_unique (dimension_ids dimensions) ≡ true
    pub components_distinct : is_unique (map (λ c. c.id) components) ≡ true
    pub components_valid : All (λ c. valid_component c ≡ true) components
    pub references_declared :
        All
          (λ c.
            Subset c.capability_ids (capability_ids capabilities)
            × (contains (dimension_name c.dimension_id) (dimension_ids dimensions) ≡ true))
          components

  check_references_ok :
      (capabilities dimensions : List String) (cs : List (CapabilityScoreComponent N))
      → check_references capabilities dimensions cs ≡ ok tt
      → All
          (λ c.
            Subset c.capability_ids capabilities
            × (contains (dimension_name c.dimension_id) dimensions ≡ true))
          cs
  unfolding check_references
  check_references_ok capabilities dimensions [] h = tt
  check_references_ok capabilities dimensions (c ∷ cs) h =
      let (head, later) = >>-ok _ _ h in
      let (first, second) = >>-ok _ _ head in
      (
        (
          not_any-Subset c.capability_ids capabilities (throw_if-ok _ _ first),
          ground (arith, throw_if-ok _ _ second),
        ),
        check_references_ok capabilities dimensions cs later,
      )

  check_declarations_ok :
      (capabilities : List CapabilityDeclaration) (dimensions : List (DimensionDeclaration N))
      (components : List (CapabilityScoreComponent N))
      → check_declarations capabilities dimensions components ≡ ok tt
      → IsDeclared capabilities dimensions components
  unfolding check_declarations
  check_declarations_ok capabilities dimensions components h = record {
    capabilities_distinct = ground arith;
    dimensions_distinct = ground arith;
    components_distinct = ground arith;
    components_valid = all→All valid_component components (ground arith);
    references_declared =
        check_references_ok (capability_ids capabilities) (dimension_ids dimensions) components
          (ground arith);
  }

  -- A result is the breakdown of declarations that passed every check.
  pub aggregate_capability_scores_sound :
      (capabilities : List CapabilityDeclaration) (dimensions : List (DimensionDeclaration N))
      (components : List (CapabilityScoreComponent N)) (b : CapabilityBreakdown N)
      → aggregate_capability_scores capabilities dimensions components ≡ ok b
      → (b ≡ breakdown capabilities dimensions components)
        × IsDeclared capabilities dimensions components
  unfolding aggregate_capability_scores
  aggregate_capability_scores_sound capabilities dimensions components b h =
      let (checked, last) = >>-ok _ _ h in
      let (declared, _) = >>-ok _ _ checked in
      (ground (arith, last), check_declarations_ok capabilities dimensions components declared)

  module _ (laws : IsRounded N) where
    valid-IsScored :
        (cs : List (CapabilityScoreComponent N))
        → All (λ c. valid_component c ≡ true) cs
        → All IsScored (map scored cs)
    valid-IsScored [] h = tt
    valid-IsScored (c ∷ cs) (v, h) = (
      (
        (ground (arith, v), ground (arith, v)),
        laws.refl_of_le n.nought c.weight (ground (arith, v)),
      ),
      valid-IsScored cs h,
    )

    in_unit-IsUnit : (x : N) → IsUnit x → in_unit x ≡ true
    in_unit-IsUnit x (p, q) = ground arith

    module _ (components : List (CapabilityScoreComponent N))
        (valid : All (λ c. valid_component c ≡ true) components) where
      tracks_valid :
          (cs : List CapabilityDeclaration)
          → all (λ t. in_unit t.score) (map (track components) cs) ≡ true
      unfolding track
      tracks_valid [] = refl
      tracks_valid (c ∷ cs) = rw (
        in_unit-IsUnit _ (
            aggregate_components-IsUnit laws (of_capability components c.id) (not_false c.required)
              (valid-IsScored _ (
                All-filter (λ x. valid_component x ≡ true) (λ x. contains c.id x.capability_ids)
                  components valid))),
        tracks_valid cs,
      )

      dimension-IsUnit : (d : DimensionDeclaration N) → IsUnit (dimension components d).score
      unfolding dimension
      dimension-IsUnit d =
          aggregate_components-IsUnit laws (of_dimension components (dimension_name d.id))
            (not_false d.required)
            (valid-IsScored _ (
              All-filter (λ x. valid_component x ≡ true)
                (λ x. dimension_name x.dimension_id == dimension_name d.id) components valid))

      weight_kept : (d : DimensionDeclaration N) → (dimension components d).weight ≡ d.weight
      unfolding dimension
      weight_kept d = refl

      dimensions_valid :
          (ds : List (DimensionDeclaration N))
          → All (λ d. n.nought ≼ d.weight) ds
          → (all (λ d. n.le n.nought d.weight && in_unit d.score) (map (dimension components) ds)
              ≡ true)
            × All IsScored (map (λ d. (d.score, d.weight)) (map (dimension components) ds))
      dimensions_valid [] h = (refl, tt)
      dimensions_valid (d ∷ ds) (p, h) =
          let unit = dimension-IsUnit d in
          let rest = dimensions_valid ds h in
          (
            ground (arith, weight_kept d, p, in_unit-IsUnit _ unit, rest.0),
            ((unit, rw (weight_kept d) (laws.refl_of_le n.nought d.weight p)), rest.1),
          )

    breakdown_valid :
        (capabilities : List CapabilityDeclaration) (dimensions : List (DimensionDeclaration N))
        (components : List (CapabilityScoreComponent N))
        → All (λ c. valid_component c ≡ true) components
        → All (λ d. n.nought ≼ d.weight) dimensions
        → valid_breakdown (breakdown capabilities dimensions components) ≡ true
    unfolding valid_breakdown breakdown
    breakdown_valid capabilities dimensions components valid h =
        let ds = dimensions_valid components valid dimensions h in
        let total = in_unit-IsUnit _ (
          laws.to_fixed_unit _ (
            weighted_mean-IsUnit laws
              (map (λ d. (d.score, d.weight)) (map (dimension components) dimensions)) ds.1)) in
        ground (arith, total, tracks_valid components valid capabilities, ds.0)

    -- With dimension weights that are not negative the parse of the result at the end never rejects:
    -- the function returns the breakdown whenever the declarations pass their checks.
    pub aggregate_capability_scores_total :
        (capabilities : List CapabilityDeclaration) (dimensions : List (DimensionDeclaration N))
        (components : List (CapabilityScoreComponent N))
        → All (λ d. n.nought ≼ d.weight) dimensions
        → aggregate_capability_scores capabilities dimensions components ≡ (
            check_declarations capabilities dimensions components
            >> ok (breakdown capabilities dimensions components))
    unfolding aggregate_capability_scores
    aggregate_capability_scores_total capabilities dimensions components h =
        elim (Result-cases (check_declarations capabilities dimensions components)) [
          | inl checked ↦
              let declared = check_declarations_ok capabilities dimensions components checked in
              rw (
                checked,
                breakdown_valid capabilities dimensions components declared.components_valid h,
              )
          | inr (e, thrown) ↦ rw thrown
        ]
