-- ===== src/Scoring/Capability/Verdict.antt =====
-- When a breakdown passes.
use agent_benchmark.Common.{
  ◌≡◌, refl, ◌↔◌, Bool, true, false, not, ◌&&◌, List, [], ◌∷◌, ◌++◌, map, filter, any, all,
  is_empty, arith, All, Bool-cases, and-eq_true, inl, inr, iff_trans, sym, All-map, ◌∙◌, All-iff,
  ap₂, ap,
}
use agent_benchmark.Scoring.{Status, passed, is_passed, is_error}
use agent_benchmark.Scoring.Number.{Number}
use agent_benchmark.Scoring.Capability.{
  CapabilityScoreComponent, CapabilityDeclaration, DimensionDeclaration, dimension_name, not_false,
  status_of,
}
use agent_benchmark.Scoring.Capability.Components.{aggregate_components}
use agent_benchmark.Scoring.Capability.Aggregate.{
  breakdown, track, dimension, of_capability, of_dimension, required_statuses,
}

-- A list in which all pass holds no error.
pub all_passed_no_error {ℓ} :
    {A : Type ℓ} (status : A → Status) (xs : List A)
    → all (λ x. is_passed (status x)) xs ≡ true
    → any (λ x. is_error (status x)) xs ≡ false
all_passed_no_error status [] h = refl
all_passed_no_error status (x ∷ xs) h = ground (arith, all_passed_no_error status xs)

pub status_of-passed_iff {ℓ} :
    {A : Type ℓ} (status : A → Status) (xs : List A) (extra : Bool)
    → (status_of (any (λ x. is_error (status x)) xs) (extra && all (λ x. is_passed (status x)) xs)
        ≡ passed)
      ↔ ((extra ≡ true) × (all (λ x. is_passed (status x)) xs ≡ true))
status_of-passed_iff status xs extra = ground (arith, all_passed_no_error status xs)

-- What a required track or dimension needs: a required component, and only passed ones among those.
abbrev pub IsProven : {N : Type 0} → List (CapabilityScoreComponent N) → Type 0
IsProven cs =
    (is_empty (filter (λ c. c.required) cs) ≡ false)
    × (all (λ c. is_passed c.status) (filter (λ c. c.required) cs) ≡ true)

-- The required rows all pass.
pub all_required_passed {ℓ} :
    {A : Type ℓ} (required : A → Bool) (status : A → Status) (xs : List A)
    → (all is_passed (map status (filter required xs)) ≡ true)
      ↔ All (λ x. required x ≡ true → status x ≡ passed) xs
all_required_passed required status [] = (λ _. tt, λ _. refl)
all_required_passed required status (x ∷ xs) = elim (Bool-cases (required x)) [
  | inl needed ↦ rw needed (ground (arith, needed, all_required_passed required status xs))
  | inr spare ↦ rw spare (ground (arith, spare, all_required_passed required status xs))
]

pub all-map {ℓ} :
    {A B : Type ℓ} (p : B → Bool) (f : A → B) (xs : List A)
    → all p (map f xs) ≡ all (λ x. p (f x)) xs
all-map p f [] = refl
all-map p f (x ∷ xs) = ap (λ b. p (f x) && b) (all-map p f xs)

pub all-append {ℓ} :
    {A : Type ℓ} (p : A → Bool) (xs ys : List A) → all p (xs ++ ys) ≡ (all p xs && all p ys)
all-append p [] ys = refl
all-append p (x ∷ xs) ys = ground (arith, all-append p xs ys)

module _ {N : Type 0} ⦃n : Number N⦄ where
  aggregate_components_passed :
      (required : Bool) (cs : List (CapabilityScoreComponent N))
      → (required ≡ true → (aggregate_components cs required).status ≡ passed)
        ↔ (required ≡ true → IsProven cs)
  unfolding aggregate_components
  aggregate_components_passed true cs =
      let verdict =
        status_of-passed_iff (λ c. c.status) (filter (λ c. c.required) cs)
          (not (is_empty (filter (λ c. c.required) cs))) in
      (λ h _. ground (arith, verdict, h refl), λ h _. ground (arith, verdict, h refl))
  aggregate_components_passed false cs = (λ _ e. cc, λ _ e. cc)

  module _ (components : List (CapabilityScoreComponent N)) where
    tracks_passed :
        (cs : List CapabilityDeclaration)
        → (all is_passed
              (map (λ t. t.status) (filter (λ t. t.required) (map (track components) cs)))
            ≡ true)
          ↔ All (λ c. not_false c.required ≡ true → IsProven (of_capability components c.id)) cs
    unfolding track
    tracks_passed cs =
        iff_trans
          (all_required_passed (λ t. t.required) (λ t. t.status) (map (track components) cs))
          (iff_trans (All-map (λ t. t.required ≡ true → t.status ≡ passed) (track components) cs) (
            All-iff cs (λ c.
              aggregate_components_passed (not_false c.required) (of_capability components c.id))))

    dimensions_passed :
        (ds : List (DimensionDeclaration N))
        → (all is_passed
              (map (λ d. d.status) (filter (λ d. d.required) (map (dimension components) ds)))
            ≡ true)
          ↔ All
              (λ d.
                not_false d.required ≡ true
                → IsProven (of_dimension components (dimension_name d.id)))
              ds
    unfolding dimension
    dimensions_passed ds =
        iff_trans
          (all_required_passed (λ d. d.required) (λ d. d.status) (map (dimension components) ds))
          (iff_trans
            (All-map (λ d. d.required ≡ true → d.status ≡ passed) (dimension components) ds)
            (All-iff ds (λ d.
              aggregate_components_passed (not_false d.required)
                (of_dimension components (dimension_name d.id)))))

  -- The breakdown passes exactly when each required capability and each required dimension has a
  -- required component, and only passed ones among its required components.
  pub breakdown_passed_iff :
      (capabilities : List CapabilityDeclaration) (dimensions : List (DimensionDeclaration N))
      (components : List (CapabilityScoreComponent N))
      → ((breakdown capabilities dimensions components).status ≡ passed) ↔ (
          All
            (λ c. not_false c.required ≡ true → IsProven (of_capability components c.id))
            capabilities
          × All
              (λ d.
                not_false d.required ≡ true
                → IsProven (of_dimension components (dimension_name d.id)))
              dimensions)
  unfolding breakdown
  breakdown_passed_iff capabilities dimensions components =
      let tracks = map (track components) capabilities in
      let rows = map (dimension components) dimensions in
      let split =
        all-append is_passed (map (λ t. t.status) (filter (λ t. t.required) tracks))
          (map (λ d. d.status) (filter (λ d. d.required) rows)) in
      let verdict = status_of-passed_iff (λ x. x) (required_statuses tracks rows) true in
      (
        λ h.
            let both = and-eq_true _ _ ((sym split) ∙ (verdict.0 h).1) in
            (
              (tracks_passed components capabilities).0 both.0,
              (dimensions_passed components dimensions).0 both.1,
            ),
        λ (ts, ds). verdict.1 (
          refl,
          split
              ∙ ap₂ (λ a b. a && b) ((tracks_passed components capabilities).1 ts)
                  ((dimensions_passed components dimensions).1 ds),
        ),
      )
