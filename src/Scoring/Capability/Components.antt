-- ===== src/Scoring/Capability/Components.antt =====
-- `aggregateComponents`: the weighted score and the status of one track or dimension.
use agent_benchmark.Common.{
  Bool, not, ◌&&◌, ◌||◌, List, [], ◌∷◌, map, filter, any, all, is_empty, length, if◌then◌else◌, All,
  Bool-cases, inl, inr,
}
use agent_benchmark.Scoring.{is_passed, is_error}
use agent_benchmark.Scoring.Number.{Number, ◌≼◌, IsUnit, IsRounded}
use agent_benchmark.Scoring.Capability.{CapabilityScoreComponent, ComponentResult, status_of}

module _ {N : Type 0} ⦃n : Number N⦄ where
  -- The two reduces over any rows with a score and a weight: `Math.max(weight, 0)` is applied to each.
  unfoldable pub weight_sum : N → List (N × N) → N
  weight_sum sum [] = sum
  weight_sum sum ((score, weight) ∷ rows) = weight_sum (n.plus sum (n.maximum weight n.nought)) rows

  unfoldable pub weighted_sum : N → List (N × N) → N
  weighted_sum sum [] = sum
  weighted_sum sum ((score, weight) ∷ rows) =
      weighted_sum (n.plus sum (n.times score (n.maximum weight n.nought))) rows

  -- The quotient, or 0 where the weights sum to 0.
  unfoldable pub weighted_mean : List (N × N) → N
  weighted_mean rows =
      let total = weight_sum n.nought rows in
      if n.equals total n.nought then n.nought else n.divide (weighted_sum n.nought rows) total

  abbrev pub scored : CapabilityScoreComponent N → N × N
  scored c = (c.score, c.weight)

  unfoldable pub aggregate_components : List (CapabilityScoreComponent N) → Bool → ComponentResult N
  aggregate_components components required =
      let required_components = filter (λ c. c.required) components in
      let has_error = any (λ c. is_error c.status) required_components in
      let has_required_evidence = not required || not (is_empty required_components) in
      let is_pass = has_required_evidence && all (λ c. is_passed c.status) required_components in
      record {
        score = n.to_fixed (weighted_mean (map scored components));
        status = status_of has_error is_pass;
        component_count = length components;
      }

  -- A row with a score of the unit interval and a weight that is not NaN.
  abbrev pub IsScored : N × N → Type 0
  IsScored (score, weight) = IsUnit score × (weight ≼ weight)

  module _ (laws : IsRounded N) where
    open laws use {
      nought_le, one_le, plus_mono, plus_nonneg, times_nonneg, times_le, divide_unit,
      maximum_nonneg, to_fixed_unit,
    }

    pub weighted_sum_le :
        (rows : List (N × N)) (a b : N)
        → All IsScored rows
        → a ≼ b
        → n.nought ≼ a
        → (n.nought ≼ weighted_sum a rows) × (weighted_sum a rows ≼ weight_sum b rows)
    unfolding weighted_sum weight_sum
    weighted_sum_le [] a b h p q = (q, p)
    weighted_sum_le ((s, w) ∷ rows) a b ((unit, number), h) p q =
        let m = n.maximum w n.nought in
        let m_nonneg = maximum_nonneg w number in
        weighted_sum_le rows (n.plus a (n.times s m)) (n.plus b m) h
          (plus_mono a (n.times s m) b m p (times_le s m unit.0 unit.1 m_nonneg))
          (plus_nonneg a (n.times s m) q (times_nonneg s m unit.0 m_nonneg))

    pub weighted_mean-IsUnit :
        (rows : List (N × N)) → All IsScored rows → IsUnit (weighted_mean rows)
    unfolding weighted_mean
    weighted_mean-IsUnit rows h = elim (Bool-cases (n.equals (weight_sum n.nought rows) n.nought)) [
      | inl zero_total ↦ rw (zero_total, weighted_mean) (nought_le, one_le)
      | inr positive ↦
          let bounds = weighted_sum_le rows n.nought n.nought h nought_le nought_le in
          rw (positive, weighted_mean) (divide_unit _ _ bounds.0 bounds.1 positive)
    ]

    -- A track or a dimension scores within 0 and 1.
    pub aggregate_components-IsUnit :
        (components : List (CapabilityScoreComponent N)) (required : Bool)
        → All IsScored (map scored components)
        → IsUnit (aggregate_components components required).score
    unfolding aggregate_components
    aggregate_components-IsUnit components required h =
        to_fixed_unit _ (weighted_mean-IsUnit (map scored components) h)
