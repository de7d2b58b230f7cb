-- ===== src/Scoring/Suite/Verdict.antt =====
-- The status and the score of a suite.
use agent_benchmark.Scoring.{Status, passed, is_passed, is_error}
use agent_benchmark.Scoring.Number.{Number, IsRounded, IsUnit}
use agent_benchmark.Common.{
  Option, List, ◌≡◌, all, some, All, true, filter, ◌↔◌, arith, false, none, refl, ◌∙◌, sym, Bool,
}
use agent_benchmark.Scoring.Suite.{
  aggregate_suite_score, CapabilityBreakdown, PublicScenarioGraphEvaluation, SuiteParams,
  capabilities_are, graph_is, checks, required_sessions, required_passed,
}
use agent_benchmark.Scoring.Capability.{CapabilityBreakdown}
use agent_benchmark.Scoring.Scenario.{PublicScenarioGraphEvaluation}
use agent_benchmark.Scoring.Capability.Verdict.{all-map, all_required_passed, all_passed_no_error}

rows_iff :
    {A : Type 0} (required : A → Bool) (status : A → Status) (xs : List A)
    → (all (λ x. is_passed (status x)) (filter required xs) ≡ true)
      ↔ All (λ x. required x ≡ true → status x ≡ passed) xs
rows_iff required status xs =
    let same = all-map is_passed status (filter required xs) in
    let rows = all_required_passed required status xs in
    (λ h. rows.0 (same ∙ h), λ h. (sym same) ∙ rows.1 h)

module _ {N : Type 0} ⦃n : Number N⦄ where
  -- An optional part that is missing does not count.
  abbrev pub CapabilitiesAre : Status → Option (CapabilityBreakdown N) → Type 0
  CapabilitiesAre status o = (c : CapabilityBreakdown N) → o ≡ some c → c.status ≡ status

  abbrev pub GraphIs : Status → Option (PublicScenarioGraphEvaluation N) → Type 0
  GraphIs status o = (g : PublicScenarioGraphEvaluation N) → o ≡ some g → g.status ≡ status

  capabilities_iff :
      (o : Option (CapabilityBreakdown N))
      → (capabilities_are is_passed true o ≡ true) ↔ CapabilitiesAre passed o
  capabilities_iff none = (λ _ c e. cc, λ _. refl)
  capabilities_iff (some c) = (λ h c' e. ground arith, λ h. ground (arith, h c refl))

  graph_iff :
      (o : Option (PublicScenarioGraphEvaluation N))
      → (graph_is is_passed true o ≡ true) ↔ GraphIs passed o
  graph_iff none = (λ _ g e. cc, λ _. refl)
  graph_iff (some g) = (λ h g' e. ground arith, λ h. ground (arith, h g refl))

  capabilities_no_error :
      (o : Option (CapabilityBreakdown N))
      → capabilities_are is_passed true o ≡ true
      → capabilities_are is_error false o ≡ false
  capabilities_no_error none h = refl
  capabilities_no_error (some c) h = ground arith

  graph_no_error :
      (o : Option (PublicScenarioGraphEvaluation N))
      → graph_is is_passed true o ≡ true
      → graph_is is_error false o ≡ false
  graph_no_error none h = refl
  graph_no_error (some c) h = ground arith

  -- A suite passes exactly when every required session and every required consistency check passed,
  -- and so did the capability breakdown and the scenario graph where there is one.
  pub suite_passed_iff :
      (params : SuiteParams N)
      → ((aggregate_suite_score params).status ≡ passed) ↔ (
          All (λ s. s.required ≡ true → s.status ≡ passed) params.sessions
          × All (λ c. c.required ≡ true → c.status ≡ passed) (checks params)
          × CapabilitiesAre passed params.capabilities
          × GraphIs passed params.scenario_graph)
  unfolding aggregate_suite_score
  suite_passed_iff params =
      let clean = all_passed_no_error (λ s. s.status) (required_sessions params) in
      let sessions = rows_iff (λ s. s.required) (λ s. s.status) params.sessions in
      let consistency = rows_iff (λ c. c.required) (λ c. c.status) (checks params) in
      let capabilities = capabilities_iff params.capabilities in
      let graph = graph_iff params.scenario_graph in
      (
        λ h.
            let p : required_passed params ≡ true = ground arith in
            (
              sessions.0 (ground (arith, p)),
              consistency.0 (ground (arith, p)),
              capabilities.0 (ground (arith, p)),
              graph.0 (ground (arith, p)),
            ),
        λ (a, b, c, d). ground (
          arith,
          sessions.1 a,
          consistency.1 b,
          capabilities.1 c,
          graph.1 d,
          clean,
          capabilities_no_error params.capabilities,
          graph_no_error params.scenario_graph,
        ),
      )

  module _ (laws : IsRounded N) where
    abbrev UnitScore : Option (CapabilityBreakdown N) → Type 0
    UnitScore none = Unit
    UnitScore (some c) = IsUnit c.score
