-- ===== src/ActionCost/Bursts.antt =====
-- What the costs are: for each session alone, its actions and its bursts of input into one field.
use Prim.Native.String.{String, ◌∷◌, []}
use agent_benchmark.ActionCost.{
  input_field_key, count_events, collect_normalized_action_costs, Option, List, count_event, get,
  HostedActionEvent, ℕ, Costs, some, false, none, cost_of, get_or, is_field, active_of,
  is_direct_action, count_input, count_direct, Bool,
}
use agent_benchmark.Common.{
  String, Option, List, get, filter, contains, ℕ, ◌==◌, ◌≡◌, ◌∷◌, some, false, none, get_or,
  if◌then◌else◌, ◌+◌, [], suc, arith, ap, eq_iff, get-put, Bool-cases, inl, inr, true, ◌∙◌, refl,
  Bool,
}

abbrev pub is_action : String → Bool
is_action type = contains type ("page.load" ∷ "navigation" ∷ "click" ∷ "submit" ∷ [])

-- The cost of one session's events, after an input into the field `active` (or none).
unfoldable pub bursts : (String → String) → Option String → List HostedActionEvent → ℕ
unfolding input_field_key
bursts lower active [] = 0
bursts lower active (e ∷ es) =
    let key = input_field_key lower e.payload in
    let same = bursts lower active es in
    let edit = bursts lower (some key) es in
    let act = bursts lower none es in
    if e.event_type == "input"
    then (if is_field key active then edit else suc edit)
    else if is_action e.event_type
    then suc act
    else same

abbrev pub events_of : String → List HostedActionEvent → List HostedActionEvent
events_of s events = filter (λ e. e.session_id == s) events

count_input_lem :
    (s t key : String) (c : Costs)
    → (cost_of t (count_input s key c) ≡ (
        if s == t
        then (if is_field key (active_of t c) then cost_of t c else suc (cost_of t c))
        else cost_of t c))
      × (active_of t (count_input s key c) ≡ (if s == t then some key else active_of t c))
unfolding count_input
count_input_lem s t key c =
    let at : s ≡ t → (cost_of s c ≡ cost_of t c) × (active_of s c ≡ active_of t c) =
      λ q. (ap (λ i. cost_of i c) q, ap (λ i. active_of i c) q) in
    (
      ground (arith, eq_iff s t, at, get-put s t (cost_of s c + 1) c.costs),
      ground (arith, get-put s t (some key) c.active),
    )

count_direct_lem :
    (s t : String) (c : Costs)
    → (cost_of t (count_direct s c) ≡ (if s == t then suc (cost_of t c) else cost_of t c))
      × (active_of t (count_direct s c) ≡ (if s == t then none else active_of t c))
unfolding count_direct
count_direct_lem s t c =
    let at : s ≡ t → cost_of s c ≡ cost_of t c = λ q. ap (λ i. cost_of i c) q in
    (
      ground (arith, eq_iff s t, at, get-put s t (cost_of s c + 1) c.costs),
      ground (arith, get-put s t none c.active),
    )

-- An event counts in its own session, as the reference does.
count_event_lem :
    (lower : String → String) (s : String) (e : HostedActionEvent) (es : List HostedActionEvent)
    (c : Costs)
    → (s == "") ≡ false
    → cost_of s (count_event lower e c) + bursts lower (active_of s (count_event lower e c)) es ≡ (
        cost_of s c
        + (if e.session_id == s
            then bursts lower (active_of s c) (e ∷ es)
            else bursts lower (active_of s c) es))
unfolding count_event bursts
count_event_lem lower s e es c named =
    let key = input_field_key lower e.payload in
    let (input_cost, input_active) = count_input_lem e.session_id s key c in
    let (direct_cost, direct_active) = count_direct_lem e.session_id s c in
    let named_here : (e.session_id == s) ≡ true → (e.session_id == "") ≡ false =
      λ q. ground (arith, eq_iff e.session_id s, eq_iff e.session_id "", eq_iff s "", q) in
    let edited : (b : Bool)
        → (e.session_id == s) ≡ b
        → bursts lower (active_of s (count_input e.session_id key c)) es
          ≡ bursts lower (if b then some key else active_of s c) es =
      λ b q.
        ap (λ a. bursts lower a es)
          (input_active ∙ ap (λ v. if v then some key else active_of s c) q) in
    let acted : (b : Bool)
        → (e.session_id == s) ≡ b
        → bursts lower (active_of s (count_direct e.session_id c)) es
          ≡ bursts lower (if b then none else active_of s c) es =
      λ b q.
        ap (λ a. bursts lower a es)
          (direct_active ∙ ap (λ v. if v then none else active_of s c) q) in
    elim (Bool-cases (e.session_id == "")) [
      | inl blank ↦ rw (blank, count_event) (ground (arith, named_here, blank))
      | inr n ↦ elim (Bool-cases (e.event_type == "input")) [
        | inl input ↦
            rw (n, input, count_event) (ground (arith, input_cost, edited true, edited false))
        | inr i ↦ elim (Bool-cases (is_direct_action e.event_type)) [
          | inl direct ↦
              rw (n, i, direct, count_event) (ground (arith, direct_cost, acted true, acted false))
          | inr silent ↦ rw (n, i, silent, count_event) (ground arith)
        ]
      ]
    ]

count_events-bursts :
    (lower : String → String) (s : String) (events : List HostedActionEvent) (c : Costs)
    → (s == "") ≡ false
    → cost_of s (count_events lower events c)
      ≡ cost_of s c + bursts lower (active_of s c) (events_of s events)
unfolding count_events
count_events-bursts lower s [] c named = unfold bursts in (omega arith)
count_events-bursts lower s (e ∷ es) c named =
    let rest = count_events-bursts lower s es (count_event lower e c) named in
    let here = count_event_lem lower s e (events_of s es) c named in
    elim (Bool-cases (e.session_id == s)) [
      | inl same ↦ rw same (rest ∙ (here ∙ (rw same refl)))
      | inr other ↦ rw other (rest ∙ (here ∙ (rw other refl)))
    ]

-- The collected cost of a session is that of its own events: each navigation, click or submission
-- counts, and the inputs into one field count once until another action or field comes between.
-- Other sessions' events and events of other types change nothing.
pub cost-bursts :
    (lower : String → String) (s : String) (events : List HostedActionEvent)
    → (s == "") ≡ false
    → get_or (get s (collect_normalized_action_costs lower events)) 0
      ≡ bursts lower none (events_of s events)
unfolding collect_normalized_action_costs get
cost-bursts lower s events named =
    omega (arith, count_events-bursts lower s events (record { costs = []; active = [] }) named)
