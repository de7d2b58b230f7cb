-- ===== src/ActionCost/Tests.antt =====
-- Costs of a short session.
use Prim.Native.String.{String, []}
use agent_benchmark.Common.{String, List, get_or, get, ◌≡◌, ◌∷◌, [], none, put, some, refl}
use agent_benchmark.Json.{Json, field, string, null, end, get_field}
use agent_benchmark.ActionCost.{
  collect_normalized_action_costs, HostedActionEvent, object, count_events, get, count_event,
  count_input, count_direct, none, input_field_key, put, some, get_field,
}
use agent_benchmark.ActionCost.Bursts.{bursts, events_of, cost-bursts}

abbrev event : String → String → Json → HostedActionEvent
event s type payload = record { session_id = s; event_type = type; payload = payload }

abbrev name_input : Json
name_input = object (field "name" (string "title") end)

abbrev events : List HostedActionEvent
events =
    event "s" "input" name_input
    ∷ event "t" "click" null
    ∷ event "s" "server.save" null
    ∷ event "s" "input" name_input
    ∷ event "s" "click" null
    ∷ event "s" "input" name_input
    ∷ []

events_cost : get "s" (collect_normalized_action_costs (λ s. s) events) ≡ some 3
unfolding collect_normalized_action_costs count_events count_event count_input count_direct
    input_field_key get put get_field
events_cost = refl

cost-bursts_example :
    get_or (get "s" (collect_normalized_action_costs (λ s. s) events)) 0
    ≡ bursts (λ s. s) none (events_of "s" events)
cost-bursts_example = cost-bursts (λ s. s) "s" events refl
