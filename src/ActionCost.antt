-- ===== src/ActionCost.antt =====
-- Interaction costs: apps/hosted-orchestrator/src/action-cost.ts. `toLowerCase` is Unicode's case
-- mapping, a parameter. A field's key leaves out the prefix `input:` that all of them have.
pub mod Bursts
mod Tests
use Prim.Native.String.{String, ◌∷◌, []}
use agent_benchmark.Common.{
  String, Option, Map, some, get_or, Bool, ℕ, if◌then◌else◌, List, ◌==◌, contains, get, false, ◌∷◌,
  [], none, put, ◌+◌, map_option,
}
use agent_benchmark.Json.{Fields, Json, as_record, object, get_field, as_string}

pub record HostedActionEvent : Type 0 where
  pub session_id : String
  pub event_type : String
  pub payload : Json

abbrev pub nonempty : Option String → Option String
nonempty none = none
nonempty (some s) = if s == "" then none else some s

-- `isRecord(payload.payload) ? payload.payload : payload`
abbrev pub nested_payload : Fields → Fields
nested_payload fs = get_or (as_record (get_field "payload" fs)) fs

unfoldable pub input_field_key : (String → String) → Json → String
input_field_key lower (object fs) =
    let nested = nested_payload fs in
    get_or (nonempty (as_string (get_field "name" nested)))
      (get_or (map_option lower (nonempty (as_string (get_field "tag" nested)))) "unknown")
input_field_key lower payload = "unknown"

abbrev pub is_direct_action : String → Bool
is_direct_action type = contains type ("page.load" ∷ "navigation" ∷ "click" ∷ "submit" ∷ [])

-- `costs` and `activeInputFieldBySession`; a `null` there is the absence of a field.
pub record Costs : Type 0 where
  pub costs : Map ℕ
  pub active : Map (Option String)

abbrev pub cost_of : String → Costs → ℕ
cost_of s c = get_or (get s c.costs) 0

abbrev pub active_of : String → Costs → Option String
active_of s c = get_or (get s c.active) none

abbrev pub is_field : String → Option String → Bool
is_field key none = false
is_field key (some k) = k == key

unfoldable pub count_input : String → String → Costs → Costs
count_input s key c = record {
  costs = if is_field key (active_of s c) then c.costs else put s (cost_of s c + 1) c.costs;
  active = put s (some key) c.active;
}

unfoldable pub count_direct : String → Costs → Costs
count_direct s c = record { costs = put s (cost_of s c + 1) c.costs; active = put s none c.active }

-- One turn of the loop.
unfoldable pub count_event : (String → String) → HostedActionEvent → Costs → Costs
count_event lower e c =
    if e.session_id == ""
    then c
    else if e.event_type == "input"
    then count_input e.session_id (input_field_key lower e.payload) c
    else if is_direct_action e.event_type
    then count_direct e.session_id c
    else c

unfoldable pub count_events : (String → String) → List HostedActionEvent → Costs → Costs
unfolding count_event
count_events lower [] c = c
count_events lower (e ∷ es) c = count_events lower es (count_event lower e c)

unfoldable pub collect_normalized_action_costs : (String → String) → List HostedActionEvent → Map ℕ
unfolding count_events
collect_normalized_action_costs lower events =
    (count_events lower events (record { costs = []; active = [] })).costs
