-- ===== src/Commands/Process.antt =====
-- `processMessage`: the attempts of a command, its dead letter, its stored result.
use agent_benchmark.Commands.{PayloadText, absent, malformed, json, Fields, Handled}
use agent_benchmark.Common.{zero, suc}
use Prim.Native.String.{String, []}
use Prim.Native.Nat.{ℕ, suc}
use agent_benchmark.Common.{
  Option, String, ℕ, some, if◌then◌else◌, put, remove, none, ◌++◌, Bool, suc, get_or, ◌==◌, true,
  get, ◌∷◌, ltb, leb, false, [], length, ◌-◌, ◌*◌, ◌^◌,
}
use agent_benchmark.Commands.{
  PayloadText, Event, StoredResponse, Failure, Options, Store, CommandDeadLetter, Entry, Bool,
  get_or, json, dead_letter, completed, started, retry, responded, threw,
}
use agent_benchmark.Json.{object, end, field, string, number, Fields}

-- `!commandId`, `!type`: missing or empty.
abbrev pub present : Option String → Option String
present none = none
present (some s) = if s == "" then none else some s

abbrev pub payload_of : PayloadText → Option Fields
payload_of absent = some end
payload_of malformed = none
payload_of (json v) = some v

abbrev pub observe : Event → Store → Store
observe e s = record s { events = s.events ++ e ∷ [] }

abbrev pub acknowledge : String → Store → Store
acknowledge id s = record s { acknowledged = s.acknowledged ++ id ∷ [] }

-- `lPush` puts the response at the head of the command's list.
unfoldable pub publish_response : StoredResponse → Store → Store
publish_response response s = record s {
  responses =
      put response.command_id (response ∷ get_or (get response.command_id s.responses) [])
        s.responses;
}

abbrev pub forget_attempts : String → Store → Store
forget_attempts command s = record s {
  retries = remove command s.retries;
  failures = remove command s.failures;
}

-- A message with its command and type.
pub record Command : Type 0 where
  pub stream : ℕ
  pub id : String
  pub command_id : String
  pub command_type : String
  pub partition_key : Option String
  pub payload : PayloadText

abbrev pub command_of : Entry → String → String → Command
command_of e command type = record {
  stream = e.stream;
  id = e.id;
  command_id = command;
  command_type = type;
  partition_key = e.message.partition_key;
  payload = e.message.payload;
}

-- What one turn of the loop leads to: a response, another turn, or an exception of the callback.
pub data Turn : Type 0 where
  settled : StoredResponse → Store → Turn
  again : Store → Turn
  escaped : Store → Turn

abbrev pub default_failure : Failure
default_failure = record { error_code = "command_handler_error"; error_message = "Command failed" }

abbrev pub dead_letter_of : Command → Fields → Failure → ℕ → CommandDeadLetter
dead_letter_of c payload f attempts = record {
  command_id = c.command_id;
  stream = c.stream;
  message_id = c.id;
  partition = c.stream;
  partition_key = c.partition_key;
  payload_type = c.command_type;
  payload = payload;
  error_code = f.error_code;
  error_message = f.error_message;
  attempts = attempts;
}

abbrev pub dead_lettered : Command → ℕ → StoredResponse
dead_lettered c attempts = record {
  command_id = c.command_id;
  status_code = 500;
  body = object (
      field "error" (string "orchestrator_command_dead_lettered")
        (field "commandId" (string c.command_id) (field "attempts" (number attempts) end)));
}

module _ (o : Options) where
  abbrev pub reports : ℕ → CommandDeadLetter → Bool
  reports n letter = elim o.on_dead_letter [ none ↦ true | some f ↦ f n letter ]

  -- The call of `onDeadLetter` and the response of a dead-lettered command.
  unfoldable pub bury : Command → Fields → Failure → ℕ → Store → Turn
  bury c payload f attempts s =
      let letter = dead_letter_of c payload f attempts in
      let called = record s { dead_letter_calls = suc s.dead_letter_calls } in
      if reports s.dead_letter_calls letter
      then settled (dead_lettered c attempts) (
          observe (dead_letter c.command_id)
            (record called { dead_letters = s.dead_letters ++ letter ∷ [] }))
      else escaped called

  -- The `catch` of the loop.
  unfoldable pub fail_attempt : Command → Fields → Failure → Store → Turn
  unfolding bury
  fail_attempt c payload f s =
      let attempts = suc (get_or (get c.command_id s.retries) 0) in
      let counted = record s { retries = put c.command_id attempts s.retries } in
      if ltb attempts o.max_command_attempts
      then again (
          observe (retry c.command_id) (record counted {
            delays = s.delays ++ o.retry_base_delay_ms * 2 ^ (attempts - 1) ∷ [];
          }))
      else bury c payload f attempts (record counted { failures = put c.command_id f s.failures })

  -- After the handler's answer.
  unfoldable pub answer : Command → Fields → Handled → Store → Turn
  unfolding fail_attempt
  answer c payload (responded r) s =
      settled (record { command_id = c.command_id; status_code = r.status_code; body = r.body })
        (forget_attempts c.command_id s)
  answer c payload (threw f) s = fail_attempt c payload f s

  -- One turn of `while (!response)`.
  unfoldable pub attempt : Command → Store → Turn
  unfolding fail_attempt answer
  attempt c s = elim (payload_of c.payload) [
    | none ↦
        fail_attempt c end
          (record { error_code = "SyntaxError"; error_message = "Unexpected token in JSON" }) s
    | some payload ↦
        answer c payload (o.handler (length s.calls) c.command_type payload)
          (record s { calls = s.calls ++ c.command_id ∷ [] })
  ]

  -- The loop, on fuel: `none` is running out of it.
  unfoldable pub attempts : ℕ → Command → Store → Option Turn
  unfolding attempt
  attempts zero c s = none
  attempts (suc n) c s = elim (attempt c s) [
    | settled r t ↦ some (settled r t)
    | escaped t ↦ some (escaped t)
    | again t ↦ attempts n c t
  ]

  -- Persisted attempts that are used up bury the command at once, otherwise the loop runs.
  unfoldable pub settle : Command → Store → Option Turn
  unfolding attempts bury
  settle c s =
      let persisted = get_or (get c.command_id s.retries) 0 in
      if leb o.max_command_attempts persisted
      then some (
          bury c (get_or (payload_of c.payload) end)
            (get_or (get c.command_id s.failures) default_failure) persisted s)
      else attempts (o.max_command_attempts - persisted) c s

  -- What follows the loop.
  unfoldable pub complete : Command → StoredResponse → Store → Store
  unfolding publish_response
  complete c response s =
      let stored = record (forget_attempts c.command_id s) {
        results = put c.command_id response s.results;
      } in
      observe (completed c.command_id response.status_code)
        (acknowledge c.id (publish_response response stored))

  -- A command without a stored result. The flag is false where an exception leaves the function.
  unfoldable pub process_new : Command → Store → Option (Store × Bool)
  unfolding settle complete
  process_new c s = elim (settle c (observe (started c.command_id) s)) [
    | none ↦ none
    | some (settled r t) ↦ some (complete c r t, true)
    | some (escaped t) ↦ some (t, false)
    | some (again t) ↦ none
  ]

  unfoldable pub process_command : Command → Store → Option (Store × Bool)
  unfolding process_new publish_response
  process_command c s = elim (get c.command_id s.results) [
    | some stored ↦ some (acknowledge c.id (publish_response stored s), true)
    | none ↦ process_new c s
  ]

  unfoldable pub process_message : Entry → Store → Option (Store × Bool)
  unfolding process_command
  process_message e s = elim (present e.message.command_id) [
    | none ↦ some (acknowledge e.id s, true)
    | some command ↦ elim (present e.message.command_type) [
      | none ↦ some (acknowledge e.id s, true)
      | some type ↦ process_command (command_of e command type) s
    ]
  ]
