-- ===== src/Commands/Exchange.antt =====
-- `partitionForKey` and `execute`: publishing a command and awaiting its response.
use native.Mathlib.Nat.{mod-lt}
use Prim.Native.String.{String, [], ◌∷◌}
use agent_benchmark.Common.{
  String, List, ◌≡◌, ℕ, ◌%◌, some, get, Bool, Option, get_or, all, none, [], ltb, put, ◌<◌,
  get-put_self, ◌∷◌, arith, ◌++◌, ap, ◌∙◌, sym, Option-cases, inl, true, subst, refl, inr,
  if◌then◌else◌, is_empty, remove,
}
use agent_benchmark.Commands.{
  Options, Store, ℕ, Fields, StoredResponse, CommandResponse, Entry, Bool, Option, get_or, json,
  normalized_partitions, queued, started,
}
use agent_benchmark.Commands.Process.{
  publish_response, complete, Command, observe, settled, Turn, process_command, process_message,
  process_new, present, escaped, again, command_of, settle, acknowledge,
}
use agent_benchmark.Json.{Fields, object, field, string, end}
use agent_benchmark.Commands.Settling.{settle-Ended}
use agent_benchmark.Commands.Attempts.{Settled, Ended}
use agent_benchmark.Commands.Deliveries.{Inv, ended_delivery, Fair}

pub data Role : Type 0 where
  api : Role
  worker : Role
  all_roles : Role

-- The first 32 bits of the key's digest choose the partition.
unfoldable pub partition_for_key : (String → ℕ) → String → ℕ → ℕ
partition_for_key digest key partition_count = digest key % partition_count

-- `assignedPartitions.some(...)` throws on a partition out of range.
unfoldable pub assignment_is_valid : List ℕ → ℕ → Bool
assignment_is_valid assigned partition_count = all (λ p. ltb p partition_count) assigned

-- `xAdd`: `execute` publishes to the stream of the key's partition. The stream's entry id is given.
unfoldable pub publish_command :
    Options → String → String → Fields → String → String → Store → Entry × Store
unfolding partition_for_key
publish_command o id command_type payload partition_key command_id s =
    let entry : Entry = record {
      stream = partition_for_key o.digest partition_key o.partition_count;
      id = id;
      message = record {
        command_id = some command_id;
        command_type = some command_type;
        partition_key = some partition_key;
        payload = json payload;
      };
    } in
    (entry, observe (queued command_id) (record s { stream = s.stream ++ entry ∷ [] }))

-- The last element, and those before it.
unfoldable pub pop_last : List StoredResponse → Option (StoredResponse × List StoredResponse)
pop_last [] = none
pop_last (r ∷ rs) = elim (pop_last rs) [ none ↦ some (r, []) | some (q, qs) ↦ some (q, r ∷ qs) ]

abbrev pub timed_out : String → CommandResponse
timed_out command_id = record {
  status_code = 504;
  body = object (
      field "error" (string "orchestrator_command_timeout")
        (field "commandId" (string command_id) end));
}

-- `brPop`: the oldest response of the command, or the time-out's where there is none.
unfoldable pub await_response : String → Store → CommandResponse × Store
unfolding pop_last
await_response command_id s = elim (pop_last (get_or (get command_id s.responses) [])) [
  | none ↦ (timed_out command_id, s)
  | some (r, rest) ↦ (
    record { status_code = r.status_code; body = r.body },
    record s {
      responses =
          if is_empty rest then remove command_id s.responses else put command_id rest s.responses;
    },
  )
]

-- `execute`, with the worker's run in between. `none` is the exception of a worker-only backbone.
unfoldable pub execute :
    Role
    → Options
    → (Entry → Store → Store)
    → String
    → String
    → Fields
    → String
    → String
    → Store
    → Option (CommandResponse × Store)
unfolding publish_command await_response
execute worker o work id command_type payload partition_key command_id s = none
execute role o work id command_type payload partition_key command_id s =
    let (entry, published) = publish_command o id command_type payload partition_key command_id s in
    some (await_response command_id (work entry published))

-- A key always chooses a partition in range, and the same key the same partition.
pub partition_for_key_bounded :
    (digest : String → ℕ) (key : String) (given : Option ℕ)
    → partition_for_key digest key (normalized_partitions given) < normalized_partitions given
unfolding partition_for_key
partition_for_key_bounded digest key none = omega arith
partition_for_key_bounded digest key (some n) = mod-lt (digest key) (omega arith)

await_head :
    (command : String) (r : StoredResponse) (s : Store)
    → get command s.responses ≡ some (r ∷ [])
    → (await_response command s).0 ≡ record { status_code = r.status_code; body = r.body }
unfolding await_response pop_last
await_head command r s e = rw (e, await_response) refl

-- How a delivery that returned answers the command.
pub record Answered (command : String) (t : Store) : Type 0 where
  pub response : StoredResponse
  pub stored : get command t.results ≡ some response
  pub awaited :
      (await_response command t).0
      ≡ record { status_code = response.status_code; body = response.body }

publish_response-get :
    (command : String) (r : StoredResponse) (s : Store)
    → r.command_id ≡ command
    → get command s.responses ≡ none
    → get command (publish_response r s).responses ≡ some (r ∷ [])
unfolding publish_response
publish_response-get command r s same empty =
    let here : get r.command_id s.responses ≡ none = ap (λ k. get k s.responses) same ∙ empty in
    ap (λ k. get k (publish_response r s).responses) (sym same)
    ∙ get-put_self r.command_id (r ∷ get_or (get r.command_id s.responses) []) s.responses
    ∙ ap (λ q. some (r ∷ get_or q [])) here

complete-Answered :
    (o : Options) (c : Command) (s : Store) (r : StoredResponse) (t : Store)
    → get c.command_id s.responses ≡ none
    → Settled o c s r t
    → Answered c.command_id (complete o c r t)
unfolding complete publish_response
complete-Answered o c s r t empty e = record {
  response = r;
  stored = get-put_self c.command_id r t.results;
  awaited = await_head c.command_id r (complete o c r t) (
      publish_response-get c.command_id r t e.answers
        (ap (get c.command_id) e.kept.same_responses ∙ empty));
}

abbrev Replies : String → Option (Store × Bool) → Type 0
Replies command (some (t, true)) = Answered command t
Replies command _ = Unit

Ended-Replies :
    (o : Options) (c : Command) (s : Store) (e : Option Turn)
    → get c.command_id s.responses ≡ none
    → Ended o c s e
    → Replies c.command_id (ended_delivery o c e)
Ended-Replies o c s none empty h = tt
Ended-Replies o c s (some (settled r t)) empty h = complete-Answered o c s r t empty h
Ended-Replies o c s (some (escaped t)) empty h = tt
Ended-Replies o c s (some (again t)) empty h = tt

process_command-Replies :
    (o : Options) (c : Command) (s : Store)
    → Inv o s
    → get c.command_id s.responses ≡ none
    → Replies c.command_id (process_command o c s)
unfolding process_command process_new publish_response
process_command-Replies o c s h empty = elim (Option-cases (get c.command_id s.results)) [
  | inl new ↦
      let before : Fair o s c.command_id none =
        subst (Fair o s c.command_id) new (h c.command_id) in
      let started_store = observe (started c.command_id) s in
      rw (new, process_command)
        (Ended-Replies o c started_store (settle o c started_store) empty
          (settle-Ended o c started_store before.0 before.1))
  | inr (stored, e) ↦
      let known : Fair o s c.command_id (some stored) =
        subst (Fair o s c.command_id) e (h c.command_id) in
      rw (e, process_command)
        (record {
          response = stored;
          stored = e;
          awaited =
              await_head c.command_id stored (acknowledge c.id (publish_response stored s))
                (publish_response-get c.command_id stored s known.2 empty);
        })
]

-- A delivery of a command that returns leaves its result stored, and the caller that awaits the
-- command gets that result: the handler's response, the stored one, or the dead letter's.
pub delivery_answers :
    (o : Options) (e : Entry) (s t : Store) (command type : String)
    → Inv o s
    → present e.message.command_id ≡ some command
    → present e.message.command_type ≡ some type
    → get command s.responses ≡ none
    → process_message o e s ≡ some (t, true)
    → Answered command t
unfolding process_message
delivery_answers o e s t command type h p q empty d =
    let same : process_message o e s ≡ process_command o (command_of e command type) s =
      rw (p, q, process_message) refl in
    subst (Replies command) (sym same ∙ d)
      (process_command-Replies o (command_of e command type) s h empty)
