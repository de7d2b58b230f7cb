-- ===== src/Commands/Tests.antt =====
-- Commands at concrete handlers: one that fails twice, one that always fails.
use agent_benchmark.Common.{refl, arith, eq_iff, ◌↔◌, ◌<◌}
use Prim.Native.Nat.{ℕ}
use agent_benchmark.Common.{
  ℕ, Option, get, some, ◌∷◌, String, List, none, [], ◌≡◌, if◌then◌else◌, ltb, true, ◌≤◌, put,
  remove, refl,
}
use agent_benchmark.Commands.{
  Options, Entry, Store, StoredResponse, String, normalized_attempts, threw, List, empty_store,
  Fields, json, [], Handled, normalized_partitions, responded,
}
use agent_benchmark.Commands.Deliveries.{deliver, result_stays, Inv, deliveries_bounded}
use agent_benchmark.Commands.Process.{
  process_message, process_command, process_new, settle, attempts, attempt, answer, fail_attempt,
  bury, complete, publish_response, acknowledge,
}
use agent_benchmark.Json.{Fields, end, bool}
use agent_benchmark.Commands.Attempts.{calls_of, letters_of}
use agent_benchmark.Commands.Exchange.{Answered, delivery_answers}
use agent_benchmark.Commands.Leases.{
  Leases, AllOrNothing, member, set_lease, acquire_partition_leases, readiness,
  acquire-AllOrNothing, readiness_iff,
}

abbrev flaky : ℕ → String → Fields → Handled
flaky n type payload =
    if ltb n 2
    then threw (record { error_code = "Error"; error_message = "busy" })
    else responded (record { status_code = 200; body = bool true })

abbrev options : Options
options = record {
  max_command_attempts = normalized_attempts none;
  retry_base_delay_ms = 100;
  partition_count = normalized_partitions none;
  handler = flaky;
  on_dead_letter = some (λ n letter. ltb 0 n);
  digest = λ key. 37;
}

-- The callback refuses its first dead letter.
abbrev broken : Options
broken = record options {
  handler = λ n type payload. threw (record { error_code = "Error"; error_message = "down" });
}

abbrev entry : Entry
entry = record {
  stream = 5;
  id = "1-0";
  message = record {
    command_id = some "c1";
    command_type = some "attempt.init";
    partition_key = some "run";
    payload = json end;
  };
}

abbrev after : Option Store → (Store → ℕ) → ℕ
after none f = 99
after (some s) f = f s

unfoldable delivered : Options → List Entry → Option Store
delivered o es = deliver o es empty_store

flaky_run :
    (after (delivered options (entry ∷ entry ∷ [])) (calls_of "c1") ≡ 3)
    × (after (delivered broken (entry ∷ [])) (letters_of "c1") ≡ 0)
    × (after (delivered broken (entry ∷ entry ∷ entry ∷ [])) (letters_of "c1") ≡ 1)
    × (after (delivered broken (entry ∷ entry ∷ entry ∷ [])) (calls_of "c1") ≡ 3)
unfolding delivered deliver process_message process_command process_new settle attempts attempt
    answer fail_attempt bury complete publish_response get put remove
flaky_run = (refl, refl, refl, refl)

deliveries_bounded_example :
    (t : Store) × (deliver broken (entry ∷ entry ∷ entry ∷ []) empty_store ≡ some t)
    × ((j : String) → (calls_of j t ≤ 3) × (letters_of j t ≤ 1))
deliveries_bounded_example = deliveries_bounded broken (entry ∷ entry ∷ entry ∷ [])

abbrev response : StoredResponse
response = record { command_id = "c1"; status_code = 200; body = bool true }

abbrev stored_store : Store
stored_store = record empty_store { results = ("c1", response) ∷ [] }

stored_store-Inv : Inv options stored_store
unfolding get
stored_store-Inv j = ground (arith, eq_iff "c1" j)

abbrev answered_store : Store
answered_store = acknowledge "1-0" (publish_response response stored_store)

result_stays_example : get "c1" answered_store.results ≡ some response
unfolding deliver process_message process_command get
result_stays_example =
    result_stays options (entry ∷ []) stored_store answered_store "c1" response stored_store-Inv
      refl refl

delivery_answers_example : Answered "c1" answered_store
unfolding process_message process_command get
delivery_answers_example =
    delivery_answers options entry stored_store answered_store "c1" "attempt.init" stored_store-Inv
      refl refl refl refl

abbrev one_taken : Leases
one_taken = set_lease 2 (some "b") (λ p. none)

acquire-AllOrNothing_example :
    AllOrNothing "a"
      (λ q. member q (1 ∷ 2 ∷ []))
      one_taken
      (acquire_partition_leases "a" (1 ∷ 2 ∷ []) one_taken)
acquire-AllOrNothing_example = acquire-AllOrNothing "a" (1 ∷ 2 ∷ []) one_taken

readiness_iff_run : (member 1 (readiness 3 one_taken).1 ≡ true) ↔ ((1 < 3) × (one_taken 1 ≡ none))
readiness_iff_run = readiness_iff 3 one_taken 1
