-- ===== src/DeadLetters/Tests.antt =====
-- Redaction and pruning at concrete values.
use Prim.Native.Nat.{ℕ, min}
use agent_benchmark.Json.{Json}
use agent_benchmark.DeadLetters.{
  redact_command_payload, prune_command_dead_letters, object, redact, field, is_sensitive_key,
  string, normalized_key, number, end, compact_command_payload, truncated_payload, top_level_keys,
}
use agent_benchmark.DeadLetters.Redaction.{IsStored, payload-IsStored}
use agent_benchmark.Common.{ℕ, ◌≡◌, [], ◌∷◌, min, ◌-◌, ◌+◌, ◌*◌, arith, refl}
use agent_benchmark.DeadLetters.Pruning.{prune_deletes}

abbrev letter : Json
letter = object (
    field "Session-Token" (string "abc") (
      field "runId" (string "r1")
        (field "inner" (object (field "db_password" (number 1) end)) end)))

letter_redacted :
    redact_command_payload (λ s. s) letter
    ≡ object (field "runId" (string "r1") (field "inner" (object end) end))
unfolding redact_command_payload redact is_sensitive_key normalized_key
letter_redacted = refl

-- A length of 100 for every value.
compacted_run :
    compact_command_payload (λ s. s) (λ v. 100) 99 letter
    ≡ truncated_payload 100 ("runId" ∷ "inner" ∷ [])
unfolding compact_command_payload redact_command_payload redact is_sensitive_key normalized_key
    top_level_keys
compacted_run = refl

payload-IsStored_example :
    IsStored (λ s. s) (λ v. 100) 99 (compact_command_payload (λ s. s) (λ v. 100) 99 letter)
payload-IsStored_example = payload-IsStored (λ s. s) (λ v. 100) 99 letter

-- A table that is its number of stale rows.
abbrev prune_five : ℕ → ℕ × ℕ
prune_five n = (min 5 n, n - min 5 n)

prune_five_deletes :
    (n : ℕ) → ((prune_five n).0 ≡ min 5 n) × ((prune_five n).1 + (prune_five n).0 ≡ n)
prune_five_deletes n = ground arith

prune_deletes_run :
    let r = prune_command_dead_letters prune_five (record { batch_size = 5; max_batches = 3 }) 12 in
    (r.0 ≡ min (3 * 5) 12) × (r.1 + r.0 ≡ 12)
prune_deletes_run = prune_deletes prune_five (λ n. n) 5 prune_five_deletes 3 12
