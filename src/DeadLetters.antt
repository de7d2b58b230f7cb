-- ===== src/DeadLetters.antt =====
-- Dead letters of commands: apps/hosted-orchestrator/src/command-dead-letter.ts. Keys are compared
-- by their character codes. `redactCommandErrorMessage` replaces by regular expressions; it is a
-- parameter here, and so are the length of a value's JSON text and the table that `prune` deletes
-- from.
use Prim.Native.Char.{code}
use agent_benchmark.Common.{
  zero, suc, String, ℕ, List, [], Bool, if◌then◌else◌, map, ◌∷◌, ◌+◌, leb, ◌||◌, filter, true, any,
  ltb, ◌&&◌, nat_eq, false,
}
pub mod Redaction
pub mod Pruning
mod Tests
use agent_benchmark.Json.{
  Json, string, bool, number, other_number, array, object, strings, Items, cons, Fields, field,
  null, nil, end,
}

abbrev pub codes : String → List ℕ
codes String.[] = []
codes (String.◌∷◌ c s) = code c ∷ codes s

abbrev between : ℕ → ℕ → ℕ → Bool
between a b c = leb a c && leb c b

abbrev pub is_alphanumeric : ℕ → Bool
is_alphanumeric c = between b'a' b'z' c || between b'A' b'Z' c || between b'0' b'9' c

abbrev pub to_lower : ℕ → ℕ
to_lower c = if between b'A' b'Z' c then c + 32 else c

unfoldable pub normalized_key : String → List ℕ
normalized_key key = map to_lower (filter is_alphanumeric (codes key))

abbrev pub same_codes : List ℕ → List ℕ → Bool
same_codes [] [] = true
same_codes (c ∷ cs) (d ∷ ds) = nat_eq c d && same_codes cs ds
same_codes _ _ = false

-- `text.endsWith(suffix)`
abbrev pub ends_with : List ℕ → List ℕ → Bool
ends_with suffix [] = same_codes [] suffix
ends_with suffix (c ∷ cs) = same_codes (c ∷ cs) suffix || ends_with suffix cs

abbrev pub known_sensitive_keys : List String
known_sensitive_keys =
    "apikey" ∷ "authorization" ∷ "callbacksecret" ∷ "cookie" ∷ "password" ∷ "servicerolekey"
    ∷ "sharedsecret" ∷ "sessiontoken" ∷ "token" ∷ "writetoken" ∷ []

unfoldable pub is_sensitive_key : String → Bool
unfolding normalized_key
is_sensitive_key key =
    let normalized = normalized_key key in
    any (λ k. same_codes (codes k) normalized) known_sensitive_keys
    || ends_with (codes "secret") normalized
    || ends_with (codes "password") normalized
    || ends_with (codes "token") normalized

-- `redactCommandPayload`; the natural is `20 - depth`, the levels that are left.
unfoldable mutual
  pub redact : (String → String) → ℕ → Json → Json
  redact text zero v = string "[REDACTED:MAX_DEPTH]"
  redact text (suc n) null = null
  redact text (suc n) (bool b) = bool b
  redact text (suc n) (number k) = number k
  redact text (suc n) (other_number s) = other_number s
  redact text (suc n) (string s) = string (text s)
  redact text (suc n) (array vs) = array (redact_items text n vs)
  redact text (suc n) (object fs) = object (redact_fields text n fs)

  pub redact_items : (String → String) → ℕ → Items → Items
  redact_items text n nil = nil
  redact_items text n (cons v vs) = cons (redact text n v) (redact_items text n vs)

  pub redact_fields : (String → String) → ℕ → Fields → Fields
  redact_fields text n end = end
  redact_fields text n (field k v fs) =
      let rest = redact_fields text n fs in
      if is_sensitive_key k then rest else field k (redact text n v) rest

unfoldable pub redact_command_payload : (String → String) → Json → Json
unfolding redact
redact_command_payload text value = redact text 20 value

-- `Object.keys`, in the order of the fields; JavaScript puts the keys that are array indexes first.
abbrev pub field_keys : Fields → List String
field_keys end = []
field_keys (field k v fs) = k ∷ field_keys fs

abbrev pub first_keys : ℕ → List String → List String
first_keys zero ks = []
first_keys (suc n) [] = []
first_keys (suc n) (k ∷ ks) = k ∷ first_keys n ks

unfoldable pub top_level_keys : Json → List String
top_level_keys (object fs) = first_keys 25 (field_keys fs)
top_level_keys _ = []

abbrev pub truncated_payload : ℕ → List String → Json
truncated_payload original_bytes keys = object (
    field "truncated" (bool true) (
      field "originalBytes" (number original_bytes)
        (field "topLevelKeys" (array (strings keys)) end)))

-- `compactCommandPayload`, whose result is stored. `byte_length` is the number of bytes of a value's
-- JSON text.
unfoldable pub compact_command_payload : (String → String) → (Json → ℕ) → ℕ → Json → Json
unfolding redact_command_payload top_level_keys
compact_command_payload text byte_length max_bytes value =
    let redacted = redact_command_payload text value in
    if leb (byte_length redacted) max_bytes
    then redacted
    else truncated_payload (byte_length redacted) (top_level_keys redacted)

pub record CommandDeadLetterRetention : Type 0 where
  pub batch_size : ℕ
  pub max_batches : ℕ

module _ {S : Type 0} (prune : S → ℕ × S) where
  -- The loop of `pruneCommandDeadLetters`: another batch only after a full one.
  unfoldable pub prune_batches : ℕ → ℕ → ℕ → S → ℕ × S
  prune_batches batch_size zero deleted s = (deleted, s)
  prune_batches batch_size (suc batches) deleted s =
      let (n, t) = prune s in
      let more = prune_batches batch_size batches (deleted + n) t in
      if ltb n batch_size then (deleted + n, t) else more

  unfoldable pub prune_command_dead_letters : CommandDeadLetterRetention → S → ℕ × S
  unfolding prune_batches
  prune_command_dead_letters r s = prune_batches r.batch_size r.max_batches 0 s
