-- ===== src/DeadLetters/Redaction.antt =====
-- What a redacted payload may hold, at every depth, and what is stored of it.
use Prim.Native.String.{String}
use agent_benchmark.Common.{
  String, ℕ, zero, suc, if◌then◌else◌, Bool, Bool-cases, inl, inr, ◌≡◌, ◌≢◌, refl, ap, true, false,
  List, [], ◌∷◌, ◌++◌, All, All-imp, any, arith, ◌||◌, leb, length, ◌≤◌, ◌<◌,
}
use agent_benchmark.DeadLetters.{
  redact, redact_command_payload, Json, is_sensitive_key, redact_items, redact_fields,
  normalized_key, codes, same_codes, ends_with, field_keys, first_keys, top_level_keys,
  truncated_payload, compact_command_payload,
}
use agent_benchmark.Json.{
  Json, Fields, string, bool, null, number, field, other_number, Items, array, object, nil, cons,
  end,
}

abbrev pub sensitive_names : List String
sensitive_names =
    "apikey" ∷ "authorization" ∷ "callbacksecret" ∷ "cookie" ∷ "password" ∷ "servicerolekey"
    ∷ "sharedsecret" ∷ "sessiontoken" ∷ "token" ∷ "writetoken" ∷ []

abbrev pub sensitive_endings : List String
sensitive_endings = "secret" ∷ "password" ∷ "token" ∷ []

-- The letters and digits of the key, in lower case, are none of the names, and whatever text comes
-- before it they have none of the endings.
pub record IsHarmless (k : String) : Type 0 where
  pub other_name : All (λ s. normalized_key k ≢ codes s) sensitive_names
  pub other_ending :
      All (λ s. (before : List ℕ) → normalized_key k ≢ before ++ codes s) sensitive_endings

same_codes_refl : (cs : List ℕ) → same_codes cs cs ≡ true
same_codes_refl [] = refl
same_codes_refl (c ∷ cs) = ground (arith, same_codes_refl cs)

ends_with_self : (suffix : List ℕ) → ends_with suffix suffix ≡ true
ends_with_self [] = refl
ends_with_self (c ∷ cs) = ground (arith, same_codes_refl cs)

ends_with-append : (before suffix : List ℕ) → ends_with suffix (before ++ suffix) ≡ true
ends_with-append [] suffix = ends_with_self suffix
ends_with-append (c ∷ before) suffix = ground (arith, ends_with-append before suffix)

any-none {ℓ} :
    {A : Type ℓ} (p : A → Bool) (xs : List A) → any p xs ≡ false → All (λ x. p x ≡ false) xs
any-none p [] h = tt
any-none p (x ∷ xs) h = (ground (arith, h), any-none p xs (ground (arith, h)))

no_name :
    (s : String) (normalized : List ℕ)
    → same_codes (codes s) normalized ≡ false
    → normalized ≢ codes s
no_name s normalized h e = absurd (cc (same_codes_refl (codes s), ap (same_codes (codes s)) e, h))

no_ending :
    (s : String) (normalized : List ℕ)
    → ends_with (codes s) normalized ≡ false
    → (before : List ℕ) → normalized ≢ before ++ codes s
no_ending s normalized h before e =
    absurd (cc (ends_with-append before (codes s), ap (ends_with (codes s)) e, h))

each_false :
    (a b c d : Bool)
    → (a || b || c || d) ≡ false
    → (a ≡ false) × (b ≡ false) × (c ≡ false) × (d ≡ false)
each_false a b c d h = ground arith

-- A key that passes the test of the code is harmless.
is_sensitive_key-IsHarmless : (k : String) → is_sensitive_key k ≡ false → IsHarmless k
unfolding is_sensitive_key
is_sensitive_key-IsHarmless k h =
    let n = normalized_key k in
    let (names, secret, password, token) =
      each_false (any (λ s. same_codes (codes s) n) sensitive_names) (ends_with (codes "secret") n)
        (ends_with (codes "password") n) (ends_with (codes "token") n) h in
    record {
      other_name =
          All-imp (λ s q. no_name s n q) sensitive_names
            (any-none (λ s. same_codes (codes s) n) sensitive_names names);
      other_ending = (
        no_ending "secret" n secret,
        (no_ending "password" n password, (no_ending "token" n token, tt)),
      );
    }

mutual
  pub data IsRedacted : (String → String) → ℕ → Json → Type 0 where
    too_deep : (text : String → String) → IsRedacted text zero (string "[REDACTED:MAX_DEPTH]")
    no_value : (text : String → String) (n : ℕ) → IsRedacted text (suc n) null
    truth : (text : String → String) (n : ℕ) (b : Bool) → IsRedacted text (suc n) (bool b)
    natural : (text : String → String) (n k : ℕ) → IsRedacted text (suc n) (number k)
    decimal :
        (text : String → String) (n : ℕ) (s : String) → IsRedacted text (suc n) (other_number s)
    message :
        (text : String → String) (n : ℕ) (s : String) → IsRedacted text (suc n) (string (text s))
    list :
        (text : String → String) (n : ℕ) (vs : Items)
        → AreRedacted text n vs
        → IsRedacted text (suc n) (array vs)
    entries :
        (text : String → String) (n : ℕ) (fs : Fields)
        → HaveRedacted text n fs
        → IsRedacted text (suc n) (object fs)

  pub data AreRedacted : (String → String) → ℕ → Items → Type 0 where
    none_left : (text : String → String) (n : ℕ) → AreRedacted text n nil
    and_next :
        (text : String → String) (n : ℕ) (v : Json) (vs : Items)
        → IsRedacted text n v
        → AreRedacted text n vs
        → AreRedacted text n (cons v vs)

  pub data HaveRedacted : (String → String) → ℕ → Fields → Type 0 where
    no_more : (text : String → String) (n : ℕ) → HaveRedacted text n end
    and_field :
        (text : String → String) (n : ℕ) (k : String) (v : Json) (fs : Fields)
        → IsHarmless k
        → IsRedacted text n v
        → HaveRedacted text n fs
        → HaveRedacted text n (field k v fs)

keep_or_drop :
    (text : String → String) (n : ℕ) (k : String) (v : Json) (fs : Fields)
    → IsRedacted text n v
    → HaveRedacted text n fs
    → HaveRedacted text n (if is_sensitive_key k then fs else field k v fs)
keep_or_drop text n k v fs h hs = elim (Bool-cases (is_sensitive_key k)) [
  | inl sensitive ↦ rw sensitive hs
  | inr harmless ↦
      rw harmless (and_field text n k v fs (is_sensitive_key-IsHarmless k harmless) h hs)
]

mutual
  unfolding redact

  redact-IsRedacted_at :
      (text : String → String) (n : ℕ) (v : Json) → IsRedacted text n (redact text n v)
  redact-IsRedacted_at text zero v = too_deep text
  redact-IsRedacted_at text (suc n) null = no_value text n
  redact-IsRedacted_at text (suc n) (bool b) = truth text n b
  redact-IsRedacted_at text (suc n) (number k) = natural text n k
  redact-IsRedacted_at text (suc n) (other_number s) = decimal text n s
  redact-IsRedacted_at text (suc n) (string s) = message text n s
  redact-IsRedacted_at text (suc n) (array vs) =
      list text n (redact_items text n vs) (items-AreRedacted text n vs)
  redact-IsRedacted_at text (suc n) (object fs) =
      entries text n (redact_fields text n fs) (fields-HaveRedacted text n fs)

  items-AreRedacted :
      (text : String → String) (n : ℕ) (vs : Items) → AreRedacted text n (redact_items text n vs)
  items-AreRedacted text n nil = none_left text n
  items-AreRedacted text n (cons v vs) =
      and_next text n (redact text n v) (redact_items text n vs) (redact-IsRedacted_at text n v)
        (items-AreRedacted text n vs)

  fields-HaveRedacted :
      (text : String → String) (n : ℕ) (fs : Fields) → HaveRedacted text n (redact_fields text n fs)
  fields-HaveRedacted text n end = no_more text n
  fields-HaveRedacted text n (field k v fs) =
      keep_or_drop text n k (redact text n v) (redact_fields text n fs)
        (redact-IsRedacted_at text n v) (fields-HaveRedacted text n fs)

fields-AllHarmless :
    (text : String → String) (n : ℕ) (fs : Fields)
    → HaveRedacted text n fs
    → All IsHarmless (field_keys fs)
fields-AllHarmless text n end h = tt
fields-AllHarmless text n (field k v fs) (and_field _ _ _ _ _ harmless _ hs) =
    (harmless, fields-AllHarmless text n fs hs)

first_keys-AllHarmless :
    (n : ℕ) (ks : List String)
    → All IsHarmless ks
    → All IsHarmless (first_keys n ks) × (length (first_keys n ks) ≤ n)
first_keys-AllHarmless zero ks h = (tt, omega arith)
first_keys-AllHarmless (suc n) [] h = (tt, omega arith)
first_keys-AllHarmless (suc n) (k ∷ ks) (p, h) =
    let (q, bound) = first_keys-AllHarmless n ks h in ((p, q), omega (arith, bound))

top_level_keys-AllHarmless :
    (text : String → String) (n : ℕ) (v : Json)
    → IsRedacted text n v
    → All IsHarmless (top_level_keys v) × (length (top_level_keys v) ≤ 25)
unfolding top_level_keys
top_level_keys-AllHarmless text zero v (too_deep _) = (tt, omega arith)
top_level_keys-AllHarmless text (suc n) null h = (tt, omega arith)
top_level_keys-AllHarmless text (suc n) (bool b) h = (tt, omega arith)
top_level_keys-AllHarmless text (suc n) (number k) h = (tt, omega arith)
top_level_keys-AllHarmless text (suc n) (other_number s) h = (tt, omega arith)
top_level_keys-AllHarmless text (suc n) (string s) h = (tt, omega arith)
top_level_keys-AllHarmless text (suc n) (array vs) h = (tt, omega arith)
top_level_keys-AllHarmless text (suc n) (object fs) (entries _ _ _ hs) =
    first_keys-AllHarmless 25 (field_keys fs) (fields-AllHarmless text n fs hs)

-- What may be stored: a redacted payload that fits, or the size of one that does not, with at most 25
-- harmless keys.
pub data IsStored : (String → String) → (Json → ℕ) → ℕ → Json → Type 0 where
  whole :
      (text : String → String) (byte_length : Json → ℕ) (max_bytes : ℕ) (v : Json)
      → IsRedacted text 20 v
      → byte_length v ≤ max_bytes
      → IsStored text byte_length max_bytes v
  shortened :
      (text : String → String) (byte_length : Json → ℕ) (max_bytes bytes : ℕ) (ks : List String)
      → All IsHarmless ks
      → length ks ≤ 25
      → max_bytes < bytes
      → IsStored text byte_length max_bytes (truncated_payload bytes ks)

-- What is stored of a payload is either the payload redacted, if it fits the bound: no field with a
-- sensitive key at any depth, at most twenty levels, and every text in it passed through the redaction
-- of messages; or its size with at most 25 keys, none of them sensitive. The keys are not passed
-- through the redaction of messages.
pub payload-IsStored :
    (text : String → String) (byte_length : Json → ℕ) (max_bytes : ℕ) (value : Json)
    → IsStored text byte_length max_bytes (compact_command_payload text byte_length max_bytes value)
unfolding compact_command_payload redact_command_payload
payload-IsStored text byte_length max_bytes value =
    let redacted = redact text 20 value in
    let safe = redact-IsRedacted_at text 20 value in
    let (harmless, few) = top_level_keys-AllHarmless text 20 redacted safe in
    elim (Bool-cases (leb (byte_length redacted) max_bytes)) [
      | inl fits ↦
          rw (fits, compact_command_payload)
            (whole text byte_length max_bytes redacted safe (ground (arith, fits)))
      | inr over ↦
          rw (over, compact_command_payload)
            (shortened text byte_length max_bytes (byte_length redacted) (top_level_keys redacted)
              harmless few (ground (arith, over)))
    ]
