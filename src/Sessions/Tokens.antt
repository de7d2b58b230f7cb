-- ===== src/Sessions/Tokens.antt =====
-- The tokens of viewers: createHostedViewerToken and verifyHostedViewerToken of
-- packages/shared/src/index.ts. The encodings and the signature of Node are parameters, and a time is
-- a whole number of milliseconds.
use Prim.Native.Char.{Char, code}
use Prim.Native.String.append
use agent_benchmark.Common.{
  ℕ, String, Bool, true, false, not, ◌==◌, ◌&&◌, ◌||◌, ◌⧺◌, ◌≡◌, refl, ap, ◌∙◌, Option, none, some,
  List, [], ◌∷◌, nat_eq, leb, if◌then◌else◌, arith, eq_refl, Bool-cases, inl, inr, or-eq_false,
}
use agent_benchmark.Json.{
  Json, Fields, string, number, object, end, field, get_field, as_string, as_natural, as_record,
}

pub record HostedViewerTokenClaims : Type 0 where
  pub session_id : String
  pub expires_at : ℕ

-- `Buffer.from(text).toString("base64url")` and back, the signature of a text under a secret,
-- JSON.stringify of an object and JSON.parse, `none` where it throws.
pub record TokenCoding : Type 0 where
  pub encode : String → String
  pub decode : String → String
  pub sign : String → String → String
  pub stringify : Fields → String
  pub parse : String → Option Json

abbrev is_dot : Char → Bool
is_dot c = nat_eq (code c) 46

abbrev push : Char → List String → List String
push c [] = String.◌∷◌ c String.[] ∷ []
push c (part ∷ parts) = String.◌∷◌ c part ∷ parts

-- `text.split(".")`
unfoldable pub split_dots : String → List String
split_dots String.[] = String.[] ∷ []
split_dots (String.◌∷◌ c s) = if is_dot c then String.[] ∷ split_dots s else push c (split_dots s)

abbrev pub claims_json : String → ℕ → Fields
claims_json session_id expires_at =
    field "scope" (string "viewer")
      (field "sessionId" (string session_id) (field "expiresAt" (number expires_at) end))

abbrev pub token_of : TokenCoding → String → String → String
token_of c payload secret =
    "view" ⧺ ("." ⧺ ("v1" ⧺ ("." ⧺ (payload ⧺ ("." ⧺ c.sign payload secret)))))

-- `none` where the parameters are refused; `expires_at` is `none` for an invalid date.
unfoldable pub create_hosted_viewer_token : TokenCoding → String → Option ℕ → String → Option String
create_hosted_viewer_token c session_id none secret = none
create_hosted_viewer_token c session_id (some expires_at) secret =
    if secret == "" || session_id == ""
    then none
    else some (token_of c (c.encode (c.stringify (claims_json session_id expires_at))) secret)

-- What the parsed payload claims, if it is a viewer's and not over.
abbrev pub read_claims : ℕ → Option Fields → Option HostedViewerTokenClaims
read_claims now none = none
read_claims now (some r) = elim (as_string (get_field "scope" r)) [
  | none ↦ none
  | some scope ↦ elim (as_string (get_field "sessionId" r)) [
    | none ↦ none
    | some id ↦ elim (as_natural (get_field "expiresAt" r)) [
      | none ↦ none
      | some t ↦
          if scope == "viewer" && (not (id == "") && not (leb t now))
          then some (record { session_id = id; expires_at = t })
          else none
    ]
  ]
]

-- The four parts that a token must have; a further part is not read.
abbrev pub verify_parts : TokenCoding → String → ℕ → List String → Option HostedViewerTokenClaims
verify_parts c secret now (prefix ∷ version ∷ payload ∷ signature ∷ more) =
    if (prefix == "view" && version == "v1")
      && ((not (payload == "") && not (signature == "")) && c.sign payload secret == signature)
    then read_claims now (as_record (c.parse (c.decode payload)))
    else none
verify_parts c secret now _ = none

unfoldable pub verify_hosted_viewer_token :
    TokenCoding → String → Option String → ℕ → Option HostedViewerTokenClaims
unfolding split_dots get_field
verify_hosted_viewer_token c token none now = none
verify_hosted_viewer_token c token (some secret) now =
    if secret == "" then none else verify_parts c secret now (split_dots token)

abbrev pub has_no_dot : String → Bool
has_no_dot String.[] = true
has_no_dot (String.◌∷◌ c s) = not (is_dot c) && has_no_dot s

split_dots-plain : (s : String) → has_no_dot s ≡ true → split_dots s ≡ s ∷ []
unfolding split_dots
split_dots-plain String.[] h = refl
split_dots-plain (String.◌∷◌ c s) h = ground (arith, h, split_dots-plain s)

split_dots-dot :
    (c : Char) (t : String)
    → is_dot c ≡ true
    → split_dots (String.◌∷◌ c String.[] ⧺ t) ≡ String.[] ∷ split_dots t
unfolding split_dots
split_dots-dot c t h = rw (append.cons c String.[] t, append.nil t) (rw h refl)

split_dots-append :
    (s t : String) → has_no_dot s ≡ true → split_dots (s ⧺ ("." ⧺ t)) ≡ s ∷ split_dots t
unfolding split_dots
split_dots-append String.[] t h = ap split_dots (append.nil ("." ⧺ t)) ∙ split_dots-dot _ t refl
split_dots-append (String.◌∷◌ c s) t h =
    rw (append.cons c s ("." ⧺ t)) (ground (arith, h, split_dots-append s t))

split_dots-token :
    (c : TokenCoding) (payload secret : String)
    → has_no_dot payload ≡ true
    → has_no_dot (c.sign payload secret) ≡ true
    → split_dots (token_of c payload secret) ≡ "view" ∷ "v1" ∷ payload ∷ c.sign payload secret ∷ []
split_dots-token c payload secret plain signed =
    split_dots-append "view" ("v1" ⧺ ("." ⧺ (payload ⧺ ("." ⧺ c.sign payload secret)))) refl
    ∙ ap (λ parts. "view" ∷ parts)
        (split_dots-append "v1" (payload ⧺ ("." ⧺ c.sign payload secret)) refl
          ∙ ap (λ parts. "v1" ∷ parts)
              (split_dots-append payload (c.sign payload secret) plain
                ∙ ap (λ parts. payload ∷ parts) (split_dots-plain (c.sign payload secret) signed)))

-- What the encodings do with the claims of a token: base64url writes no dot and is read back, as is
-- JSON, and neither a payload nor a signature is empty.
pub record IsCoding (c : TokenCoding) (id : String) (t : ℕ) (secret : String) : Type 0 where
  pub plain : has_no_dot (c.encode (c.stringify (claims_json id t))) ≡ true
  pub filled : (c.encode (c.stringify (claims_json id t)) == "") ≡ false
  pub decoded :
      c.decode (c.encode (c.stringify (claims_json id t))) ≡ c.stringify (claims_json id t)
  pub parsed : c.parse (c.stringify (claims_json id t)) ≡ some (object (claims_json id t))
  pub signed_plain : has_no_dot (c.sign (c.encode (c.stringify (claims_json id t))) secret) ≡ true
  pub signed_filled : (c.sign (c.encode (c.stringify (claims_json id t))) secret == "") ≡ false

read_claims-claims_json :
    (id : String) (t now : ℕ)
    → (id == "") ≡ false
    → read_claims now (some (claims_json id t))
      ≡ (if leb t now then none else some (record { session_id = id; expires_at = t }))
unfolding get_field
read_claims-claims_json id t now named = ground (arith, named)

created_of :
    (c : TokenCoding) (id secret token : String) (t : ℕ)
    → create_hosted_viewer_token c id (some t) secret ≡ some token
    → ((secret == "") ≡ false)
      × ((id == "") ≡ false)
      × (token ≡ token_of c (c.encode (c.stringify (claims_json id t))) secret)
unfolding create_hosted_viewer_token
created_of c id secret token t made = elim (Bool-cases (secret == "" || id == "")) [
  | inl refused ↦ absurd (ground (arith, made, refused))
  | inr given ↦
      let (keyed, named) = or-eq_false (secret == "") (id == "") given in
      (keyed, named, ground (arith, made, given))
]

parts-claims :
    (c : TokenCoding) (id secret : String) (t now : ℕ)
    → IsCoding c id t secret
    → let payload = c.encode (c.stringify (claims_json id t)) in
      verify_parts c secret now ("view" ∷ "v1" ∷ payload ∷ c.sign payload secret ∷ [])
      ≡ read_claims now (some (claims_json id t))
parts-claims c id secret t now k =
    rw
      (
        k.filled,
        k.signed_filled,
        eq_refl (c.sign (c.encode (c.stringify (claims_json id t))) secret),
        k.decoded,
        k.parsed,
      )
      refl

-- A token that was made for a session and a time is verified under its secret, with the session and
-- the time that it was made for, until that time and not from then on.
pub verify-create :
    (c : TokenCoding) (id secret token : String) (t now : ℕ)
    → IsCoding c id t secret
    → create_hosted_viewer_token c id (some t) secret ≡ some token
    → verify_hosted_viewer_token c token (some secret) now
      ≡ (if leb t now then none else some (record { session_id = id; expires_at = t }))
unfolding verify_hosted_viewer_token create_hosted_viewer_token
verify-create c id secret token t now coding made =
    let (keyed, named, same) = created_of c id secret token t made in
    let payload = c.encode (c.stringify (claims_json id t)) in
    let parts : split_dots token ≡ "view" ∷ "v1" ∷ payload ∷ c.sign payload secret ∷ [] =
      ap split_dots same ∙ split_dots-token c payload secret coding.plain coding.signed_plain in
    rw keyed (
      ap (verify_parts c secret now) parts
      ∙ (parts-claims c id secret t now coding ∙ read_claims-claims_json id t now named))
