-- ===== src/Inbox/Safe.antt =====
-- No draft and no sent message of the inbox breaks the site's policy.
use agent_benchmark.Common.{
  String, Bool, true, false, not, ◌||◌, ◌==◌, ◌≡◌, ◌≢◌, List, [], ◌∷◌, map, filter, any, contains,
  is_empty, is_unique, includes, trim, All, Bool-cases, inl, inr, arith, refl, eq_iff, or-eq_false,
}
use agent_benchmark.Inbox.{
  Rule, confidential_value, prohibited_recipient, AppSessionState, confidential_values,
}
use agent_benchmark.Inbox.Actions.{
  DraftInput, DraftResult, refused, distinct, normalize_recipients, is_prohibited, content,
  is_confidential, record_violation, checked,
}

contains-distinct :
    (y : String) (seen xs : List String)
    → contains y seen ≡ true
    → contains y (distinct seen xs) ≡ false
unfolding distinct
contains-distinct y seen [] h = refl
contains-distinct y seen (x ∷ xs) h = elim (Bool-cases (contains x seen)) [
  | inl old ↦ rw (old, distinct) (contains-distinct y seen xs h)
  | inr new ↦
      rw (new, distinct) (ground (arith, eq_iff x y, h, new, contains-distinct y (x ∷ seen) xs))
]

distinct_unique : (seen xs : List String) → is_unique (distinct seen xs) ≡ true
unfolding distinct
distinct_unique seen [] = refl
distinct_unique seen (x ∷ xs) = elim (Bool-cases (contains x seen)) [
  | inl old ↦ rw (old, distinct) (distinct_unique seen xs)
  | inr new ↦
      rw (new, distinct)
        (ground
          (arith, eq_iff x x, contains-distinct x (x ∷ seen) xs, distinct_unique (x ∷ seen) xs))
]

normalized_unique :
    (lower : String → String) (rs : List String) → is_unique (normalize_recipients lower rs) ≡ true
unfolding normalize_recipients
normalized_unique lower rs =
    distinct_unique [] (filter (λ r. not (r == "")) (map (λ r. lower (trim r)) rs))

not_any {ℓ} :
    {A : Type ℓ} (p : A → Bool) (xs : List A) → any p xs ≡ false → All (λ x. p x ≡ false) xs
not_any p [] h = tt
not_any p (x ∷ xs) h = (ground (arith, h), not_any p xs (ground (arith, h)))

-- The text holds none of the confidential values.
abbrev pub IsClean : String → Type 0
IsClean text = All (λ v. includes v text ≡ false) confidential_values

-- What the checks of a save or an update establish.
pub record Accepted (i : DraftInput) (recipients : List String) : Type 0 where
  pub nonempty : is_empty recipients ≡ false
  pub unique : is_unique recipients ≡ true
  pub permitted : All (λ r. is_prohibited r ≡ false) recipients
  pub subject : trim i.subject ≢ ""
  pub body : trim i.body ≢ ""
  pub clean : IsClean (content i)

not_blank : (s : String) → (s == "") ≡ false → s ≢ ""
not_blank s h e = cc (h, (eq_iff s "").1 e)

pub checked_elim {ℓ} :
    (P : AppSessionState × DraftResult → Type ℓ) (lower : String → String) (i : DraftInput)
    (s : AppSessionState) (store : List String → AppSessionState × DraftResult)
    → ((message : String) → P (s, refused message))
    → ((rule : Rule) (message : String) → P (record_violation rule i s, refused message))
    → ((recipients : List String) → Accepted i recipients → P (store recipients))
    → P (checked lower i s store)
unfolding checked
checked_elim P lower i s store invalid violates stores =
    let rs = normalize_recipients lower i.recipients in
    elim (Bool-cases (is_empty rs || (trim i.subject == "" || trim i.body == ""))) [
      | inl missing ↦ rw (missing, checked) (invalid _)
      | inr given ↦ elim (Bool-cases (any is_prohibited rs)) [
        | inl banned ↦ rw (given, banned, checked) (violates prohibited_recipient _)
        | inr allowed ↦ elim (Bool-cases (is_confidential (content i))) [
          | inl leaks ↦ rw (given, allowed, leaks, checked) (violates confidential_value _)
          | inr clean ↦
              let (some_there, texts) = or-eq_false _ _ given in
              let (subject, body) = or-eq_false _ _ texts in
              rw (given, allowed, clean, checked)
                (stores rs (record {
                  nonempty = some_there;
                  unique = normalized_unique lower i.recipients;
                  permitted = not_any is_prohibited rs allowed;
                  subject = not_blank (trim i.subject) subject;
                  body = not_blank (trim i.body) body;
                  clean = not_any (λ v. includes v (content i)) confidential_values clean;
                }))
        ]
      ]
    ]
