-- ===== src/Aggregation/Lookup.antt =====
-- Reading a map that was made of a list with distinct keys.
use agent_benchmark.Common.{
  String, ◌≡◌, refl, ap, ◌∙◌, true, false, ◌==◌, Option, none, some, List, [], ◌∷◌, map,
  Option-cases, inl, inr, find, contains, is_unique, arith, eq_iff, Map, get, put, keys, of_entries,
  get-put,
}
use agent_benchmark.Aggregation.Session.{collect, chain}

-- `first ?? later`
abbrev pub either {ℓ} : {A : Type ℓ} → Option A → Option A → Option A
either none later = later
either (some v) later = some v

either-none {ℓ} : {A : Type ℓ} (o : Option A) → either o none ≡ o
either-none none = refl
either-none (some v) = refl

get-absent {ℓ} :
    {V : Type ℓ} (k : String) (es : Map V) → contains k (keys es) ≡ false → get k es ≡ none
unfolding get
get-absent k [] h = refl
get-absent k ((j, v) ∷ es) h = ground (arith, get-absent k es, h)

get-of_entries {ℓ} :
    {V : Type ℓ} (k : String) (es m : Map V)
    → is_unique (keys es) ≡ true
    → get k (of_entries es m) ≡ either (get k es) (get k m)
unfolding of_entries get
get-of_entries k [] m h = refl
get-of_entries k ((j, v) ∷ es) m h =
    ground (arith, get-of_entries k es (put j v m), get-put j k v m, get-absent k es, eq_iff j k)

get-map {ℓ κ} :
    {A : Type ℓ} {B : Type κ} (k : String) (key : A → String) (f : A → B) (xs : List A)
    → get k (map (λ x. (key x, f x)) xs) ≡ chain (find (λ x. key x == k) xs) (λ x. some (f x))
unfolding get
get-map k key f [] = refl
get-map k key f (x ∷ xs) = ground (arith, get-map k key f xs)

-- A list of values that `f` makes, each under the key of what it is made of.
module _ {ℓ κ} {A : Type ℓ} {B : Type κ} (key : A → String) (f : A → Option B) (name : B → String)
    (keyed : (x : A) (b : B) → f x ≡ some b → name b ≡ key x) where
  pub contains-collect :
      (k : String) (xs : List A)
      → contains k (map name (collect f xs)) ≡ true
      → contains k (map key xs) ≡ true
  unfolding collect
  contains-collect k [] h = h
  contains-collect k (x ∷ xs) h = elim (Option-cases (f x)) [
    | inl e ↦ ground (arith, contains-collect k xs, h, e)
    | inr (b, e) ↦ ground (arith, contains-collect k xs, h, e, keyed x b e)
  ]

  pub collect-is_unique :
      (xs : List A) → is_unique (map key xs) ≡ true → is_unique (map name (collect f xs)) ≡ true
  unfolding collect
  collect-is_unique [] h = refl
  collect-is_unique (x ∷ xs) h = elim (Option-cases (f x)) [
    | inl e ↦ ground (arith, collect-is_unique xs, h, e)
    | inr (b, e) ↦
        ground (arith, collect-is_unique xs, h, e, keyed x b e, contains-collect (key x) xs)
  ]

  find-absent :
      (k : String) (xs : List A)
      → contains k (map key xs) ≡ false
      → find (λ x. key x == k) xs ≡ none
  find-absent k [] h = refl
  find-absent k (x ∷ xs) h = ground (arith, find-absent k xs, h)

  get-collect :
      (k : String) (xs : List A)
      → is_unique (map key xs) ≡ true
      → get k (map (λ b. (name b, b)) (collect f xs)) ≡ chain (find (λ x. key x == k) xs) f
  unfolding collect get
  get-collect k [] h = refl
  get-collect k (x ∷ xs) h = elim (Option-cases (f x)) [
    | inl e ↦ ground (arith, get-collect k xs, h, e, eq_iff (key x) k, find-absent k xs)
    | inr (b, e) ↦ ground (arith, get-collect k xs, h, e, keyed x b e)
  ]

  keys-named : (bs : List B) → keys (map (λ b. (name b, b)) bs) ≡ map name bs
  keys-named [] = refl
  keys-named (b ∷ bs) = ap (λ ns. name b ∷ ns) (keys-named bs)

  -- The map of the values finds what `f` makes of the element with the key.
  pub get-of_collect :
      (k : String) (xs : List A)
      → is_unique (map key xs) ≡ true
      → get k (of_entries (map (λ b. (name b, b)) (collect f xs)) [])
        ≡ chain (find (λ x. key x == k) xs) f
  unfolding get
  get-of_collect k xs h =
      let es = map (λ b. (name b, b)) (collect f xs) in
      get-of_entries k es [] (rw (keys-named (collect f xs)) (collect-is_unique xs h))
      ∙ (either-none _ ∙ get-collect k xs h)
