-- ===== src/Common/Lists.antt =====
-- Arrays: `length`, `find`, `filter`, `some`, `every` and `includes`, and predicates over lists.
use Prim.Native.Nat.{ℕ, suc, ◌+◌, ◌≤◌}
use Prim.Native.String.{String}
use mathlib.Core.Path.{◌≡◌, refl, ap}
use mathlib.Core.Logic.{◌↔◌}
use mathlib.Core.Bool.{Bool, true, false, ◌&&◌, ◌||◌}
use mathlib.Core.Option.{Option, none, some}
use mathlib.Core.List.{List, [], ◌∷◌, ◌++◌, map}
use native.Mathlib.Omega.{arith}
use text.Mathlib.Text.{◌==◌}
use text.Mathlib.TextEquality.{eq_iff}
use agent_benchmark.Common.Tests.{if◌then◌else◌}

module _ {ℓ} {A : Type ℓ} where
  abbrev pub length : List A → ℕ
  length [] = 0
  length (x ∷ xs) = suc (length xs)

  abbrev pub find : (A → Bool) → List A → Option A
  find p [] = none
  find p (x ∷ xs) = if p x then some x else find p xs

  abbrev pub filter : (A → Bool) → List A → List A
  filter p [] = []
  filter p (x ∷ xs) = if p x then x ∷ filter p xs else filter p xs

  -- `xs.some(p)`
  abbrev pub any : (A → Bool) → List A → Bool
  any p [] = false
  any p (x ∷ xs) = p x || any p xs

  -- `xs.every(p)`
  abbrev pub all : (A → Bool) → List A → Bool
  all p [] = true
  all p (x ∷ xs) = p x && all p xs

  abbrev pub is_empty : List A → Bool
  is_empty [] = true
  is_empty (x ∷ xs) = false

  pub length-append : (xs ys : List A) → length (xs ++ ys) ≡ length xs + length ys
  length-append [] ys = omega arith
  length-append (x ∷ xs) ys = omega (arith, length-append xs ys)

  pub length-filter-le : (p : A → Bool) (xs : List A) → length (filter p xs) ≤ length xs
  length-filter-le p [] = omega arith
  length-filter-le p (x ∷ xs) = ground (arith, length-filter-le p xs)

-- An element that fails the test leaves no trace.
pub filter-skip {ℓ} :
    {A : Type ℓ} (p : A → Bool) (xs ys : List A) (x : A)
    → p x ≡ false
    → filter p (xs ++ x ∷ ys) ≡ filter p (xs ++ ys)
filter-skip p [] ys x h = rw h
filter-skip p (z ∷ xs) ys x h = ground (arith, filter-skip p xs ys x h)

pub length-map {ℓ κ} :
    {A : Type ℓ} {B : Type κ} (xs : List A) (f : A → B) → length (map f xs) ≡ length xs
length-map [] f = refl
length-map (x ∷ xs) f = ap suc (length-map xs f)

-- `xs.includes(x)`
abbrev pub contains : String → List String → Bool
contains x [] = false
contains x (y ∷ ys) = y == x || contains x ys

-- `new Set(xs).size === xs.length`
abbrev pub is_unique : List String → Bool
is_unique [] = true
is_unique (x ∷ xs) = if contains x xs then false else is_unique xs

module _ {ℓ κ} {A : Type ℓ} (P : A → Type κ) where
  abbrev pub All : List A → Type κ
  All [] = Unit
  All (x ∷ xs) = P x × All xs

  pub All-append : (xs ys : List A) → All xs → All ys → All (xs ++ ys)
  All-append [] ys _ k = k
  All-append (x ∷ xs) ys (p, h) k = (p, All-append xs ys h k)

  pub All-filter : (p : A → Bool) (xs : List A) → All xs → All (filter p xs)
  All-filter p [] _ = tt
  All-filter p (x ∷ xs) (q, h) = ground (arith, All-filter p xs h)

  pub All-find : (p : A → Bool) (xs : List A) (x : A) → All xs → find p xs ≡ some x → P x
  All-find p [] x _ e = cc
  All-find p (y ∷ ys) x (q, h) e = ground (arith, All-find p ys x h)

pub All-iff {ℓ κ} :
    {A : Type ℓ} {P Q : A → Type κ} (xs : List A) → ((x : A) → P x ↔ Q x) → All P xs ↔ All Q xs
All-iff [] h = (λ _. tt, λ _. tt)
All-iff (x ∷ xs) h =
    (λ (p, ps). ((h x).0 p, (All-iff xs h).0 ps), λ (q, qs). ((h x).1 q, (All-iff xs h).1 qs))

pub All-imp {ℓ κ} :
    {A : Type ℓ} {P Q : A → Type κ} → ((x : A) → P x → Q x) → (xs : List A) → All P xs → All Q xs
All-imp h [] _ = tt
All-imp h (x ∷ xs) (p, ps) = (h x p, All-imp h xs ps)

pub All-map {ℓ κ} :
    {A B : Type ℓ} (P : B → Type κ) (f : A → B) (xs : List A)
    → All P (map f xs) ↔ All (λ x. P (f x)) xs
All-map P f [] = (λ _. tt, λ _. tt)
All-map P f (x ∷ xs) =
    (λ (p, ps). (p, (All-map P f xs).0 ps), λ (p, ps). (p, (All-map P f xs).1 ps))

-- What `find` returns passes the test.
pub find-passes {ℓ} :
    {A : Type ℓ} (p : A → Bool) (xs : List A) (x : A) → find p xs ≡ some x → p x ≡ true
find-passes p [] x e = cc
find-passes p (y ∷ ys) x e = ground (arith, find-passes p ys x)

pub find-none {ℓ} :
    {A : Type ℓ} (p : A → Bool) (xs : List A) → find p xs ≡ none → All (λ x. p x ≡ false) xs
find-none p [] e = tt
find-none p (y ∷ ys) e = ground (arith, find-none p ys)

pub all→All {ℓ} :
    {A : Type ℓ} (p : A → Bool) (xs : List A) → all p xs ≡ true → All (λ x. p x ≡ true) xs
all→All p [] e = tt
all→All p (y ∷ ys) e = ground (arith, all→All p ys)

pub All→all {ℓ} :
    {A : Type ℓ} (p : A → Bool) (xs : List A) → All (λ x. p x ≡ true) xs → all p xs ≡ true
All→all p [] _ = refl
All→all p (y ∷ ys) (q, h) = ground (arith, All→all p ys h)

pub contains-append :
    (x : String) (xs ys : List String) → contains x (xs ++ ys) ≡ (contains x xs || contains x ys)
contains-append x [] ys = refl
contains-append x (y ∷ xs) ys = ground (arith, contains-append x xs ys)

pub contains-append_self : (x : String) (xs : List String) → contains x (xs ++ x ∷ []) ≡ true
contains-append_self x xs = ground (arith, contains-append x xs (x ∷ []), eq_iff x x)

-- A new element at the end keeps the elements distinct.
pub is_unique-append_new :
    (x : String) (xs : List String)
    → is_unique xs ≡ true
    → contains x xs ≡ false
    → is_unique (xs ++ x ∷ []) ≡ true
is_unique-append_new x [] h k = refl
is_unique-append_new x (y ∷ xs) h k =
    ground (arith, contains-append y xs (x ∷ []), eq_iff x y, eq_iff y x, is_unique-append_new x xs)

-- Every element of the first list is one of the second.
abbrev pub Subset : List String → List String → Type 0
Subset xs ys = All (λ x. contains x ys ≡ true) xs

pub Subset-append : (xs ys zs : List String) → Subset xs ys → Subset xs (ys ++ zs)
Subset-append [] ys zs _ = tt
Subset-append (x ∷ xs) ys zs (p, h) =
    (ground (arith, contains-append x ys zs), Subset-append xs ys zs h)

pub not-contains_of_Subset :
    (x : String) (xs ys : List String)
    → Subset xs ys
    → contains x ys ≡ false
    → contains x xs ≡ false
not-contains_of_Subset x [] ys _ k = refl
not-contains_of_Subset x (y ∷ xs) ys (p, h) k =
    ground (arith, eq_iff y x, not-contains_of_Subset x xs ys h k)

pub contains_of_Subset :
    (x : String) (xs ys : List String) → Subset xs ys → contains x xs ≡ true → contains x ys ≡ true
contains_of_Subset x [] ys _ k = cc
contains_of_Subset x (y ∷ xs) ys (p, h) k = ground (arith, eq_iff y x, contains_of_Subset x xs ys h)

-- The list without one element.
remove_one : String → List String → List String
remove_one x [] = []
remove_one x (y ∷ ys) = if y == x then ys else y ∷ remove_one x ys

length-remove_one :
    (x : String) (ys : List String)
    → contains x ys ≡ true
    → length (remove_one x ys) + 1 ≡ length ys
unfolding remove_one
length-remove_one x [] h = cc
length-remove_one x (y ∷ ys) h = ground (arith, length-remove_one x ys)

contains-remove_one :
    (x z : String) (ys : List String)
    → contains z ys ≡ true
    → (x == z) ≡ false
    → contains z (remove_one x ys) ≡ true
unfolding remove_one
contains-remove_one x z [] h k = cc
contains-remove_one x z (y ∷ ys) h k =
    ground (arith, eq_iff y x, eq_iff y z, eq_iff x z, contains-remove_one x z ys)

Subset-remove_one :
    (x : String) (xs ys : List String)
    → Subset xs ys
    → contains x xs ≡ false
    → Subset xs (remove_one x ys)
Subset-remove_one x [] ys _ k = tt
Subset-remove_one x (z ∷ xs) ys (p, h) k =
    ground
      (arith, eq_iff z x, eq_iff x z, contains-remove_one x z ys p, Subset-remove_one x xs ys h)

-- Distinct elements of a list are no more than the list has.
pub length-le_of_Subset :
    (xs ys : List String) → is_unique xs ≡ true → Subset xs ys → length xs ≤ length ys
length-le_of_Subset [] ys u _ = omega arith
length-le_of_Subset (x ∷ xs) ys u (p, h) = ground (
  arith,
  length-remove_one x ys p,
  Subset-remove_one x xs ys h,
  length-le_of_Subset xs (remove_one x ys),
)

-- How often a string occurs.
abbrev pub count : String → List String → ℕ
count x [] = 0
count x (y ∷ ys) = if y == x then suc (count x ys) else count x ys

pub count-append : (x : String) (xs ys : List String) → count x (xs ++ ys) ≡ count x xs + count x ys
count-append x [] ys = omega arith
count-append x (z ∷ xs) ys = ground (arith, count-append x xs ys)
