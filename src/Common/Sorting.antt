-- ===== src/Common/Sorting.antt =====
-- `xs.sort(compare)`, which is stable: insertion by a Boolean order, and membership by recursion.
use Prim.Native.Nat.{ℕ, ◌≤◌}
use mathlib.Core.Path.{◌≡◌, refl}
use mathlib.Core.Logic.{◌⊎◌, inl, inr}
use mathlib.Core.Bool.{Bool, true, false}
use mathlib.Core.List.{List, [], ◌∷◌}
use native.Mathlib.Nat.{le_trans}
use agent_benchmark.Common.Tests.{if◌then◌else◌, Bool-cases}
use agent_benchmark.Common.Lists.{All, All-imp}

module _ {A : Type 0} where
  abbrev pub In : A → List A → Type 0
  In x [] = ⊥
  In x (y ∷ ys) = (x ≡ y) ⊎ In x ys

  -- Before the first element that it is to precede.
  unfoldable pub insert_by : (A → A → Bool) → A → List A → List A
  insert_by before x [] = x ∷ []
  insert_by before x (y ∷ ys) = if before x y then x ∷ (y ∷ ys) else y ∷ insert_by before x ys

  unfoldable pub sort_by : (A → A → Bool) → List A → List A
  unfolding insert_by
  sort_by before [] = []
  sort_by before (x ∷ xs) = insert_by before x (sort_by before xs)

  pub All-In {κ} : (P : A → Type κ) (xs : List A) (x : A) → All P xs → In x xs → P x
  All-In P [] x _ m = absurd m
  All-In P (y ∷ ys) x (p, ps) (inl e) = rw e p
  All-In P (y ∷ ys) x (p, ps) (inr m) = All-In P ys x ps m

  pub In-All {κ} : (P : A → Type κ) (xs : List A) → ((x : A) → In x xs → P x) → All P xs
  In-All P [] h = tt
  In-All P (x ∷ xs) h = (h x (inl refl), In-All P xs (λ y m. h y (inr m)))

  pub In-insert :
      (before : A → A → Bool) (x y : A) (ys : List A) → In y (x ∷ ys) → In y (insert_by before x ys)
  unfolding insert_by
  In-insert before x y [] m = m
  In-insert before x y (z ∷ zs) m =
      placed (before x z) (insert_by before x zs) m (λ n. In-insert before x y zs n)
    where
      placed :
          (b : Bool) (rest : List A)
          → In y (x ∷ (z ∷ zs))
          → (In y (x ∷ zs) → In y rest)
          → In y (if b then x ∷ (z ∷ zs) else z ∷ rest)
      placed true rest n ih = n
      placed false rest (inl e) ih = inr (ih (inl e))
      placed false rest (inr (inl e)) ih = inl e
      placed false rest (inr (inr q)) ih = inr (ih (inr q))

  pub In-of_insert :
      (before : A → A → Bool) (x y : A) (ys : List A) → In y (insert_by before x ys) → In y (x ∷ ys)
  unfolding insert_by
  In-of_insert before x y [] m = m
  In-of_insert before x y (z ∷ zs) m =
      found (before x z) (insert_by before x zs) m (λ n. In-of_insert before x y zs n)
    where
      found :
          (b : Bool) (rest : List A)
          → In y (if b then x ∷ (z ∷ zs) else z ∷ rest)
          → (In y rest → In y (x ∷ zs))
          → In y (x ∷ (z ∷ zs))
      found true rest n ih = n
      found false rest (inl e) ih = inr (inl e)
      found false rest (inr q) ih = under (ih q)
        where
          under : In y (x ∷ zs) → In y (x ∷ (z ∷ zs))
          under (inl e) = inl e
          under (inr r) = inr (inr r)

  pub In-sort : (before : A → A → Bool) (y : A) (xs : List A) → In y xs → In y (sort_by before xs)
  unfolding sort_by
  In-sort before y [] m = m
  In-sort before y (x ∷ xs) (inl e) = In-insert before x y (sort_by before xs) (inl e)
  In-sort before y (x ∷ xs) (inr m) =
      In-insert before x y (sort_by before xs) (inr (In-sort before y xs m))

  pub In-of_sort :
      (before : A → A → Bool) (y : A) (xs : List A) → In y (sort_by before xs) → In y xs
  unfolding sort_by
  In-of_sort before y [] m = m
  In-of_sort before y (x ∷ xs) m =
      under (λ q. In-of_sort before y xs q) (In-of_insert before x y (sort_by before xs) m)
    where
      under : (In y (sort_by before xs) → In y xs) → In y (x ∷ sort_by before xs) → In y (x ∷ xs)
      under ih (inl e) = inl e
      under ih (inr q) = inr (ih q)

  -- Each element's key is at most those of the elements after it.
  abbrev pub Ascends : (A → ℕ) → List A → Type 0
  Ascends key [] = Unit
  Ascends key (x ∷ xs) = All (λ y. key x ≤ key y) xs × Ascends key xs

  pub insert-Ascends :
      (before : A → A → Bool) (key : A → ℕ)
      → ((a b : A) → before a b ≡ true → key a ≤ key b)
      → ((a b : A) → before a b ≡ false → key b ≤ key a)
      → (x : A) (ys : List A) → Ascends key ys
      → Ascends key (insert_by before x ys)
  unfolding insert_by
  insert-Ascends before key low high x [] s = (tt, tt)
  insert-Ascends before key low high x (y ∷ ys) (p, s) = elim (Bool-cases (before x y)) [
    | inl first ↦
        rw (first, insert_by)
          ((low x y first, All-imp (λ z q. le_trans (low x y first) q) ys p), (p, s))
    | inr later ↦
        rw (later, insert_by)
          (
            In-All (λ z. key y ≤ key z) (insert_by before x ys)
                (λ z m.
                  All-In (λ z. key y ≤ key z) (x ∷ ys) z (high x y later, p)
                    (In-of_insert before x z ys m)),
            insert-Ascends before key low high x ys s,
          )
  ]

  pub sort-Ascends :
      (before : A → A → Bool) (key : A → ℕ)
      → ((a b : A) → before a b ≡ true → key a ≤ key b)
      → ((a b : A) → before a b ≡ false → key b ≤ key a)
      → (xs : List A) → Ascends key (sort_by before xs)
  unfolding sort_by
  sort-Ascends before key low high [] = tt
  sort-Ascends before key low high (x ∷ xs) =
      insert-Ascends before key low high x (sort_by before xs) (sort-Ascends before key low high xs)
