-- ===== src/Common/Uniqueness.antt =====
-- Elements that are pairwise different, as against the test by the size of a set.
use Prim.Native.String.{String}
use mathlib.Core.Path.{◌≡◌, refl}
use mathlib.Core.Logic.{◌↔◌, ◌≢◌}
use mathlib.Core.Bool.{Bool, true, false}
use mathlib.Core.List.{List, [], ◌∷◌, ◌++◌}
use native.Mathlib.Omega.{arith}
use text.Mathlib.TextEquality.{eq_iff}
use agent_benchmark.Common.Lists.{contains, is_unique, All, any}

module _ {ℓ} {A : Type ℓ} where
  abbrev pub Distinct : List A → Type ℓ
  Distinct [] = Unit
  Distinct (x ∷ xs) = All (λ y. y ≢ x) xs × Distinct xs

  pub any_same_iff :
      (same : A → A → Bool)
      → ((a b : A) → (same a b ≡ true) ↔ (a ≡ b))
      → (x : A) (xs : List A) → (any (λ y. same y x) xs ≡ false) ↔ All (λ y. y ≢ x) xs
  any_same_iff same law x [] = (λ _. tt, λ _. refl)
  any_same_iff same law x (y ∷ ys) = (
    λ h. (λ e. cc ((law y x).1 e, h), (any_same_iff same law x ys).0 (ground (arith, h))),
    λ (p, ps). ground (arith, (any_same_iff same law x ys).1 ps, (law y x).0, p),
  )

pub contains_iff : (x : String) (xs : List String) → (contains x xs ≡ false) ↔ All (λ y. y ≢ x) xs
contains_iff x [] = (λ _. tt, λ _. refl)
contains_iff x (y ∷ ys) = (
  λ h. (λ e. cc ((eq_iff y x).1 e, h), (contains_iff x ys).0 (ground (arith, h))),
  λ (p, ps). ground (arith, (contains_iff x ys).1 ps, eq_iff y x, p),
)

pub is_unique_iff : (xs : List String) → (is_unique xs ≡ true) ↔ Distinct xs
is_unique_iff [] = (λ _. tt, λ _. refl)
is_unique_iff (x ∷ xs) = (
  λ h. ((contains_iff x xs).0 (ground (arith, h)), (is_unique_iff xs).0 (ground (arith, h))),
  λ (p, ps). ground (arith, (contains_iff x xs).1 p, (is_unique_iff xs).1 ps),
)

-- A sum of lists is empty exactly when its parts are.
pub append-eq_nil {ℓ} : {A : Type ℓ} (xs ys : List A) → (xs ++ ys ≡ []) ↔ ((xs ≡ []) × (ys ≡ []))
append-eq_nil [] ys = (λ h. (refl, h), λ (_, k). k)
append-eq_nil (x ∷ xs) ys = (λ h. cc, λ (k, _). cc)
