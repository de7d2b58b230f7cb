-- ===== src/Common/Subsets.antt =====
-- Inclusion of lists of strings.
use Prim.Native.String.{String}
use mathlib.Core.Path.{◌≡◌}
use mathlib.Core.Bool.{true}
use mathlib.Core.List.{List, [], ◌∷◌, ◌++◌}
use native.Mathlib.Omega.{arith}
use text.Mathlib.TextEquality.{eq_iff}
use agent_benchmark.Common.Lists.{contains, All-imp, Subset, contains_of_Subset}

pub Subset_trans : (xs ys zs : List String) → Subset xs ys → Subset ys zs → Subset xs zs
Subset_trans xs ys zs h k = All-imp (λ x p. contains_of_Subset x ys zs k p) xs h

pub Subset_cons : (y : String) (xs ys : List String) → Subset xs ys → Subset xs (y ∷ ys)
Subset_cons y xs ys h = All-imp (λ (x : String) (p : contains x ys ≡ true). ground (arith, p)) xs h

pub Subset_refl : (xs : List String) → Subset xs xs
Subset_refl [] = tt
Subset_refl (x ∷ xs) = (ground (arith, eq_iff x x), Subset_cons x xs xs (Subset_refl xs))

pub Subset_right : (xs ys zs : List String) → Subset xs zs → Subset xs (ys ++ zs)
Subset_right xs [] zs h = h
Subset_right xs (y ∷ ys) zs h = Subset_cons y xs (ys ++ zs) (Subset_right xs ys zs h)
