-- ===== src/Common/Maps.antt =====
-- A JavaScript `Map` with string keys: an association list in insertion order. `set` of a present
-- key keeps its place, `set` of a new one appends.
use Prim.Native.Nat.{◌+◌, ◌≤◌}
use Prim.Native.String.{String}
use mathlib.Core.Path.{◌≡◌, refl}
use mathlib.Core.Bool.{true, false, ◌||◌}
use mathlib.Core.Option.{Option, none, some}
use mathlib.Core.List.{List, [], ◌∷◌, map}
use native.Mathlib.Omega.{arith}
use text.Mathlib.Text.{◌==◌}
use text.Mathlib.TextEquality.{eq_iff}
use agent_benchmark.Common.Tests.{if◌then◌else◌}
use agent_benchmark.Common.Lists.{length, contains, is_unique, All}

abbrev pub Map {ℓ} : Type ℓ → Type ℓ
Map V = List (String × V)

module _ {ℓ} {V : Type ℓ} where
  unfoldable pub get : String → Map V → Option V
  get k [] = none
  get k ((j, v) ∷ m) = if j == k then some v else get k m

  unfoldable pub put : String → V → Map V → Map V
  put k v [] = (k, v) ∷ []
  put k v ((j, w) ∷ m) = if j == k then (j, v) ∷ m else (j, w) ∷ put k v m

  -- `delete`: every entry of the key goes, though a map has one at most.
  unfoldable pub remove : String → Map V → Map V
  remove k [] = []
  remove k ((j, w) ∷ m) = if j == k then remove k m else (j, w) ∷ remove k m

  abbrev pub keys : Map V → List String
  keys m = map (λ e. e.0) m

  pub get-put :
      (k j : String) (v : V) (m : Map V) → get j (put k v m) ≡ (if k == j then some v else get j m)
  unfolding get put
  get-put k j v [] = refl
  get-put k j v ((i, w) ∷ m) = ground (arith, eq_iff k j, eq_iff i k, eq_iff i j, get-put k j v m)

  pub get-put_self : (k : String) (v : V) (m : Map V) → get k (put k v m) ≡ some v
  get-put_self k v m = ground (arith, get-put k k v m, eq_iff k k)

  pub get-remove :
      (k j : String) (m : Map V) → get j (remove k m) ≡ (if k == j then none else get j m)
  unfolding get remove
  get-remove k j [] = ground arith
  get-remove k j ((i, w) ∷ m) = ground (arith, eq_iff k j, eq_iff i k, eq_iff i j, get-remove k j m)

  pub length-put_le : (k : String) (v : V) (m : Map V) → length (put k v m) ≤ length m + 1
  unfolding put
  length-put_le k v [] = omega arith
  length-put_le k v ((i, w) ∷ m) = ground (arith, length-put_le k v m)

  -- Writing a present key does not make the map longer.
  pub length-put_present :
      (k : String) (v w : V) (m : Map V) → get k m ≡ some w → length (put k v m) ≡ length m
  unfolding get put
  length-put_present k v w [] e = cc
  length-put_present k v w ((i, u) ∷ m) e = ground (arith, length-put_present k v w m)

  pub contains-put :
      (k j : String) (v : V) (m : Map V)
      → contains j (keys (put k v m)) ≡ (k == j || contains j (keys m))
  unfolding put
  contains-put k j v [] = refl
  contains-put k j v ((i, w) ∷ m) =
      ground (arith, eq_iff k j, eq_iff i k, eq_iff i j, contains-put k j v m)

  pub put-is_unique :
      (k : String) (v : V) (m : Map V)
      → is_unique (keys m) ≡ true
      → is_unique (keys (put k v m)) ≡ true
  unfolding put
  put-is_unique k v [] h = refl
  put-is_unique k v ((i, w) ∷ m) h =
      ground (arith, eq_iff i k, eq_iff k i, contains-put k i v m, put-is_unique k v m)

  pub contains-get : (k : String) (m : Map V) → get k m ≡ none → contains k (keys m) ≡ false
  unfolding get
  contains-get k [] e = refl
  contains-get k ((i, w) ∷ m) e = ground (arith, contains-get k m)

  pub All-get {κ} :
      (P : V → Type κ) (k : String) (v : V) (m : Map V)
      → All (λ e. P e.1) m
      → get k m ≡ some v
      → P v
  unfolding get
  All-get P k v [] h e = cc
  All-get P k v ((i, w) ∷ m) (p, h) e = ground (arith, All-get P k v m h)

  pub All-put {κ} :
      (P : V → Type κ) (k : String) (v : V) (m : Map V)
      → P v
      → All (λ e. P e.1) m
      → All (λ e. P e.1) (put k v m)
  unfolding put
  All-put P k v [] p h = (p, tt)
  All-put P k v ((i, w) ∷ m) p (q, h) = ground (arith, All-put P k v m p h)

-- `new Map(entries)`: the last of equal keys wins.
unfoldable pub of_entries {ℓ} : {V : Type ℓ} → List (String × V) → Map V → Map V
of_entries [] m = m
of_entries ((k, v) ∷ es) m = of_entries es (put k v m)

pub All-of_entries {ℓ κ} :
    {V : Type ℓ} (P : V → Type κ) (es : List (String × V)) (m : Map V)
    → All (λ e. P e.1) es
    → All (λ e. P e.1) m
    → All (λ e. P e.1) (of_entries es m)
unfolding of_entries
All-of_entries P [] m h k = k
All-of_entries P ((j, v) ∷ es) m (p, h) k = All-of_entries P es (put j v m) h (All-put P j v m p k)
