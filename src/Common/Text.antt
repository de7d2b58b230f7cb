-- ===== src/Common/Text.antt =====
-- `String.prototype.includes` and `trim`, on the characters of a text.

use Prim.Native.Char.{Char, code}
use Prim.Native.String.append
use Prim.Native.String.{String}
use mathlib.Core.Path.{◌≡◌, refl, subst}
use mathlib.Core.Logic.{inl, inr}
use mathlib.Core.Bool.{Bool, true, false, ◌&&◌, ◌||◌}
use native.Mathlib.Omega.{arith}
use agent_benchmark.Common.Tests.{nat_eq, leb, if◌then◌else◌, ◌⧺◌, Bool-cases}

unfoldable pub is_prefix : String → String → Bool
is_prefix String.[] s = true
is_prefix (String.◌∷◌ a v) String.[] = false
is_prefix (String.◌∷◌ a v) (String.◌∷◌ b s) = nat_eq (code a) (code b) && is_prefix v s

-- `s.includes(v)`
unfoldable pub includes : String → String → Bool
unfolding is_prefix
includes v String.[] = is_prefix v String.[]
includes v (String.◌∷◌ c s) = is_prefix v (String.◌∷◌ c s) || includes v s

-- The white space and line ends of the language, but for the rarer spaces of Unicode.
abbrev is_space : Char → Bool
is_space c =
    (leb 9 (code c) && leb (code c) 13)
    || (nat_eq (code c) 32 || (nat_eq (code c) 160 || nat_eq (code c) 65279))

abbrev pub is_blank : String → Bool
is_blank String.[] = true
is_blank (String.◌∷◌ c s) = false

unfoldable pub trim_start : String → String
trim_start String.[] = String.[]
trim_start (String.◌∷◌ c s) = if is_space c then trim_start s else String.◌∷◌ c s

unfoldable pub trim_end : String → String
trim_end String.[] = String.[]
trim_end (String.◌∷◌ c s) =
    if is_space c && is_blank (trim_end s) then String.[] else String.◌∷◌ c (trim_end s)

unfoldable pub trim : String → String
unfolding trim_start trim_end
trim s = trim_end (trim_start s)

or_true : (b : Bool) → (b || true) ≡ true
or_true true = refl
or_true false = refl

includes_tail : (v s : String) (c : Char) → includes v s ≡ true → includes v (String.◌∷◌ c s) ≡ true
unfolding includes
includes_tail v s c h = rw h (or_true (is_prefix v (String.◌∷◌ c s)))

includes-trim_start : (v s : String) → includes v (trim_start s) ≡ true → includes v s ≡ true
unfolding trim_start
includes-trim_start v String.[] h = h
includes-trim_start v (String.◌∷◌ c s) h = elim (Bool-cases (is_space c)) [
  | inl space ↦ includes_tail v s c (includes-trim_start v s (rw space at h))
  | inr other ↦ rw other at h
]

is_prefix-trim_end : (v s : String) → is_prefix v (trim_end s) ≡ true → is_prefix v s ≡ true
unfolding is_prefix trim_end
is_prefix-trim_end String.[] s h = refl
is_prefix-trim_end (String.◌∷◌ a v) String.[] h = h
is_prefix-trim_end (String.◌∷◌ a v) (String.◌∷◌ c s) h =
    elim (Bool-cases (is_space c && is_blank (trim_end s))) [
      | inl dropped ↦ absurd_prefix (rw dropped at h)
      | inr kept ↦ ground (arith, is_prefix-trim_end v s, rw kept at h)
    ]
  where
    absurd_prefix : {A : Type 0} → false ≡ true → A
    absurd_prefix e = cc

includes-empty : (v s : String) → includes v String.[] ≡ true → includes v s ≡ true
unfolding includes
includes-empty String.[] String.[] h = refl
includes-empty String.[] (String.◌∷◌ c s) h = refl
includes-empty (String.◌∷◌ a v) s h = cc

includes-trim_end : (v s : String) → includes v (trim_end s) ≡ true → includes v s ≡ true
unfolding includes trim_end
includes-trim_end v String.[] h = h
includes-trim_end v (String.◌∷◌ c s) h = elim (Bool-cases (is_space c && is_blank (trim_end s))) [
  | inl dropped ↦ includes-empty v (String.◌∷◌ c s) (rw dropped at h)
  | inr kept ↦
      let shown : includes v (String.◌∷◌ c (trim_end s)) ≡ true = rw kept at h in
      elim (Bool-cases (is_prefix v (String.◌∷◌ c (trim_end s)))) [
        | inl start ↦
            let first = is_prefix-trim_end v (String.◌∷◌ c s) (rw kept start) in rw first refl
        | inr later ↦ includes_tail v s c (includes-trim_end v s (ground (arith, shown, later)))
      ]
]

-- What a trimmed text contains, the text contains.
pub includes-trim : (v s : String) → includes v (trim s) ≡ true → includes v s ≡ true
unfolding trim
includes-trim v s h = includes-trim_start v s (includes-trim_end v (trim_start s) h)

is_prefix-append : (v s t : String) → is_prefix v s ≡ true → is_prefix v (s ⧺ t) ≡ true
unfolding is_prefix
is_prefix-append String.[] s t h = refl
is_prefix-append (String.◌∷◌ a v) String.[] t h = cc
is_prefix-append (String.◌∷◌ a v) (String.◌∷◌ b s) t h =
    rw (append.cons b s t) (ground (arith, is_prefix-append v s t, h))

pub includes-append_left : (v s t : String) → includes v s ≡ true → includes v (s ⧺ t) ≡ true
unfolding includes
includes-append_left v String.[] t h = includes-empty v (String.[] ⧺ t) h
includes-append_left v (String.◌∷◌ c s) t h =
    rw (append.cons c s t) (elim (Bool-cases (is_prefix v (String.◌∷◌ c s))) [
      | inl start ↦
          let longer : is_prefix v (String.◌∷◌ c (s ⧺ t)) ≡ true =
            subst (λ u. is_prefix v u ≡ true) (append.cons c s t)
              (is_prefix-append v (String.◌∷◌ c s) t start) in
          rw longer refl
      | inr other ↦
          includes_tail v (s ⧺ t) c (includes-append_left v s t (ground (arith, h, other)))
    ])

pub includes-append_right : (v s t : String) → includes v t ≡ true → includes v (s ⧺ t) ≡ true
unfolding includes
includes-append_right v String.[] t h = rw (append.nil t) h
includes-append_right v (String.◌∷◌ c s) t h =
    rw (append.cons c s t) (includes_tail v (s ⧺ t) c (includes-append_right v s t h))
