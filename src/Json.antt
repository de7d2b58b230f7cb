-- ===== src/Json.antt =====
-- The JSON values that the code reads with `typeof` tests: a `Record<string, unknown>` is `Fields`.
-- A number is a natural, or any other number (negative or fractional) under its printed form.
use agent_benchmark.Common.{
  ℕ, String, ◌≡◌, refl, Bool, ◌==◌, Option, none, some, List, [], ◌∷◌, arith, if◌then◌else◌, eq_iff,
}

mutual
  pub data Json : Type 0 where
    null : Json
    bool : Bool → Json
    number : ℕ → Json
    other_number : String → Json
    string : String → Json
    array : Items → Json
    object : Fields → Json

  pub data Items : Type 0 where
    nil : Items
    cons : Json → Items → Items

  pub data Fields : Type 0 where
    end : Fields
    field : String → Json → Fields → Fields

-- `record[key]`, with `none` for `undefined`.
unfoldable pub get_field : String → Fields → Option Json
get_field k end = none
get_field k (field j v fs) = if j == k then some v else get_field k fs

-- `record[key] = value`
unfoldable pub put_field : String → Json → Fields → Fields
put_field k v end = field k v end
put_field k v (field j w fs) = if j == k then field j v fs else field j w (put_field k v fs)

pub get_field-put_field :
    (k j : String) (v : Json) (fs : Fields)
    → get_field j (put_field k v fs) ≡ (if k == j then some v else get_field j fs)
unfolding get_field put_field
get_field-put_field k j v end = refl
get_field-put_field k j v (field i w fs) =
    ground (arith, eq_iff k j, eq_iff i k, eq_iff i j, get_field-put_field k j v fs)

pub get_field-put_field_self :
    (k : String) (v : Json) (fs : Fields) → get_field k (put_field k v fs) ≡ some v
get_field-put_field_self k v fs = ground (arith, get_field-put_field k k v fs, eq_iff k k)

abbrev pub elems : Items → List Json
elems nil = []
elems (cons v vs) = v ∷ elems vs

abbrev pub items : List Json → Items
items [] = nil
items (v ∷ vs) = cons v (items vs)

abbrev pub strings : List String → Items
strings [] = nil
strings (s ∷ ss) = cons (string s) (strings ss)

-- `typeof value === "string" ? value : null`
abbrev pub as_string : Option Json → Option String
as_string (some (string s)) = some s
as_string _ = none

-- `isRecord(value) ? value : null`
abbrev pub as_record : Option Json → Option Fields
as_record (some (object fs)) = some fs
as_record _ = none

abbrev pub as_array : Option Json → Option (List Json)
as_array (some (array vs)) = some (elems vs)
as_array _ = none

abbrev pub as_natural : Option Json → Option ℕ
as_natural (some (number n)) = some n
as_natural _ = none

-- The strings among the elements.
abbrev pub only_strings : Items → List String
only_strings nil = []
only_strings (cons (string s) vs) = s ∷ only_strings vs
only_strings (cons v vs) = only_strings vs

pub only_strings-strings : (ss : List String) → only_strings (strings ss) ≡ ss
only_strings-strings [] = refl
only_strings-strings (s ∷ ss) = ground (arith, only_strings-strings ss)
