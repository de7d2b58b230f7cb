-- ===== src/Scoring/Consistency.antt =====
-- packages/scoring/src/index.ts: `evaluateSuiteConsistency`, whether outputs of one session were
-- carried into another. A path is its segments. The normalisation of texts (white space and case, by
-- regular expressions) and the SHA-256 digest are parameters.
use agent_benchmark.Scoring.{passed, failed}
use agent_benchmark.Common.{
  zero, suc, String, ℕ, Option, List, Bool, if◌then◌else◌, ◌/◌, none, some, ◌∷◌, Map, nat_eq, ltb,
  true, map, ◌++◌, [], is_some, find, get, ◌==◌, ◌⧺◌, false, length, contains, is_empty, ◌%◌, any,
  ◌||◌,
}
use agent_benchmark.Json.{Json, object, array, bool, number, other_number, string, get_field, elems}
use text.Mathlib.Text.{find?}
use agent_benchmark.Scoring.Suite.{
  equal_normalized, target_contains_source, target_digest_matches_source, SuiteConsistencyRule,
  SuiteConsistencyResult,
}
pub mod Carried
mod Tests
use agent_benchmark.Scoring.Number.{Number}

pub record Segment : Type 0 where
  pub key : String
  pub wildcard : Bool

pub record SuiteConsistencyCheck (N : Type 0) : Type 0 where
  pub name : String
  pub rule : SuiteConsistencyRule
  pub weight : N
  pub required : Bool
  pub source_task_slug : String
  pub source_path : List Segment
  pub target_task_slug : String
  pub target_path : List Segment

abbrev digit : ℕ → String
digit n =
    if nat_eq n 0
    then "0"
    else if nat_eq n 1
    then "1"
    else if nat_eq n 2
    then "2"
    else if nat_eq n 3
    then "3"
    else if nat_eq n 4
    then "4"
    else if nat_eq n 5
    then "5"
    else if nat_eq n 6
    then "6"
    else if nat_eq n 7
    then "7"
    else if nat_eq n 8
    then "8"
    else "9"

digits : ℕ → ℕ → String
digits zero n = ""
digits (suc fuel) n =
    let front = digits fuel (n / 10) in if ltb n 10 then digit n else front ⧺ digit (n % 10)

-- `String(n)`; a number has at most as many digits as itself and one.
unfoldable pub print_number : ℕ → String
unfolding digits
print_number n = digits (suc n) n

-- `array[key]`, from index `i` on.
unfoldable pub get_item : String → ℕ → List Json → Option Json
get_item key i [] = none
get_item key i (v ∷ vs) =
    let later = get_item key (suc i) vs in if key == print_number i then some v else later

-- `node[key]` where the node is an object or an array; otherwise the node is passed over.
abbrev pub is_node : Option Json → Bool
is_node (some (object fs)) = true
is_node (some (array vs)) = true
is_node _ = false

unfoldable pub child : String → Option Json → Option Json
unfolding get_item
child key (some (object fs)) = get_field key fs
child key (some (array vs)) =
    if key == "length" then some (number (length (elems vs))) else get_item key 0 (elems vs)
child key _ = none

abbrev pub fan_out : Option Json → List (Option Json)
fan_out (some (array vs)) = map some (elems vs)
fan_out _ = []

unfoldable pub next_values : Segment → List (Option Json) → List (Option Json)
unfolding child
next_values segment [] = []
next_values segment (node ∷ nodes) =
    let rest = next_values segment nodes in
    if is_node node
    then (if segment.wildcard
        then fan_out (child segment.key node) ++ rest
        else child segment.key node ∷ rest)
    else rest

unfoldable pub follow : List Segment → List (Option Json) → List (Option Json)
unfolding next_values
follow [] nodes = nodes
follow (segment ∷ path) nodes = follow path (next_values segment nodes)

-- `String(value)` of a value that is no object, where it is not empty.
abbrev pub printed : Option Json → Option String
printed (some (bool b)) = some (if b then "true" else "false")
printed (some (number n)) = some (print_number n)
printed (some (other_number s)) = some s
printed (some (string s)) = if s == "" then none else some s
printed _ = none

abbrev pub collect : List (Option Json) → List String
collect [] = []
collect (v ∷ vs) = elim (printed v) [ none ↦ collect vs | some s ↦ s ∷ collect vs ]

unfoldable pub resolve_consistency_values : Option Json → List Segment → List String
unfolding follow
resolve_consistency_values root path = collect (follow path (root ∷ []))

-- `target.includes(source)`
abbrev pub includes_text : String → String → Bool
includes_text target source = is_some (find? target source)

module _ (normalize digest : String → String) where
  -- `createConsistencyDigest`
  abbrev pub create_consistency_digest : String → String
  create_consistency_digest value = digest (normalize value)

  -- `matched`
  unfoldable pub matched_value : SuiteConsistencyRule → List String → List String → Option String
  matched_value equal_normalized sources targets =
      find (λ s. contains (normalize s) (map normalize targets)) sources
  matched_value target_contains_source sources targets =
      find (λ s. any (λ t. includes_text t (normalize s)) (map normalize targets)) sources
  matched_value target_digest_matches_source sources targets =
      find (λ s. contains (create_consistency_digest s) (map normalize targets)) sources

  abbrev pub session_values : Map Json → String → List Segment → List String
  session_values states slug path = elim (get slug states) [
    | none ↦ []
    | some state ↦ resolve_consistency_values (some state) path
  ]

  module _ {N : Type 0} ⦃n : Number N⦄ where
    abbrev pub outcome : SuiteConsistencyCheck N → Bool → SuiteConsistencyResult N
    outcome check is_match = record {
      name = check.name;
      rule = check.rule;
      status = if is_match then passed else failed;
      score = if is_match then n.one else n.nought;
      weight = check.weight;
      required = check.required;
      source_task_slug = check.source_task_slug;
      target_task_slug = check.target_task_slug;
    }

    unfoldable pub evaluate_check : Map Json → SuiteConsistencyCheck N → SuiteConsistencyResult N
    unfolding resolve_consistency_values matched_value
    evaluate_check states check =
        let sources = session_values states check.source_task_slug check.source_path in
        let targets = session_values states check.target_task_slug check.target_path in
        if is_empty sources || is_empty targets
        then outcome check false
        else outcome check (is_some (matched_value check.rule sources targets))

    unfoldable pub evaluate_suite_consistency :
        List (SuiteConsistencyCheck N) → Map Json → List (SuiteConsistencyResult N)
    unfolding evaluate_check
    evaluate_suite_consistency checks states = map (evaluate_check states) checks
