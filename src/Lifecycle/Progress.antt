-- ===== src/Lifecycle/Progress.antt =====
-- When an attempt is complete, and which session is next.
use agent_benchmark.Common.{
  of_entries, Bool, String, List, Map, is_empty, length, is_some, filter, get, ◌==◌, not, ◌+◌, ◌≡◌,
  ◌||◌, contains, true, arith, false, map, ◌↔◌, ◌∷◌, find, put, All, some, [], get-put, Bool-cases,
  iff_trans, refl, inl, All-iff, inr, sym, ◌∙◌, none, keys, ◌&&◌, ap, eq_iff, map_option,
  Option-cases, Option, ℕ, get-put_self,
}
use agent_benchmark.Lifecycle.{AttemptLifecycleSession, ResultRow, SessionRow, running}
use agent_benchmark.Scoring.Number.{Number}
use agent_benchmark.Scoring.Strict.{HostedWebScoreResult}
use agent_benchmark.Json.{
  Fields, get_field, string, put_field, get_field-put_field, array, strings,
  get_field-put_field_self,
}
use agent_benchmark.Lifecycle.Completion.{
  Evidence, AttemptUpdate, latest_results, attempt_update, is_done, running_update, complete_update,
  score_of_row, next_pending, score_of_session, string_or_null, suite_session, progress,
  index_or_null,
}
use agent_benchmark.Scoring.Suite.{HostedWebSuiteSessionScore}

is_some-of_entries {ℓ} :
    {V : Type ℓ} (k : String) (es : List (String × V)) (m : Map V)
    → is_some (get k (of_entries es m)) ≡ (contains k (map (λ e. e.0) es) || is_some (get k m))
unfolding of_entries
is_some-of_entries k [] m = refl
is_some-of_entries k ((j, v) ∷ es) m =
    ground (arith, is_some-of_entries k es (put j v m), get-put j k v m)

-- The row's session has a result: the new one or an earlier one.
abbrev pub has_result :
    {N : Type 0} → AttemptLifecycleSession N → List (ResultRow N) → SessionRow N → Bool
has_result session results row =
    session.id == row.id || contains row.id (map (λ r. r.session_id) results)

filter-All {ℓ} :
    {A : Type ℓ} (p : A → Bool) (xs : List A)
    → (is_empty (filter (λ x. not (p x)) xs) ≡ true) ↔ All (λ x. p x ≡ true) xs
filter-All p [] = (λ _. tt, λ _. refl)
filter-All p (x ∷ xs) = ground (arith, filter-All p xs)

filter-parts {ℓ} :
    {A : Type ℓ} (p : A → Bool) (xs : List A)
    → length (filter p xs) + length (filter (λ x. not (p x)) xs) ≡ length xs
filter-parts p [] = omega arith
filter-parts p (x ∷ xs) = ground (arith, filter-parts p xs)

find-pending {ℓ} :
    {A : Type ℓ} (p : A → Bool) (xs : List A)
    → is_empty (filter (λ x. not (p x)) xs) ≡ false
    → (x : A) × (find (λ x. not (p x)) xs ≡ some x) × (p x ≡ false)
find-pending p [] h = cc
find-pending p (x ∷ xs) h = elim (Bool-cases (p x)) [
  | inl e ↦ rw e (find-pending p xs (ground (arith, e, h)))
  | inr e ↦ (x, rw e refl, e)
]

find-agree {ℓ} :
    {A : Type ℓ} (p q : A → Bool) (xs : List A) → ((x : A) → p x ≡ q x) → find p xs ≡ find q xs
find-agree p q [] h = refl
find-agree p q (x ∷ xs) h = ground (arith, h x, find-agree p q xs h)

progress_active :
    (metadata : Fields) (active : Option String) (index : Option ℕ) (completed_ids : List String)
    → get_field "activeSessionId" (progress metadata active index completed_ids)
      ≡ some (string_or_null active)
progress_active metadata active index completed_ids =
    let first = put_field "activeSessionId" (string_or_null active) metadata in
    let second = put_field "activeSequenceIndex" (index_or_null index) first in
    get_field-put_field "completedSessionIds" "activeSessionId" (array (strings completed_ids))
      second
    ∙ get_field-put_field "activeSequenceIndex" "activeSessionId" (index_or_null index) first
    ∙ get_field-put_field_self "activeSessionId" (string_or_null active) metadata

module _ {N : Type 0} ⦃n : Number N⦄ (session : AttemptLifecycleSession N)
    (result : HostedWebScoreResult N) (metadata : Fields) (results : List (ResultRow N))
    (rows : List (SessionRow N)) (evidence : Evidence N) where
  abbrev update : AttemptUpdate N
  update = attempt_update session result metadata results rows evidence

  abbrev latest : Map (HostedWebSuiteSessionScore N)
  latest = latest_results session result results rows

  pending : List (SessionRow N)
  pending = filter (λ r. not (is_done latest r)) rows

  contains-results :
      (k : String) (rs : List (ResultRow N))
      → contains k (keys (map (λ r. (r.session_id, score_of_row r)) rs))
        ≡ contains k (map (λ r. r.session_id) rs)
  contains-results k [] = refl
  contains-results k (r ∷ rs) = ground (arith, contains-results k rs)

  is_done_lem : (row : SessionRow N) → is_done latest row ≡ has_result session results row
  unfolding latest_results get
  is_done_lem row =
      let earlier : Map (HostedWebSuiteSessionScore N) =
        of_entries (map (λ r. (r.session_id, score_of_row r)) results) [] in
      ground (
        arith,
        get-put session.id row.id (score_of_session session result rows) earlier,
        is_some-of_entries row.id (map (λ r. (r.session_id, score_of_row r)) results) [],
        contains-results row.id results,
      )

  complete_lem : update.complete ≡ is_empty pending
  unfolding attempt_update pending running_update complete_update
  complete_lem = elim (Bool-cases (is_empty pending)) [
    | inl e ↦ rw (e, attempt_update) refl
    | inr e ↦ rw (e, attempt_update) refl
  ]

  -- The attempt is complete exactly when each of its sessions has a result, the new one included.
  pub update_complete_iff :
      ((attempt_update session result metadata results rows evidence).complete ≡ true)
      ↔ All (λ row. has_result session results row ≡ true) rows
  unfolding pending
  update_complete_iff =
      iff_trans (λ h. sym complete_lem ∙ h, λ h. complete_lem ∙ h)
        (iff_trans (filter-All (is_done latest) rows)
          (All-iff rows (λ row. (λ h. sym (is_done_lem row) ∙ h, λ h. is_done_lem row ∙ h))))

  -- What a running attempt goes on with: a session of it that has no result, other than the one just
  -- finished.
  pub record GoesOn (u : AttemptUpdate N) : Type 0 where
    pub row : SessionRow N
    pub first : find (λ r. not (has_result session results r)) rows ≡ some row
    pub waits : has_result session results row ≡ false
    pub next : u.next_session_id ≡ some row.id
    pub active : get_field "activeSessionId" u.metadata ≡ some (string row.id)
    pub runs : u.status ≡ running
    pub unscored : u.aggregate ≡ none

  next_pending_lem :
      next_pending session latest rows ≡ find (λ r. not (has_result session results r)) rows
  unfolding next_pending
  next_pending_lem =
      let other =
        find-agree (λ r. not (is_done latest r) && not (r.id == session.id))
          (λ r. not (has_result session results r)) rows
          (λ r. ground (arith, is_done_lem r, eq_iff r.id session.id, eq_iff session.id r.id)) in
      let done =
        find-agree (λ r. not (is_done latest r)) (λ r. not (has_result session results r)) rows
          (λ r. ground (arith, is_done_lem r)) in
      elim (Option-cases (find (λ r. not (has_result session results r)) rows)) [
        | inl e ↦ rw (other ∙ e, next_pending) done
        | inr (row, e) ↦ rw (other ∙ e, next_pending) (sym e)
      ]

  -- While a session has no result the attempt keeps running, and the session that becomes active is
  -- the first without a result.
  pub update-GoesOn :
      (attempt_update session result metadata results rows evidence).complete ≡ false
      → GoesOn (attempt_update session result metadata results rows evidence)
  unfolding attempt_update pending running_update
  update-GoesOn h =
      let e = sym complete_lem ∙ h in
      let (row, found, open_row) = find-pending (is_done latest) rows e in
      let first : find (λ r. not (has_result session results r)) rows ≡ some row =
        find-agree (λ r. not (has_result session results r)) (λ r. not (is_done latest r)) rows
          (λ r. ground (arith, is_done_lem r))
        ∙ found in
      rw (e, attempt_update)
        (record {
          row = row;
          first = first;
          waits = sym (is_done_lem row) ∙ open_row;
          next = ap (map_option (λ r. r.id)) (next_pending_lem ∙ first);
          active =
              progress_active metadata _ _ _
              ∙ ap (λ o. some (string_or_null (map_option (λ r. r.id) o)))
                  (next_pending_lem ∙ first);
          runs = refl;
          unscored = refl;
        })

  -- The scores of the suite have one row for each session, in order; the session just finished has
  -- its new score, whatever was stored for it before.
  pub suite_session_new :
      (row : SessionRow N)
      → session.id ≡ row.id
      → (suite_session (latest_results session result results rows) row).score ≡ result.score
  unfolding latest_results
  suite_session_new row e =
      let known : get row.id (latest_results session result results rows)
          ≡ some (score_of_session session result rows) =
        ap (λ k. get k (latest_results session result results rows)) (sym e)
        ∙ get-put_self session.id (score_of_session session result rows)
            (of_entries (map (λ r. (r.session_id, score_of_row r)) results) []) in
      rw (known, suite_session) refl
