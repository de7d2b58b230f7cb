-- ===== src/Forum/Locked.antt =====
-- What a lock protects.
-- What a visitor or moderator can ask for.
use agent_benchmark.Common.{
  String, List, ◌∷◌, Option-cases, [], inl, inr, Bool-cases, true, ◌==◌, not, refl, is_some,
}
use agent_benchmark.Forum.{
  AppSessionState, ActionResult, add_reply_to_thread, lock_thread, pin_thread, report_thread,
  move_thread, edit_thread_title, mark_thread_duplicate, find_thread,
}
use agent_benchmark.Forum.Keeps.{AllKept, AllKept-refl, AllKept-trans, update-AllKept, open-Keeps}

pub data Request : Type 0 where
  reply : String → String → String → String → Request
  lock_it : String → String → String → Request
  pin_it : String → String → String → Request
  report_it : String → String → String → Request
  move_it : String → String → String → String → Request
  retitle : String → String → String → String → Request
  duplicate : String → String → String → String → Request

unfoldable pub act : AppSessionState → Request → AppSessionState × ActionResult
act s (reply id post author body) = add_reply_to_thread s id post author body
act s (lock_it id reason mod_id) = lock_thread s id reason mod_id
act s (pin_it id reason mod_id) = pin_thread s id reason mod_id
act s (report_it id reason mod_id) = report_thread s id reason mod_id
act s (move_it id category reason mod_id) = move_thread s id category reason mod_id
act s (retitle id title reason mod_id) = edit_thread_title s id title reason mod_id
act s (duplicate id original reason mod_id) = mark_thread_duplicate s id original reason mod_id

module _ (s : AppSessionState) (id : String) where
  reply-AllKept :
      (post author body : String)
      → AllKept s.threads (add_reply_to_thread s id post author body).0.threads
  unfolding add_reply_to_thread
  reply-AllKept post author body = elim (Option-cases (find_thread id s.threads)) [
    | inl none_such ↦ rw (none_such, add_reply_to_thread) (AllKept-refl s.threads)
    | inr (t, found) ↦ elim (Bool-cases t.locked) [
      | inl shut ↦ rw (found, shut, add_reply_to_thread) (AllKept-refl s.threads)
      | inr free ↦
          rw (found, free, add_reply_to_thread)
            (update-AllKept id _ s.threads t found (open-Keeps t _ free refl refl refl))
    ]
  ]

  lock-AllKept :
      (reason mod_id : String) → AllKept s.threads (lock_thread s id reason mod_id).0.threads
  unfolding lock_thread
  lock-AllKept reason mod_id = elim (Option-cases (find_thread id s.threads)) [
    | inl none_such ↦ rw (none_such, lock_thread) (AllKept-refl s.threads)
    | inr (t, found) ↦
        rw (found, lock_thread)
          (update-AllKept id (λ t. record t { locked = true }) s.threads t found
            (record {
              same_id = refl;
              stays_locked = λ h. refl;
              frozen = λ _. (refl, refl, refl);
              stays_pinned = λ h. h;
              pins_locked = λ a b. refl;
            }))
  ]

  pin-AllKept :
      (reason mod_id : String) → AllKept s.threads (pin_thread s id reason mod_id).0.threads
  unfolding pin_thread
  pin-AllKept reason mod_id = elim (Option-cases (find_thread id s.threads)) [
    | inl none_such ↦ rw (none_such, pin_thread) (AllKept-refl s.threads)
    | inr (t, found) ↦ elim (Bool-cases t.locked) [
      | inr free ↦ rw (found, free, pin_thread) (AllKept-refl s.threads)
      | inl shut ↦
          rw (found, shut, pin_thread)
            (update-AllKept id (λ t. record t { pinned = true }) s.threads t found
              (record {
                same_id = refl;
                stays_locked = λ h. h;
                frozen = λ _. (refl, refl, refl);
                stays_pinned = λ h. refl;
                pins_locked = λ a b. shut;
              }))
    ]
  ]

  report-AllKept :
      (reason mod_id : String) → AllKept s.threads (report_thread s id reason mod_id).0.threads
  unfolding report_thread
  report-AllKept reason mod_id = elim (Option-cases (find_thread id s.threads)) [
    | inl none_such ↦ rw (none_such, report_thread) (AllKept-refl s.threads)
    | inr (t, found) ↦ elim (Bool-cases t.locked) [
      | inl shut ↦ rw (found, shut, report_thread) (AllKept-refl s.threads)
      | inr free ↦ rw (found, free, report_thread) (AllKept-refl s.threads)
    ]
  ]

  move-AllKept :
      (category reason mod_id : String)
      → AllKept s.threads (move_thread s id category reason mod_id).0.threads
  unfolding move_thread
  move-AllKept category reason mod_id = elim (Option-cases (find_thread id s.threads)) [
    | inl none_such ↦ rw (none_such, move_thread) (AllKept-refl s.threads)
    | inr (t, found) ↦ elim (Bool-cases t.locked) [
      | inl shut ↦ rw (found, shut, move_thread) (AllKept-refl s.threads)
      | inr free ↦
          rw (found, free, move_thread)
            (update-AllKept id (λ t. record t { category = category }) s.threads t found
              (open-Keeps t _ free refl refl refl))
    ]
  ]

  title-AllKept :
      (title reason mod_id : String)
      → AllKept s.threads (edit_thread_title s id title reason mod_id).0.threads
  unfolding edit_thread_title
  title-AllKept title reason mod_id = elim (Option-cases (find_thread id s.threads)) [
    | inl none_such ↦ rw (none_such, edit_thread_title) (AllKept-refl s.threads)
    | inr (t, found) ↦ elim (Bool-cases t.locked) [
      | inl shut ↦ rw (found, shut, edit_thread_title) (AllKept-refl s.threads)
      | inr free ↦
          rw (found, free, edit_thread_title)
            (update-AllKept id (λ t. record t { title = title }) s.threads t found
              (open-Keeps t _ free refl refl refl))
    ]
  ]

  duplicate-AllKept :
      (original reason mod_id : String)
      → AllKept s.threads (mark_thread_duplicate s id original reason mod_id).0.threads
  unfolding mark_thread_duplicate
  duplicate-AllKept original reason mod_id = elim (Option-cases (find_thread id s.threads)) [
    | inl none_such ↦ rw (none_such, mark_thread_duplicate) (AllKept-refl s.threads)
    | inr (t, found) ↦ elim (Bool-cases t.locked) [
      | inl shut ↦ rw (found, shut, mark_thread_duplicate) (AllKept-refl s.threads)
      | inr free ↦ elim (Bool-cases (original == id)) [
        | inl own ↦ rw (found, free, own, mark_thread_duplicate) (AllKept-refl s.threads)
        | inr other ↦ elim (Bool-cases (not (is_some (find_thread original s.threads)))) [
          | inl lost ↦ rw (found, free, other, lost, mark_thread_duplicate) (AllKept-refl s.threads)
          | inr known ↦
              rw (found, free, other, known, mark_thread_duplicate) (AllKept-refl s.threads)
        ]
      ]
    ]
  ]

act-AllKept : (s : AppSessionState) (r : Request) → AllKept s.threads (act s r).0.threads
unfolding act
act-AllKept s (reply id post author body) = reply-AllKept s id post author body
act-AllKept s (lock_it id reason mod_id) = lock-AllKept s id reason mod_id
act-AllKept s (pin_it id reason mod_id) = pin-AllKept s id reason mod_id
act-AllKept s (report_it id reason mod_id) = report-AllKept s id reason mod_id
act-AllKept s (move_it id category reason mod_id) = move-AllKept s id category reason mod_id
act-AllKept s (retitle id title reason mod_id) = title-AllKept s id title reason mod_id
act-AllKept s (duplicate id original reason mod_id) = duplicate-AllKept s id original reason mod_id

unfoldable pub act_all : AppSessionState → List Request → AppSessionState
act_all s [] = s
act_all s (r ∷ more) = act_all (act s r).0 more

-- Over any requests no thread appears or vanishes; a locked thread stays locked and keeps its title,
-- category and posts, a pinned one stays pinned, and a thread is newly pinned only when locked.
pub act_all-AllKept :
    (requests : List Request) (s : AppSessionState) → AllKept s.threads (act_all s requests).threads
unfolding act_all
act_all-AllKept [] s = AllKept-refl s.threads
act_all-AllKept (r ∷ more) s =
    AllKept-trans s.threads (act s r).0.threads (act_all (act s r).0 more).threads (act-AllKept s r)
      (act_all-AllKept more (act s r).0)
