-- ===== src/Forum/Tests.antt =====
-- A thread is locked, then edited in vain.
use agent_benchmark.Forum.{
  ForumThread, AppSessionState, pin_thread, edit_thread_title, lock_thread, move_thread,
  update_thread,
}
use agent_benchmark.Common.{List, false, ◌∷◌, [], ◌≡◌, true, refl}
use agent_benchmark.Forum.Locked.{
  act_all, Request, act, act_all-AllKept, pin_it, retitle, lock_it, move_it,
}
use agent_benchmark.Forum.Keeps.{AllKept}

abbrev thread : ForumThread
thread = record {
  id = "t1";
  title = "Hello";
  category = "general";
  locked = false;
  pinned = false;
  posts = [];
}

abbrev forum : AppSessionState
forum = record { threads = thread ∷ []; moderation_actions = [] }

abbrev requests : List Request
requests =
    pin_it "t1" "early" "m0"
    ∷ retitle "t1" "Hi" "typo" "m1"
    ∷ lock_it "t1" "done" "m2"
    ∷ move_it "t1" "archive" "old" "m3"
    ∷ pin_it "t1" "keep" "m4"
    ∷ []

requests_run :
    (act_all forum requests).threads
    ≡ record thread { title = "Hi"; locked = true; pinned = true } ∷ []
unfolding act_all act pin_thread edit_thread_title lock_thread move_thread update_thread
requests_run = refl

act_all-AllKept_example : AllKept forum.threads (act_all forum requests).threads
act_all-AllKept_example = act_all-AllKept requests forum
