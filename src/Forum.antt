-- ===== src/Forum.antt =====
-- The forum site's actions: apps/hosted-sites/src/apps/forum-lite/actions.ts. The identifiers that
-- `makeId` makes are arguments.
use agent_benchmark.Common.{none, some, true, not, is_some}
pub mod Keeps
pub mod Locked
mod Tests
use agent_benchmark.Common.{String, List, Bool, Option, ◌∷◌, ◌++◌, find, if◌then◌else◌, [], ◌==◌}

pub record ForumPost : Type 0 where
  pub id : String
  pub author : String
  pub body : String

pub record ForumThread : Type 0 where
  pub id : String
  pub title : String
  pub category : String
  pub locked : Bool
  pub pinned : Bool
  pub posts : List ForumPost

-- The kinds of moderation, with what only they record.
pub data Moderation : Type 0 where
  lock pin report : Moderation
  move : String → Moderation
  edit_title : String → Moderation
  mark_duplicate : String → Moderation

pub record ModerationAction : Type 0 where
  pub id : String
  pub thread_id : String
  pub action : Moderation
  pub reason : String

pub record AppSessionState : Type 0 where
  pub threads : List ForumThread
  pub moderation_actions : List ModerationAction

pub data ActionResult : Type 0 where
  refused : String → ActionResult
  posted : ForumPost → ActionResult
  moderated : ModerationAction → ActionResult

abbrev pub find_thread : String → List ForumThread → Option ForumThread
find_thread id threads = find (λ t. t.id == id) threads

-- The assignment to fields of the thread that `find` returned.
unfoldable pub update_thread :
    String → (ForumThread → ForumThread) → List ForumThread → List ForumThread
update_thread id f [] = []
update_thread id f (t ∷ threads) =
    if t.id == id then f t ∷ threads else t ∷ update_thread id f threads

unfoldable pub add_reply_to_thread :
    AppSessionState → String → String → String → String → AppSessionState × ActionResult
unfolding update_thread
add_reply_to_thread s id post_id author body = elim (find_thread id s.threads) [
  | none ↦ (s, refused "Thread not found")
  | some thread ↦
      if thread.locked
      then (s, refused "Thread is locked")
      else let post : ForumPost = record { id = post_id; author = author; body = body } in
        (
          record s {
            threads = update_thread id (λ t. record t { posts = t.posts ++ post ∷ [] }) s.threads;
          },
          posted post,
        )
]

-- The change of a thread, and the record of it.
abbrev pub moderate :
    AppSessionState
    → String
    → (ForumThread → ForumThread)
    → ModerationAction
    → AppSessionState × ActionResult
moderate s id f action = (
  record s {
    threads = update_thread id f s.threads;
    moderation_actions = s.moderation_actions ++ action ∷ [];
  },
  moderated action,
)

abbrev pub moderation : String → String → Moderation → String → ModerationAction
moderation id thread_id action reason = record {
  id = id;
  thread_id = thread_id;
  action = action;
  reason = reason;
}

unfoldable pub lock_thread :
    AppSessionState → String → String → String → AppSessionState × ActionResult
unfolding update_thread
lock_thread s id reason mod_id = elim (find_thread id s.threads) [
  | none ↦ (s, refused "Thread not found")
  | some thread ↦ moderate s id (λ t. record t { locked = true }) (moderation mod_id id lock reason)
]

unfoldable pub pin_thread :
    AppSessionState → String → String → String → AppSessionState × ActionResult
unfolding update_thread
pin_thread s id reason mod_id = elim (find_thread id s.threads) [
  | none ↦ (s, refused "Thread not found")
  | some thread ↦
      if not thread.locked
      then (s, refused "Thread must be locked before pinning")
      else moderate s id (λ t. record t { pinned = true }) (moderation mod_id id pin reason)
]

unfoldable pub report_thread :
    AppSessionState → String → String → String → AppSessionState × ActionResult
report_thread s id reason mod_id = elim (find_thread id s.threads) [
  | none ↦ (s, refused "Thread not found")
  | some thread ↦ if thread.locked then (s, refused "Cannot report a locked thread") else (
    record s {
      moderation_actions = s.moderation_actions ++ moderation mod_id id report reason ∷ [];
    },
    moderated (moderation mod_id id report reason),
  )
]

unfoldable pub move_thread :
    AppSessionState → String → String → String → String → AppSessionState × ActionResult
unfolding update_thread
move_thread s id category reason mod_id = elim (find_thread id s.threads) [
  | none ↦ (s, refused "Thread not found")
  | some thread ↦
      if thread.locked
      then (s, refused "Cannot move a locked thread")
      else moderate s id (λ t. record t { category = category })
          (moderation mod_id id (move category) reason)
]

unfoldable pub edit_thread_title :
    AppSessionState → String → String → String → String → AppSessionState × ActionResult
unfolding update_thread
edit_thread_title s id title reason mod_id = elim (find_thread id s.threads) [
  | none ↦ (s, refused "Thread not found")
  | some thread ↦
      if thread.locked
      then (s, refused "Cannot edit the title of a locked thread")
      else moderate s id (λ t. record t { title = title })
          (moderation mod_id id (edit_title title) reason)
]

unfoldable pub mark_thread_duplicate :
    AppSessionState → String → String → String → String → AppSessionState × ActionResult
mark_thread_duplicate s id duplicate_of reason mod_id = elim (find_thread id s.threads) [
  | none ↦ (s, refused "Thread not found")
  | some thread ↦
      if thread.locked
      then (s, refused "Cannot mark a locked thread as duplicate")
      else if duplicate_of == id
      then (s, refused "A thread cannot be a duplicate of itself")
      else if not (is_some (find_thread duplicate_of s.threads))
      then (s, refused "Canonical thread not found")
      else (
        record s {
          moderation_actions =
              s.moderation_actions
              ++ moderation mod_id id (mark_duplicate duplicate_of) reason ∷ [];
        },
        moderated (moderation mod_id id (mark_duplicate duplicate_of) reason),
      )
]
