-- ===== src/Sessions/Redis.antt =====
-- apps/hosted-sites/src/runtime/session-cache.ts: the sessions in Redis and the cancellation of some
-- of them; `cancelSessions` of apps/hosted-sites/src/runtime/session-store.ts calls it. The entries
-- under `keyPrefix` and those of the index under its "id:" are two maps, as no token starts with
-- "id:", and a stored session is one that decodes.
use agent_benchmark.Common.{
  String, true, false, ◌==◌, Option, none, some, List, [], ◌∷◌, if◌then◌else◌, Map, get, put,
  contains, keys,
}
use agent_benchmark.Sessions.{HostedSession, cancelled}
use agent_benchmark.Sessions.Store.{drop_ids}

pub record RedisStore (S : Type 0) : Type 0 where
  pub by_token : Map (HostedSession S)
  pub by_id : Map String

-- `remaining.delete(sessionId)`
abbrev pub without : String → List String → List String
without x [] = []
without x (y ∷ ys) = if y == x then without x ys else y ∷ without x ys

module _ {S : Type 0} where
  -- The two writes of the transaction.
  unfoldable pub write_session : HostedSession S → RedisStore S → RedisStore S
  write_session s r = record {
    by_token = put s.token s r.by_token;
    by_id = put s.id s.token r.by_id;
  }

  abbrev pub as_cancelled : HostedSession S → HostedSession S
  as_cancelled s = record s { status = cancelled; expires_at = none }

  -- The session that the index names for an identifier.
  abbrev pub indexed : String → RedisStore S → Option (HostedSession S)
  indexed id r = elim (get id r.by_id) [ none ↦ none | some token ↦ get token r.by_token ]

  -- The loop over `sessionIds`, with what remains after it.
  unfoldable pub cancel_indexed :
      List String → List String → RedisStore S → List String × RedisStore S
  cancel_indexed [] remaining r = (remaining, r)
  cancel_indexed (id ∷ ids) remaining r = elim (indexed id r) [
    | none ↦ cancel_indexed ids remaining r
    | some s ↦ cancel_indexed ids (without id remaining) (write_session (as_cancelled s) r)
  ]

  -- The scan over the keys of the sessions. Where it stops early, nothing remains.
  unfoldable pub cancel_scanned :
      List String → List String → RedisStore S → List String × RedisStore S
  cancel_scanned [] remaining r = (remaining, r)
  cancel_scanned (token ∷ tokens) remaining r = elim (get token r.by_token) [
    | none ↦ cancel_scanned tokens remaining r
    | some s ↦ elim (contains s.id remaining) [
      | false ↦ cancel_scanned tokens remaining r
      | true ↦ cancel_scanned tokens (without s.id remaining) (write_session (as_cancelled s) r)
    ]
  ]

  unfoldable pub cancel_by_ids : List String → RedisStore S → RedisStore S
  unfolding cancel_indexed cancel_scanned write_session
  cancel_by_ids ids r =
      let (remaining, indexed_done) = cancel_indexed ids ids r in
      (cancel_scanned (keys indexed_done.by_token) remaining indexed_done).1

  -- `cancelSessions`: memory forgets the sessions, then the cache cancels them.
  unfoldable pub cancel_sessions :
      List String → Map (HostedSession S) → RedisStore S → Map (HostedSession S) × RedisStore S
  unfolding drop_ids cancel_by_ids
  cancel_sessions ids sessions r = (drop_ids ids sessions, cancel_by_ids ids r)
