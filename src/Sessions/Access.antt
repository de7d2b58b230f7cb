-- ===== src/Sessions/Access.antt =====
-- `getSession` of apps/hosted-sites/src/runtime/session-store.ts: what a request with a token gets.
use agent_benchmark.Common.{
  String, Bool, true, false, ◌||◌, ◌==◌, Option, none, some, if◌then◌else◌, Map, get, put, remove,
}
use agent_benchmark.Sessions.{
  HostedSession, write, viewer, World, Deps, is_cancelled, is_expired_status,
}
use agent_benchmark.Sessions.Store.{
  is_expired, is_unavailable, cache_session, delete_cached_session, mark_session_expired,
  record_session_access, accessed, refresh,
}
use agent_benchmark.Sessions.Metadata.{hydrate_session_from_metadata}

-- `denied` is null, `threw` an exception that reaches the caller.
pub data Reply (S : Type 0) : Type 0 where
  granted : HostedSession S → Reply S
  denied : Reply S
  threw : Reply S

module _ {S : Type 0} where
  abbrev pub deny_if_done : World S × Bool → World S × Reply S
  deny_if_done (w, true) = (w, denied)
  deny_if_done (w, false) = (w, threw)

  abbrev pub grant_if_done : HostedSession S → World S × Bool → World S × Reply S
  grant_if_done s (w, true) = (w, granted s)
  grant_if_done s (w, false) = (w, threw)

  -- Reject an expired session or grant one that is open: the end that three branches share.
  unfoldable pub settle_access : Deps S → HostedSession S → World S → World S × Reply S
  unfolding mark_session_expired record_session_access
  settle_access d s w =
      if is_expired d.now_ms s || is_expired_status s.status
      then deny_if_done (mark_session_expired d s w)
      else grant_if_done (accessed d s) (record_session_access d s "session.access" w)

  abbrev pub with_mode : Deps S → HostedSession S → HostedSession S
  with_mode d s = record s { score_preview_mode = d.score_preview_mode }

  abbrev pub holding : String → HostedSession S → World S → World S
  holding token s w = record w { sessions = put token s w.sessions }

  abbrev pub dropping : String → World S → World S
  dropping token w = record w { sessions = remove token w.sessions }

  -- A session that the cache holds.
  unfoldable pub access_cached : Deps S → String → HostedSession S → World S → World S × Reply S
  unfolding settle_access
  access_cached d token found w =
      let cached = with_mode d found in
      if is_cancelled found.status
      then (dropping cached.token (holding token cached w), denied)
      else settle_access d cached (holding token cached w)

  -- A session that only memory holds.
  unfoldable pub access_existing : Deps S → HostedSession S → World S → World S × Reply S
  unfolding settle_access refresh delete_cached_session
  access_existing d found w =
      let existing = refresh d w found in
      if is_cancelled existing.status
      then (delete_cached_session d existing.token w, denied)
      else settle_access d existing w

  -- A session that is read back from the database.
  unfoldable pub access_recovered : Deps S → String → World S → World S × Reply S
  unfolding settle_access cache_session hydrate_session_from_metadata
  access_recovered d token w = elim (d.recover_by_token token) [
    | none ↦ (w, denied)
    | some row ↦
        let hydrated = hydrate_session_from_metadata d token row write in
        if is_cancelled hydrated.status
        then (w, denied)
        else if is_expired d.now_ms hydrated || is_expired_status hydrated.status
        then settle_access d hydrated w
        else settle_access d hydrated (cache_session d hydrated w)
  ]

  abbrev pub from_memory : Deps S → String → World S → Option (HostedSession S) → World S × Reply S
  from_memory d token w none = access_recovered d token w
  from_memory d token w (some existing) = access_existing d existing w

  -- What throws after the cache was read is caught, and the cache then counts as unavailable.
  abbrev pub after_cache : Deps S → String → World S × Reply S → World S × Reply S
  after_cache d token (w, granted s) = (w, granted s)
  after_cache d token (w, denied) = (w, denied)
  after_cache d token (w, threw) = from_memory d token w (get token w.sessions)

  unfoldable pub access_viewer : Deps S → String → String → World S → World S × Reply S
  unfolding hydrate_session_from_metadata
  access_viewer d token session_id w = elim (d.recover_by_id session_id) [
    | none ↦ (w, denied)
    | some row ↦
        let session = hydrate_session_from_metadata d token row viewer in
        if is_expired d.now_ms session || is_unavailable session
        then (w, denied)
        else (w, granted session)
  ]

  -- What a read of the cache answers: whether it throws, and what it finds if not.
  abbrev pub after_read :
      Deps S → String → World S → Bool → Option (HostedSession S) → World S × Reply S
  after_read d token w false found = from_memory d token w (get token w.sessions)
  after_read d token w true none = access_recovered d token w
  after_read d token w true (some found) = after_cache d token (access_cached d token found w)

  abbrev pub by_cache :
      Deps S → String → World S → Option (Map (HostedSession S)) → World S × Reply S
  by_cache d token w none = from_memory d token w (get token w.sessions)
  by_cache d token w (some cache) = after_read d token w d.cache_reads (get token cache)

  unfoldable pub access_store : Deps S → String → World S → World S × Reply S
  unfolding access_cached access_existing access_recovered get put remove
  access_store d token w = by_cache d token w w.cache

  -- A request without a token, or with an empty one, gets nothing.
  unfoldable pub get_session : Deps S → Option String → World S → World S × Reply S
  unfolding access_viewer access_store
  get_session d none w = (w, denied)
  get_session d (some token) w =
      if token == "" then (w, denied) else elim (d.verify_viewer_token token) [
        | some session_id ↦ access_viewer d token session_id w
        | none ↦ access_store d token w
      ]
