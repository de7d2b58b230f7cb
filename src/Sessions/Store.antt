-- ===== src/Sessions/Store.antt =====
-- apps/hosted-sites/src/runtime/session-store.ts: the operations on one session.
use agent_benchmark.Common.{
  ℕ, suc, String, Bool, true, false, not, ◌||◌, ◌==◌, Option, none, some, List, [], ◌∷◌, ◌++◌,
  if◌then◌else◌, leb, map_option, get_or, Map, put, remove, contains,
}
use agent_benchmark.Sessions.{
  HostedSession, completed, failed, Effect, persist_access, session_expired, World, Deps,
  status_of_text, is_cancelled, is_expired_status,
}

-- `if (!session.firstSeenIp)`: null, or the empty text.
abbrev pub first_seen : Option String → Option String → Option String
first_seen none new = new
first_seen (some old) new = if old == "" then new else some old

-- `if (session.attemptId)`: null and the empty text count as none.
abbrev pub some_attempt : Option String → Option String
some_attempt none = none
some_attempt (some attempt) = if attempt == "" then none else some attempt

module _ {S : Type 0} where
  abbrev pub is_expired : ℕ → HostedSession S → Bool
  is_expired now s = elim s.expires_at [ none ↦ false | some t ↦ leb t now ]

  abbrev pub is_unavailable : HostedSession S → Bool
  is_unavailable s = is_expired_status s.status || is_cancelled s.status

  unfoldable pub cache_session : Deps S → HostedSession S → World S → World S
  unfolding put
  cache_session d s w = record w {
    sessions = put s.token s w.sessions;
    cache = if d.cache_writes then map_option (put s.token s) w.cache else w.cache;
  }

  unfoldable pub delete_cached_session : Deps S → String → World S → World S
  unfolding remove
  delete_cached_session d token w = record w {
    sessions = remove token w.sessions;
    cache = if d.cache_deletes then map_option (remove token) w.cache else w.cache;
  }

  -- The sessions in memory that are cancelled, without the part that the cache does itself.
  unfoldable pub drop_ids : List String → Map (HostedSession S) → Map (HostedSession S)
  drop_ids ids [] = []
  drop_ids ids ((token, s) ∷ m) =
      if contains s.id ids then drop_ids ids m else (token, s) ∷ drop_ids ids m

  abbrev pub log : Effect → World S → World S
  log e w = record w { effects = w.effects ++ e ∷ [] }

  -- The second part says that no call threw.
  unfoldable pub mark_session_expired : Deps S → HostedSession S → World S → World S × Bool
  unfolding delete_cached_session
  mark_session_expired d s w =
      let dropped = delete_cached_session d s.token w in
      let asked = log (persist_access s.id "session.expired_rejected") dropped in
      if not d.access_persists then (asked, false) else elim (some_attempt s.attempt_id) [
        | none ↦ (asked, true)
        | some attempt ↦ (log (session_expired attempt s.id) asked, d.expiry_reports)
      ]

  abbrev pub accessed : Deps S → HostedSession S → HostedSession S
  accessed d s = record s {
    access_count = suc s.access_count;
    last_accessed_at = some d.now_ms;
    last_seen_ip = d.client_ip;
    last_seen_user_agent = d.client_user_agent;
    first_seen_ip = first_seen s.first_seen_ip d.client_ip;
    first_seen_user_agent = first_seen s.first_seen_user_agent d.client_user_agent;
  }

  unfoldable pub record_session_access :
      Deps S → HostedSession S → String → World S → World S × Bool
  unfolding cache_session
  record_session_access d s event w =
      (log (persist_access s.id event) (cache_session d (accessed d s) w), d.access_persists)

  -- `refreshPersistedSessionControlState`
  unfoldable pub refresh : Deps S → World S → HostedSession S → HostedSession S
  refresh d w s = elim w.cache [
    | some c ↦ s
    | none ↦ if not s.persisted then s else elim (d.recover_by_token s.token) [
      | none ↦ s
      | some row ↦ record s {
        status = get_or (status_of_text row.status) s.status;
        expires_at = elim row.expires_at [ none ↦ s.expires_at | some t ↦ some t ];
      }
    ]
  ]

  -- `result.status === "passed" ? "completed" : "failed"`
  unfoldable pub mark_session_terminal : Deps S → HostedSession S → Bool → World S → World S
  unfolding cache_session
  mark_session_terminal d s passed w =
      cache_session d (record s { status = if passed then completed else failed }) w
