-- ===== src/Sessions/Denial.antt =====
-- A session that was cancelled through `cancelSessions` is not served any more.
use agent_benchmark.Common.{
  String, true, false, ◌==◌, none, some, ◌≡◌, refl, List, get, put, contains, map_option, ap, ◌∙◌,
  sym, subst, if◌then◌else◌,
}
use agent_benchmark.Sessions.{HostedSession, World, Deps}
use agent_benchmark.Sessions.Access.{
  Reply, denied, get_session, access_cached, after_cache, with_mode,
}
use agent_benchmark.Sessions.Cached.{get-store, get-cached, get-remove_self}
use agent_benchmark.Sessions.Redis.{RedisStore, as_cancelled, cancel_sessions, cancel_by_ids}
use agent_benchmark.Sessions.Cancelling.{IsCoherent}
use agent_benchmark.Sessions.Cancelled.{cancel_by_ids_lem, cancel_asked}

module _ {S : Type 0} where
  -- The world after `cancelSessions`, with the sessions of Redis as its cache.
  unfoldable pub after_cancel : List String → World S → RedisStore S → World S
  unfolding cancel_sessions
  after_cancel ids w r =
      let (sessions, store) = cancel_sessions ids w.sessions r in
      record w { sessions = sessions; cache = some store.by_token }

  -- Denied, with no call made and nothing left in memory.
  pub record IsRefused (token : String) (w : World S) (r : World S × Reply S) : Type 0 where
    pub reply : r.1 ≡ denied
    pub silent : r.0.effects ≡ w.effects
    pub not_held : get token r.0.sessions ≡ none

  cached-Refused :
      (d : Deps S) (token : String) (s : HostedSession S) (w : World S)
      → IsRefused s.token w (after_cache d token (access_cached d token (as_cancelled s) w))
  unfolding access_cached
  cached-Refused d token s w = record {
    reply = refl;
    silent = refl;
    not_held = get-remove_self s.token (put token (with_mode d (as_cancelled s)) w.sessions);
  }

  -- After a cancellation that asks for a session of a coherent store, a request with its token is
  -- denied while the cache answers; no access and no expiry is reported, and memory drops the session.
  pub cancel-Refused :
      (d : Deps S) (ids : List String) (token : String) (s : HostedSession S) (w : World S)
      (r : RedisStore S)
      → IsCoherent ids r
      → get token r.by_token ≡ some s
      → contains s.id ids ≡ true
      → (token == "") ≡ false
      → d.verify_viewer_token token ≡ none
      → d.cache_reads ≡ true
      → IsRefused s.token w (get_session d (some token) (after_cancel ids w r))
  unfolding after_cancel
  cancel-Refused d ids token s w r coherent held asked given writer reads =
      let w' = after_cancel ids w r in
      let now : get token (cancel_by_ids ids r).by_token ≡ some (as_cancelled s) =
        cancel_by_ids_lem ids r coherent token
        ∙ (ap (map_option (cancel_asked ids)) held
            ∙ ap (λ b. some (if b then as_cancelled s else s)) asked) in
      let found : get_session d (some token) w'
          ≡ after_cache d token (access_cached d token (as_cancelled s) w') =
        get-store d token w' given writer
        ∙ get-cached d token (as_cancelled s) w' (cancel_by_ids ids r).by_token refl now reads in
      let refused = cached-Refused d token s w' in
      subst (IsRefused s.token w) (sym found)
        (record { reply = refused.reply; silent = refused.silent; not_held = refused.not_held })
