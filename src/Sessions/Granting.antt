-- ===== src/Sessions/Granting.antt =====
-- What a granted session is: open at the time of the request, and the one that memory holds.
use agent_benchmark.Common.{
  ℕ, String, Bool, true, false, ◌||◌, ◌==◌, Option, none, some, List, [], ◌∷◌, ◌++◌, ◌≡◌,
  if◌then◌else◌, Bool-cases, Option-cases, inl, inr, refl, get, get-put_self, or-eq_false, Map,
}
use agent_benchmark.Sessions.{
  HostedSession, write, viewer, World, Deps, is_cancelled, is_expired_status, persist_access,
  Effect,
}
use agent_benchmark.Sessions.Store.{
  is_expired, is_unavailable, mark_session_expired, record_session_access, accessed, refresh,
  cache_session, log,
}
use agent_benchmark.Sessions.Metadata.{hydrate_session_from_metadata, persist_session_snapshot}
use agent_benchmark.Sessions.Access.{
  Reply, granted, denied, threw, settle_access, access_cached, access_existing, access_recovered,
  access_viewer, access_store, get_session, from_memory, after_cache, deny_if_done, grant_if_done,
  with_mode, holding, after_read, by_cache,
}

module _ {S : Type 0} where
  -- The session can be used at a time.
  pub record IsOpen (now : ℕ) (s : HostedSession S) : Type 0 where
    pub in_time : is_expired now s ≡ false
    pub not_cancelled : is_cancelled s.status ≡ false
    pub not_expired : is_expired_status s.status ≡ false

  -- Memory holds the session, and its access was the last call.
  pub record IsHeld (w : World S) (s : HostedSession S) : Type 0 where
    pub held : get s.token w.sessions ≡ some s
    pub counted : (es : List Effect) × (w.effects ≡ es ++ persist_access s.id "session.access" ∷ [])

  abbrev pub Grants : ℕ → World S × Reply S → Type 0
  Grants now (w, granted s) = IsOpen now s × IsHeld w s
  Grants now (w, denied) = Unit
  Grants now (w, threw) = Unit

  deny-Grants : (now : ℕ) (r : World S × Bool) → Grants now (deny_if_done r)
  deny-Grants now (w, true) = tt
  deny-Grants now (w, false) = tt

  grant-Grants :
      (now : ℕ) (s : HostedSession S) (w : World S) (done : Bool)
      → IsOpen now s
      → IsHeld w s
      → Grants now (grant_if_done s (w, done))
  grant-Grants now s w true o h = (o, h)
  grant-Grants now s w false o h = tt

  record_session_access-Grants :
      (d : Deps S) (s : HostedSession S) (w : World S)
      → IsOpen d.now_ms s
      → Grants d.now_ms
          (grant_if_done (accessed d s) (record_session_access d s "session.access" w))
  unfolding record_session_access cache_session
  record_session_access-Grants d s w h =
      grant-Grants d.now_ms (accessed d s)
        (log (persist_access s.id "session.access") (cache_session d (accessed d s) w))
        d.access_persists
        (record {
          in_time = h.in_time;
          not_cancelled = h.not_cancelled;
          not_expired = h.not_expired;
        })
        (record {
          held = get-put_self s.token (accessed d s) w.sessions;
          counted = (w.effects, refl);
        })

  settle_access-Grants :
      (d : Deps S) (s : HostedSession S) (w : World S)
      → is_cancelled s.status ≡ false
      → Grants d.now_ms (settle_access d s w)
  unfolding settle_access
  settle_access-Grants d s w live =
      elim (Bool-cases (is_expired d.now_ms s || is_expired_status s.status)) [
        | inl over ↦ rw (over, settle_access) (deny-Grants d.now_ms (mark_session_expired d s w))
        | inr fine ↦
            rw (fine, settle_access)
              (record_session_access-Grants d s w (record {
                in_time = (or-eq_false _ _ fine).0;
                not_cancelled = live;
                not_expired = (or-eq_false _ _ fine).1;
              }))
      ]

  access_cached-Grants :
      (d : Deps S) (token : String) (s : HostedSession S) (w : World S)
      → Grants d.now_ms (access_cached d token s w)
  unfolding access_cached
  access_cached-Grants d token s w = elim (Bool-cases (is_cancelled s.status)) [
    | inl gone ↦ rw (gone, access_cached) tt
    | inr live ↦
        rw (live, access_cached)
          (settle_access-Grants d (with_mode d s) (holding token (with_mode d s) w) live)
  ]

  access_existing-Grants :
      (d : Deps S) (s : HostedSession S) (w : World S) → Grants d.now_ms (access_existing d s w)
  unfolding access_existing
  access_existing-Grants d s w = elim (Bool-cases (is_cancelled (refresh d w s).status)) [
    | inl gone ↦ rw (gone, access_existing) tt
    | inr live ↦ rw (live, access_existing) (settle_access-Grants d (refresh d w s) w live)
  ]

  recovered-Grants :
      (d : Deps S) (s : HostedSession S) (w : World S)
      → Grants d.now_ms (
          if is_cancelled s.status
          then (w, denied)
          else if is_expired d.now_ms s || is_expired_status s.status
          then settle_access d s w
          else settle_access d s (cache_session d s w))
  recovered-Grants d s w = elim (Bool-cases (is_cancelled s.status)) [
    | inl gone ↦ rw gone tt
    | inr live ↦ rw live (elim (Bool-cases (is_expired d.now_ms s || is_expired_status s.status)) [
      | inl over ↦ rw over (settle_access-Grants d s w live)
      | inr fine ↦ rw fine (settle_access-Grants d s (cache_session d s w) live)
    ])
  ]

  access_recovered-Grants :
      (d : Deps S) (token : String) (w : World S) → Grants d.now_ms (access_recovered d token w)
  unfolding access_recovered
  access_recovered-Grants d token w = elim (Option-cases (d.recover_by_token token)) [
    | inl missing ↦ rw (missing, access_recovered) tt
    | inr (row, found) ↦
        rw (found, access_recovered)
          (recovered-Grants d (hydrate_session_from_metadata d token row write) w)
  ]

  from_memory-Grants :
      (d : Deps S) (token : String) (w : World S) (o : Option (HostedSession S))
      → Grants d.now_ms (from_memory d token w o)
  from_memory-Grants d token w none = access_recovered-Grants d token w
  from_memory-Grants d token w (some s) = access_existing-Grants d s w

  after_cache-Grants :
      (d : Deps S) (token : String) (r : World S × Reply S)
      → Grants d.now_ms r
      → Grants d.now_ms (after_cache d token r)
  after_cache-Grants d token (w, granted s) g = g
  after_cache-Grants d token (w, denied) g = tt
  after_cache-Grants d token (w, threw) g = from_memory-Grants d token w (get token w.sessions)

  after_read-Grants :
      (d : Deps S) (token : String) (w : World S) (reads : Bool) (o : Option (HostedSession S))
      → Grants d.now_ms (after_read d token w reads o)
  after_read-Grants d token w false o = from_memory-Grants d token w (get token w.sessions)
  after_read-Grants d token w true none = access_recovered-Grants d token w
  after_read-Grants d token w true (some s) =
      after_cache-Grants d token (access_cached d token s w) (access_cached-Grants d token s w)

  by_cache-Grants :
      (d : Deps S) (token : String) (w : World S) (o : Option (Map (HostedSession S)))
      → Grants d.now_ms (by_cache d token w o)
  by_cache-Grants d token w none = from_memory-Grants d token w (get token w.sessions)
  by_cache-Grants d token w (some cache) =
      after_read-Grants d token w d.cache_reads (get token cache)

  access_store-Grants :
      (d : Deps S) (token : String) (w : World S) → Grants d.now_ms (access_store d token w)
  unfolding access_store
  access_store-Grants d token w = by_cache-Grants d token w w.cache

  -- What a viewer gets: an open session of its own mode, and nothing changes.
  abbrev pub Views : Deps S → World S → World S × Reply S → Type 0
  Views d w (w', granted s) =
      (w' ≡ w)
      × IsOpen d.now_ms s
      × (s.access_mode ≡ viewer)
      × ((v : World S) → persist_session_snapshot d s v ≡ v)
  Views d w (w', denied) = w' ≡ w
  Views d w (w', threw) = ⊥

  viewed-Views :
      (d : Deps S) (w : World S) (s : HostedSession S)
      → s.access_mode ≡ viewer
      → Views d w
          (if is_expired d.now_ms s || is_unavailable s then (w, denied) else (w, granted s))
  unfolding persist_session_snapshot
  viewed-Views d w s mode = elim (Bool-cases (is_expired d.now_ms s || is_unavailable s)) [
    | inl closed ↦ rw closed refl
    | inr fine ↦
        let (in_time, usable) = or-eq_false _ _ fine in
        rw fine (
          refl,
          record {
            in_time = in_time;
            not_cancelled = (or-eq_false _ _ usable).1;
            not_expired = (or-eq_false _ _ usable).0;
          },
          mode,
          λ v. rw (mode, persist_session_snapshot) refl,
        )
  ]

  access_viewer-Views :
      (d : Deps S) (token id : String) (w : World S) → Views d w (access_viewer d token id w)
  unfolding access_viewer hydrate_session_from_metadata
  access_viewer-Views d token id w = elim (Option-cases (d.recover_by_id id)) [
    | inl missing ↦ rw (missing, access_viewer) refl
    | inr (row, found) ↦
        rw (found, access_viewer)
          (viewed-Views d w (hydrate_session_from_metadata d token row viewer) refl)
  ]

  -- What a request gets, by the claims of its token.
  abbrev pub AnswersTo : Deps S → World S → Option String → World S × Reply S → Type 0
  AnswersTo d w none r = Grants d.now_ms r
  AnswersTo d w (some id) r = Views d w r

  abbrev pub Answers : Deps S → Option String → World S → World S × Reply S → Type 0
  Answers d none w r = r ≡ (w, denied)
  Answers d (some token) w r = AnswersTo d w (d.verify_viewer_token token) r

  store-Answers :
      (d : Deps S) (token : String) (w : World S) (claims : Option String)
      → AnswersTo d w claims
          (elim claims [ some id ↦ access_viewer d token id w | none ↦ access_store d token w ])
  store-Answers d token w none = access_store-Grants d token w
  store-Answers d token w (some id) = access_viewer-Views d token id w

  empty-Answers :
      (d : Deps S) (w : World S) (claims : Option String) → AnswersTo d w claims (w, denied)
  empty-Answers d w none = tt
  empty-Answers d w (some id) = refl

  -- A request without a token gets nothing and changes nothing. A viewer's token changes nothing, and
  -- what it gets is an open viewer's session that is never written back. Any other request gets only a
  -- session that is neither cancelled nor expired, in its status and in time, that memory holds, and
  -- whose access was reported last. This holds whatever the cache and the database answer and whichever
  -- calls throw.
  pub get_session-Answers :
      (d : Deps S) (token : Option String) (w : World S) → Answers d token w (get_session d token w)
  unfolding get_session
  get_session-Answers d none w = refl
  get_session-Answers d (some token) w = elim (Bool-cases (token == "")) [
    | inl empty ↦ rw (empty, get_session) (empty-Answers d w (d.verify_viewer_token token))
    | inr given ↦ rw (given, get_session) (store-Answers d token w (d.verify_viewer_token token))
  ]
