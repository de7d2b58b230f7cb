-- ===== src/Sessions/Cached.antt =====
-- What becomes of a session that the cache holds, by its status and its time.
use mathlib.Core.List.{append_assoc}
use agent_benchmark.Common.{
  ℕ, String, Bool, true, false, ◌||◌, ◌==◌, Option, none, some, List, [], ◌∷◌, ◌++◌, ◌≡◌, arith,
  ◌∙◌, ap, sym, subst, Option-cases, inl, inr, refl, get, put, remove, get-remove, eq_iff,
  map_option,
}
use agent_benchmark.Sessions.{
  HostedSession, World, Deps, is_cancelled, is_expired_status, persist_access, session_expired,
  Effect,
}
use agent_benchmark.Sessions.Store.{
  some_attempt, is_expired, mark_session_expired, record_session_access, accessed,
  delete_cached_session,
}
use agent_benchmark.Sessions.Access.{
  Reply, granted, denied, threw, settle_access, access_cached, access_store, get_session,
  after_read, deny_if_done, with_mode, holding, after_cache, by_cache, access_viewer,
}
use agent_benchmark.Sessions.Granting.{IsOpen}

module _ {S : Type 0} where
  -- The calls that an expired session causes.
  abbrev pub expiry_reports_of : HostedSession S → List Effect
  expiry_reports_of s =
      persist_access s.id "session.expired_rejected" ∷ elim (some_attempt s.attempt_id) [
        | none ↦ []
        | some attempt ↦ session_expired attempt s.id ∷ []
      ]

  abbrev pub is_over : ℕ → HostedSession S → Bool
  is_over now s = is_expired now s || is_expired_status s.status

  abbrev pub Lacks : String → Option (List (String × HostedSession S)) → Type 0
  Lacks token none = Unit
  Lacks token (some cache) = get token cache ≡ none

  -- Neither memory nor the cache holds the token.
  pub record IsForgotten (token : String) (w : World S) : Type 0 where
    pub in_memory : get token w.sessions ≡ none
    pub in_cache : Lacks token w.cache

  -- A cancelled session is denied without a report; an expired one is denied, reported and forgotten;
  -- an open one is granted with one more access.
  pub record Settles (d : Deps S) (s : HostedSession S) (w : World S) (r : World S × Reply S)
      : Type 0 where
    pub if_cancelled :
        is_cancelled s.status ≡ true
        → (r.1 ≡ denied) × (get s.token r.0.sessions ≡ none) × (r.0.effects ≡ w.effects)
    pub if_over :
        is_cancelled s.status ≡ false
        → is_over d.now_ms s ≡ true
        → (r.1 ≡ denied)
          × IsForgotten s.token r.0
          × (r.0.effects ≡ w.effects ++ expiry_reports_of s)
    pub if_open : IsOpen d.now_ms s → r.1 ≡ granted (accessed d (with_mode d s))

  pub get-remove_self :
      (k : String) (m : List (String × HostedSession S)) → get k (remove k m) ≡ none
  get-remove_self k m = ground (arith, get-remove k k m, eq_iff k k)

  Lacks-remove :
      (token : String) (o : Option (List (String × HostedSession S)))
      → Lacks token (map_option (remove token) o)
  Lacks-remove token none = tt
  Lacks-remove token (some cache) = get-remove_self token cache

  forgets :
      (d : Deps S) (token : String) (w : World S)
      → d.cache_deletes ≡ true
      → IsForgotten token (delete_cached_session d token w)
  unfolding delete_cached_session
  forgets d token w deletes = record {
    in_memory = get-remove_self token w.sessions;
    in_cache = rw deletes (Lacks-remove token w.cache);
  }

  -- The world after an expiry of which nothing threw.
  abbrev after_expiry : Deps S → HostedSession S → World S → World S
  after_expiry d s w =
      let dropped = delete_cached_session d s.token w in
      record dropped { effects = dropped.effects ++ expiry_reports_of s }

  forgets-expiry :
      (d : Deps S) (s : HostedSession S) (w : World S)
      → d.cache_deletes ≡ true
      → IsForgotten s.token (after_expiry d s w)
  forgets-expiry d s w deletes =
      let f = forgets d s.token w deletes in
      record { in_memory = f.in_memory; in_cache = f.in_cache }

  mark-done :
      (d : Deps S) (s : HostedSession S) (w : World S)
      → d.access_persists ≡ true
      → d.expiry_reports ≡ true
      → mark_session_expired d s w ≡ (after_expiry d s w, true)
  unfolding mark_session_expired
  mark-done d s w persists reports = elim (Option-cases (some_attempt s.attempt_id)) [
    | inl alone ↦ simp (persists, alone)
    | inr (attempt, of_attempt) ↦ simp (persists, reports, of_attempt, append_assoc)
  ]

  settle-over :
      (d : Deps S) (s : HostedSession S) (w : World S)
      → d.access_persists ≡ true
      → d.expiry_reports ≡ true
      → is_over d.now_ms s ≡ true
      → settle_access d s w ≡ (after_expiry d s w, denied)
  unfolding settle_access
  settle-over d s w persists reports over =
      rw (over, settle_access) (ap deny_if_done (mark-done d s w persists reports))

  settle-open :
      (d : Deps S) (s : HostedSession S) (w : World S)
      → d.access_persists ≡ true
      → IsOpen d.now_ms s
      → (settle_access d s w).1 ≡ granted (accessed d s)
  unfolding settle_access record_session_access
  settle-open d s w persists o = simp (o.in_time, o.not_expired, persists)

  after_cache-granted :
      (d : Deps S) (token : String) (s : HostedSession S) (r : World S × Reply S)
      → r.1 ≡ granted s
      → (after_cache d token r).1 ≡ granted s
  after_cache-granted d token s (w, granted t) e = e
  after_cache-granted d token s (w, denied) e = cc
  after_cache-granted d token s (w, threw) e = cc

  access_cached-Settles :
      (d : Deps S) (token : String) (s : HostedSession S) (w : World S)
      → d.access_persists ≡ true
      → d.expiry_reports ≡ true
      → d.cache_deletes ≡ true
      → Settles d s w (after_cache d token (access_cached d token s w))
  unfolding access_cached
  access_cached-Settles d token s w persists reports deletes = record {
    if_cancelled = λ gone.
        rw (gone, access_cached)
          (refl, get-remove_self s.token (put token (with_mode d s) w.sessions), refl);
    if_over = λ live over.
        rw (live, access_cached)
          (rw
            (settle-over d (with_mode d s) (holding token (with_mode d s) w) persists reports over)
            (
              refl,
              forgets-expiry d (with_mode d s) (holding token (with_mode d s) w) deletes,
              refl,
            ));
    if_open = λ o.
        rw (o.not_cancelled, access_cached)
          (after_cache-granted d token (accessed d (with_mode d s)) _ (
            settle-open d (with_mode d s) (holding token (with_mode d s) w) persists (record {
              in_time = o.in_time;
              not_cancelled = o.not_cancelled;
              not_expired = o.not_expired;
            })));
  }

  store-of :
      (d : Deps S) (token : String) (w : World S) (claims : Option String)
      → claims ≡ none
      → elim claims [ some id ↦ access_viewer d token id w | none ↦ access_store d token w ]
        ≡ access_store d token w
  store-of d token w none e = refl
  store-of d token w (some id) e = cc

  pub get-store :
      (d : Deps S) (token : String) (w : World S)
      → (token == "") ≡ false
      → d.verify_viewer_token token ≡ none
      → get_session d (some token) w ≡ access_store d token w
  unfolding get_session
  get-store d token w given writer = rw (given, get_session) (store-of d token w _ writer)

  pub get-cached :
      (d : Deps S) (token : String) (s : HostedSession S) (w : World S)
      (cache : List (String × HostedSession S))
      → w.cache ≡ some cache
      → get token cache ≡ some s
      → d.cache_reads ≡ true
      → access_store d token w ≡ after_cache d token (access_cached d token s w)
  unfolding access_store
  get-cached d token s w cache on found reads =
      ap (by_cache d token w) on
      ∙ (ap (λ b. after_read d token w b (get token cache)) reads
          ∙ ap (after_read d token w true) found)

  -- With a cache that holds a session under a token that is no viewer's, and calls that do not throw, a
  -- cancelled session is denied without a report, an expired one is denied, reported to the
  -- orchestrator if it is of an attempt, and forgotten by memory and cache, and any other is granted
  -- with one more access.
  pub get_session-Settles :
      (d : Deps S) (token : String) (s : HostedSession S) (w : World S)
      (cache : List (String × HostedSession S))
      → (token == "") ≡ false
      → d.verify_viewer_token token ≡ none
      → w.cache ≡ some cache
      → get token cache ≡ some s
      → d.cache_reads ≡ true
      → d.access_persists ≡ true
      → d.expiry_reports ≡ true
      → d.cache_deletes ≡ true
      → Settles d s w (get_session d (some token) w)
  get_session-Settles d token s w cache given writer on found reads persists reports deletes =
      subst (Settles d s w)
        (sym (get-store d token w given writer ∙ get-cached d token s w cache on found reads))
        (access_cached-Settles d token s w persists reports deletes)
