-- ===== src/Sessions/Cancelled.antt =====
-- After a cancellation by identifiers: the two loops of `cancelByIds` reach every session together.
use agent_benchmark.Common.{
  Subset_refl, String, true, false, ◌==◌, Option, none, some, List, [], ◌∷◌, ◌≡◌, refl,
  if◌then◌else◌, Map, get, contains, keys, map_option, arith, eq_iff, Bool-cases, Option-cases, inl,
  inr, Subset, sym, ◌∙◌, ap, subst, All, contains_of_Subset,
}
use agent_benchmark.Sessions.{HostedSession}
use agent_benchmark.Sessions.Redis.{
  RedisStore, without, write_session, as_cancelled, indexed, cancel_indexed, cancel_scanned,
  cancel_by_ids,
}
use agent_benchmark.Sessions.Cancelling.{IsCoherent, so_far, Progress, step-done, contains-without}

Subset-without : (x : String) (xs ys : List String) → Subset xs ys → Subset (without x xs) ys
Subset-without x [] ys h = tt
Subset-without x (y ∷ xs) ys (p, h) = ground (arith, p, Subset-without x xs ys h)

key-All {ℓ} :
    {V : Type 0} (P : String → Type ℓ) (m : Map V) (t : String) (v : V)
    → All P (keys m)
    → get t m ≡ some v
    → P t
unfolding get
key-All P [] t v _ e = cc
key-All P ((i, w) ∷ m) t v (p, h) e = elim (Bool-cases (i == t)) [
  | inl same ↦ subst P ((eq_iff i t).0 same) p
  | inr other ↦ key-All P m t v h (ground (arith, e, other))
]

abbrev id_of : {S : Type 0} → Option (HostedSession S) → String → String
id_of none d = d
id_of (some s) d = s.id

-- What the cancellation makes of a session.
abbrev pub cancel_asked : {S : Type 0} → List String → HostedSession S → HostedSession S
cancel_asked ids s = if contains s.id ids then as_cancelled s else s

module _ {S : Type 0} (ids : List String) (start : RedisStore S)
    (coherent : IsCoherent ids start) where
  indexed-found :
      (i : String) (r : RedisStore S) (s : HostedSession S)
      → indexed i r ≡ some s
      → (t : String) × (get i r.by_id ≡ some t) × (get t r.by_token ≡ some s)
  indexed-found i r s e = named (get i r.by_id) refl e
    where
      named :
          (o : Option String)
          → get i r.by_id ≡ o
          → (elim o [ none ↦ none | some token ↦ get token r.by_token ]) ≡ some s
          → (t : String) × (get i r.by_id ≡ some t) × (get t r.by_token ≡ some s)
      named none h f = cc
      named (some t) h f = (t, h, f)

  abbrev Reached : List String × RedisStore S → Type 0
  Reached (remaining, r) = Progress ids start remaining r × Subset remaining ids

  cancel_indexed-Reached :
      (xs remaining : List String) (r : RedisStore S)
      → Subset xs ids
      → Reached (remaining, r)
      → Reached (cancel_indexed xs remaining r)
  unfolding cancel_indexed
  cancel_indexed-Reached [] remaining r _ reached = reached
  cancel_indexed-Reached (x ∷ xs) remaining r (asked, more) (p, within) =
      elim (Option-cases (indexed x r)) [
        | inl missing ↦
            rw (missing, cancel_indexed) (cancel_indexed-Reached xs remaining r more (p, within))
        | inr (s, found) ↦
            let (t, named, held) = indexed-found x r s found in
            let own : s.id ≡ x = p.index_now x t s named held in
            rw (found, cancel_indexed)
              (cancel_indexed-Reached xs (without x remaining) (write_session (as_cancelled s) r)
                more
                (
                  subst
                      (λ y.
                        Progress ids start (without y remaining) (write_session (as_cancelled s) r))
                      own
                      (step-done ids start coherent remaining r t s p held
                        (subst (λ y. contains y ids ≡ true) (sym own) asked)),
                  Subset-without x remaining ids within,
                ))
      ]

  -- The scan's end: no session under a scanned token remains, and nothing comes back.
  record Scanned (tokens before : List String) (e : List String × RedisStore S) : Type 0 where
    reached : Reached e
    shrinks : (x : String) → contains x before ≡ false → contains x e.0 ≡ false
    scanned :
        All
          (λ t. (s : HostedSession S) → get t start.by_token ≡ some s → contains s.id e.0 ≡ false)
          tokens

  so_far-id :
      (remaining : List String) (s : HostedSession S) → (so_far ids start remaining s).id ≡ s.id
  so_far-id remaining s = ground (arith)

  same-id :
      (remaining : List String) (o : Option (HostedSession S)) (s s' : HostedSession S)
      → some s ≡ map_option (so_far ids start remaining) o
      → o ≡ some s'
      → s.id ≡ s'.id
  same-id remaining none s s' e f = cc
  same-id remaining (some v) s s' e f =
      ap (λ o. id_of o s.id) e ∙ (so_far-id remaining v ∙ ap (λ o. id_of o s.id) f)

  -- One more token was scanned, whose session does not remain.
  more-Scanned :
      (t : String) (tokens before mid : List String) (e : List String × RedisStore S)
      → ((x : String) → contains x before ≡ false → contains x mid ≡ false)
      → ((s : HostedSession S) → get t start.by_token ≡ some s → contains s.id mid ≡ false)
      → Scanned tokens mid e
      → Scanned (t ∷ tokens) before e
  more-Scanned t tokens before mid e less gone sc = record {
    reached = sc.reached;
    shrinks = λ x h. sc.shrinks x (less x h);
    scanned = (λ s at. sc.shrinks s.id (gone s at), sc.scanned);
  }

  cancel_scanned-Scanned :
      (tokens remaining : List String) (r : RedisStore S)
      → Reached (remaining, r)
      → Scanned tokens remaining (cancel_scanned tokens remaining r)
  unfolding cancel_scanned
  cancel_scanned-Scanned [] remaining r reached = record {
    reached = reached;
    shrinks = λ x h. h;
    scanned = tt;
  }
  cancel_scanned-Scanned (t ∷ tokens) remaining r (p, within) =
      elim (Option-cases (get t r.by_token)) [
        | inl missing ↦
            rw (missing, cancel_scanned)
              (more-Scanned t tokens remaining remaining _ (λ x h. h)
                (λ s at.
                  cc (sym missing ∙ (p.done t ∙ ap (map_option (so_far ids start remaining)) at)))
                (cancel_scanned-Scanned tokens remaining r (p, within)))
        | inr (s, found) ↦
            let same = λ (v : HostedSession S) (at : get t start.by_token ≡ some v).
              same-id remaining (get t start.by_token) s v (sym found ∙ p.done t) at in
            elim (Bool-cases (contains s.id remaining)) [
              | inr done ↦
                  rw (found, done, cancel_scanned)
                    (more-Scanned t tokens remaining remaining _ (λ x h. h)
                      (λ v at. subst (λ y. contains y remaining ≡ false) (same v at) done)
                      (cancel_scanned-Scanned tokens remaining r (p, within)))
              | inl due ↦
                  rw (found, due, cancel_scanned)
                    (more-Scanned t tokens remaining (without s.id remaining) _
                      (λ x h. ground (arith, contains-without s.id x remaining, h))
                      (λ v at.
                        subst (λ y. contains y (without s.id remaining) ≡ false) (same v at)
                          (ground (arith, contains-without s.id s.id remaining, eq_iff s.id s.id)))
                      (cancel_scanned-Scanned tokens (without s.id remaining)
                        (write_session (as_cancelled s) r)
                        (
                          step-done ids start coherent remaining r t s p found
                              (contains_of_Subset s.id remaining ids within due),
                          Subset-without s.id remaining ids within,
                        )))
            ]
      ]

  -- Nothing is cancelled at the start.
  start-Progress : Progress ids start ids start
  start-Progress = record {
    done = λ t. untouched (get t start.by_token);
    index_now = coherent.index;
  }
    where
      untouched : (o : Option (HostedSession S)) → o ≡ map_option (so_far ids start ids) o
      untouched none = refl
      untouched (some s) = ground arith

  ends-cancelled :
      (t : String) (remaining : List String) (r : RedisStore S)
      → ((s : HostedSession S) → get t start.by_token ≡ some s → contains s.id remaining ≡ false)
      → Progress ids start remaining r
      → get t r.by_token ≡ map_option (cancel_asked ids) (get t start.by_token)
  ends-cancelled t remaining r gone p = p.done t ∙ settled (get t start.by_token) gone
    where
      settled :
          (o : Option (HostedSession S))
          → ((s : HostedSession S) → o ≡ some s → contains s.id remaining ≡ false)
          → map_option (so_far ids start remaining) o ≡ map_option (cancel_asked ids) o
      settled none h = refl
      settled (some s) h = ground (arith, h s refl)

  -- A session that is asked for and still held after the first loop is under a scanned token.
  scan-covers :
      (e : List String × RedisStore S)
      → Reached e
      → (t : String)
      → get t (cancel_scanned (keys e.1.by_token) e.0 e.1).1.by_token
        ≡ map_option (cancel_asked ids) (get t start.by_token)
  scan-covers e (p, within) t =
      let sc = cancel_scanned-Scanned (keys e.1.by_token) e.0 e.1 (p, within) in
      ends-cancelled t _ _
        (λ s at.
          let (s', held) = held-now e.0 (get t start.by_token) s at in
          key-All
            (λ u.
              (v : HostedSession S)
              → get u start.by_token ≡ some v
              → contains v.id (cancel_scanned (keys e.1.by_token) e.0 e.1).0 ≡ false)
            e.1.by_token t s' sc.scanned (p.done t ∙ held) s at)
        sc.reached.0
    where
      held-now :
          (remaining : List String) (o : Option (HostedSession S)) (s : HostedSession S)
          → o ≡ some s
          → (s' : HostedSession S) × (map_option (so_far ids start remaining) o ≡ some s')
      held-now remaining none s h = cc
      held-now remaining (some v) s h = (so_far ids start remaining v, refl)

  -- In a store where every session stands under its own token, no two have the same identifier and the
  -- index names no other session's token, a cancellation by identifiers leaves exactly the sessions it
  -- is asked for cancelled and without an end, whether the index holds them or not, and leaves every
  -- other session as it was.
  pub cancel_by_ids_lem :
      (t : String)
      → get t (cancel_by_ids ids start).by_token
        ≡ map_option (cancel_asked ids) (get t start.by_token)
  unfolding cancel_by_ids
  cancel_by_ids_lem t =
      scan-covers (cancel_indexed ids ids start)
        (cancel_indexed-Reached ids ids start (Subset_refl ids) (start-Progress, Subset_refl ids)) t
