-- ===== src/Sessions/Cancelling.antt =====
-- The cancellation in Redis reaches every session that it is asked for, and no other.
use agent_benchmark.Common.{
  String, Bool, true, false, not, ◌==◌, ◌&&◌, Option, none, some, List, [], ◌∷◌, ◌≡◌, refl,
  if◌then◌else◌, get, put, contains, map_option, arith, eq_iff, Bool-cases, get_or, inl, inr,
  get-put, sym, ◌∙◌, ap, subst,
}
use agent_benchmark.Sessions.{HostedSession}
use agent_benchmark.Sessions.Redis.{RedisStore, without, write_session, as_cancelled}

pub contains-without :
    (x y : String) (xs : List String)
    → contains y (without x xs) ≡ (if x == y then false else contains y xs)
contains-without x y [] = ground arith
contains-without x y (z ∷ xs) =
    ground (arith, eq_iff x y, eq_iff z x, eq_iff z y, contains-without x y xs)

different : (x y : String) → (x ≡ y → ⊥) → (x == y) ≡ false
different x y h = elim (Bool-cases (x == y)) [
  | inl same ↦ absurd (h ((eq_iff x y).0 same))
  | inr other ↦ other
]

apart : (x y : String) → (x == y) ≡ false → x ≡ y → ⊥
apart x y h e = cc (h, (eq_iff x y).1 e)

module _ {S : Type 0} (ids : List String) (start : RedisStore S) where
  -- Every session stands under its own token, and no two have the same identifier.
  pub record IsCoherent : Type 0 where
    pub own_token : (t : String) (s : HostedSession S) → get t start.by_token ≡ some s → s.token ≡ t
    pub one_token :
        (t u : String) (s v : HostedSession S)
        → get t start.by_token ≡ some s
        → get u start.by_token ≡ some v
        → s.id ≡ v.id
        → t ≡ u
    -- The index may lack an identifier, and names no other session's token.
    pub index :
        (i t : String) (s : HostedSession S)
        → get i start.by_id ≡ some t
        → get t start.by_token ≡ some s
        → s.id ≡ i

  -- What has become of a session while `remaining` are to be cancelled.
  abbrev pub so_far : List String → HostedSession S → HostedSession S
  so_far remaining s =
      if contains s.id ids && not (contains s.id remaining) then as_cancelled s else s

  pub record Progress (remaining : List String) (r : RedisStore S) : Type 0 where
    pub done :
        (t : String) → get t r.by_token ≡ map_option (so_far remaining) (get t start.by_token)
    pub index_now :
        (i t : String) (s : HostedSession S)
        → get i r.by_id ≡ some t
        → get t r.by_token ≡ some s
        → s.id ≡ i

  -- A session that is found now is one of the start, cancelled or not.
  record ComesFrom (s s' : HostedSession S) : Type 0 where
    same_id : s.id ≡ s'.id
    same_token : s.token ≡ s'.token
    same_end : as_cancelled s ≡ as_cancelled s'

  chosen-ComesFrom :
      (b : Bool) (s s' : HostedSession S) → (if b then as_cancelled s' else s') ≡ s → ComesFrom s s'
  chosen-ComesFrom true s s' e = record {
    same_id = ap (λ x. x.id) (sym e);
    same_token = ap (λ x. x.token) (sym e);
    same_end = ap (λ x. as_cancelled x) (sym e);
  }
  chosen-ComesFrom false s s' e = record {
    same_id = ap (λ x. x.id) (sym e);
    same_token = ap (λ x. x.token) (sym e);
    same_end = ap (λ x. as_cancelled x) (sym e);
  }

  found-start :
      (remaining : List String) (o : Option (HostedSession S)) (s : HostedSession S)
      → map_option (so_far remaining) o ≡ some s
      → (s' : HostedSession S) × (o ≡ some s') × ComesFrom s s'
  found-start remaining none s e = cc
  found-start remaining (some s') s e = (
    s',
    refl,
    chosen-ComesFrom (contains s'.id ids && not (contains s'.id remaining)) s s'
        (ap (λ o. get_or o s') e),
  )

  asked_and_done :
      (remaining : List String) (s s' : HostedSession S)
      → ComesFrom s s'
      → contains s.id ids ≡ true
      → (contains s'.id ids && not (contains s'.id (without s.id remaining))) ≡ true
  asked_and_done remaining s s' c asked =
      ground (arith, contains-without s.id s'.id remaining, eq_iff s.id s'.id, c.same_id, asked)

  -- The session that was found is cancelled now.
  cancelled_now :
      (remaining : List String) (s s' : HostedSession S)
      → ComesFrom s s'
      → contains s.id ids ≡ true
      → as_cancelled s ≡ so_far (without s.id remaining) s'
  cancelled_now remaining s s' c asked =
      c.same_end
      ∙ sym (ap (λ b. if b then as_cancelled s' else s') (asked_and_done remaining s s' c asked))

  -- Any other is as it was.
  others_stay :
      (remaining : List String) (x : String) (o : Option (HostedSession S))
      → ((v : HostedSession S) → o ≡ some v → (x == v.id) ≡ false)
      → map_option (so_far remaining) o ≡ map_option (so_far (without x remaining)) o
  others_stay remaining x none h = refl
  others_stay remaining x (some v) h =
      ap (λ b. some (if contains v.id ids && not b then as_cancelled v else v))
        (sym (rw (contains-without x v.id remaining, h v refl) refl))

  written :
      (t : String) (s : HostedSession S) (r : RedisStore S)
      → (s.token == t) ≡ true
      → get t (put s.token (as_cancelled s) r.by_token) ≡ some (as_cancelled s)
  written t s r same =
      get-put s.token t (as_cancelled s) r.by_token
      ∙ ap (λ b. if b then some (as_cancelled s) else get t r.by_token) same

  unwritten :
      (t : String) (s : HostedSession S) (r : RedisStore S)
      → (s.token == t) ≡ false
      → get t (put s.token (as_cancelled s) r.by_token) ≡ get t r.by_token
  unwritten t s r other =
      get-put s.token t (as_cancelled s) r.by_token
      ∙ ap (λ b. if b then some (as_cancelled s) else get t r.by_token) other

  module _ (coherent : IsCoherent) where
    pub step-done :
        (remaining : List String) (r : RedisStore S) (k : String) (s : HostedSession S)
        → Progress remaining r
        → get k r.by_token ≡ some s
        → contains s.id ids ≡ true
        → Progress (without s.id remaining) (write_session (as_cancelled s) r)
    unfolding write_session
    step-done remaining r k s p found asked =
        let (s', at_start, from) =
          found-start remaining (get k start.by_token) s (sym (p.done k) ∙ found) in
        let own : s.token ≡ k = from.same_token ∙ coherent.own_token k s' at_start in
        record {
          done = λ t. elim (Bool-cases (s.token == t)) [
            | inl same ↦
                let here : k ≡ t = sym own ∙ (eq_iff s.token t).0 same in
                written t s r same
                ∙ (ap some (cancelled_now remaining s s' from asked)
                    ∙ sym (
                        ap (map_option (so_far (without s.id remaining)))
                          (subst (λ x. get x start.by_token ≡ some s') here at_start)))
            | inr other ↦
                unwritten t s r other
                ∙ (p.done t
                    ∙ others_stay remaining s.id (get t start.by_token) (λ v at_v.
                      different s.id v.id (λ e.
                        apart s.token t other (
                          own ∙ coherent.one_token k t s' v at_start at_v (sym from.same_id ∙ e)))))
          ];
          index_now = λ i t u named held. ground (
            arith,
            named,
            held,
            get-put s.id i s.token r.by_id,
            get-put s.token t (as_cancelled s) r.by_token,
            eq_iff s.id i,
            eq_iff s.token t,
            p.index_now i t s,
            p.index_now i t u,
            found,
            own,
          );
        }
