-- ===== src/Sessions/CancelTests.antt =====
-- Two sessions in Redis, of which one is cancelled: its index entry is there, or it is not.
use agent_benchmark.Sessions.Tokens.{
  TokenCoding, claims_json, create_hosted_viewer_token, verify_hosted_viewer_token, verify-create,
  split_dots,
}
use agent_benchmark.Common.{
  [], ◌∷◌, ◌≡◌, refl, some, get, put, map_option, arith, eq_iff, Map, none,
}
use agent_benchmark.Json.{Json, object}
use agent_benchmark.Sessions.{HostedSession}
use agent_benchmark.Sessions.Access.{get_session}
use agent_benchmark.Sessions.Cached.{Settles, get_session-Settles}
use agent_benchmark.Sessions.Redis.{RedisStore, as_cancelled, cancel_by_ids}
use agent_benchmark.Sessions.Cancelling.{IsCoherent}
use agent_benchmark.Sessions.Cancelled.{cancel_by_ids_lem, cancel_asked}
use agent_benchmark.Sessions.Denial.{IsRefused, after_cancel, cancel-Refused}
use agent_benchmark.Sessions.Tests.{session, at, world}

abbrev other_session : HostedSession Json
other_session = record session { id = "hws2"; token = "tok2" }

abbrev stored : Map (HostedSession Json)
stored = ("tok1", session) ∷ ("tok2", other_session) ∷ []

abbrev redis : RedisStore Json
redis = record { by_token = stored; by_id = ("hws2", "tok2") ∷ [] }

cancel_run :
    (cancel_by_ids ("hws1" ∷ []) redis).by_token
    ≡ ("tok1", as_cancelled session) ∷ ("tok2", other_session) ∷ []
unfolding cancel_by_ids get put
cancel_run = refl

redis-IsCoherent : IsCoherent ("hws1" ∷ []) redis
unfolding get
redis-IsCoherent = record {
  own_token = λ t s e. ground (arith, e, eq_iff "tok1" t, eq_iff "tok2" t);
  one_token = λ t u s v e f same. ground (
    arith,
    e,
    f,
    same,
    eq_iff "tok1" t,
    eq_iff "tok2" t,
    eq_iff "tok1" u,
    eq_iff "tok2" u,
    eq_iff "hws1" "hws2",
  );
  index = λ i t s e f.
      ground (arith, e, f, eq_iff "tok1" "tok2", eq_iff "hws2" i, eq_iff "tok1" t, eq_iff "tok2" t);
}

cancel_by_ids_lem_example :
    get "tok1" (cancel_by_ids ("hws1" ∷ []) redis).by_token
    ≡ map_option (cancel_asked ("hws1" ∷ [])) (get "tok1" stored)
cancel_by_ids_lem_example = cancel_by_ids_lem ("hws1" ∷ []) redis redis-IsCoherent "tok1"

cancel-Refused_example :
    IsRefused "tok1" world
      (get_session (at 10) (some "tok1") (after_cancel ("hws1" ∷ []) world redis))
unfolding get
cancel-Refused_example =
    cancel-Refused (at 10) ("hws1" ∷ []) "tok1" session world redis redis-IsCoherent refl refl refl
      refl refl

get_session-Settles_example :
    Settles (at 1000) session world (get_session (at 1000) (some "tok1") world)
unfolding get
get_session-Settles_example =
    get_session-Settles (at 1000) "tok1" session world (("tok1", session) ∷ []) refl refl refl refl
      refl refl refl refl

-- A coding for the claims of one token.
abbrev coding : TokenCoding
coding = record {
  encode = λ s. s;
  decode = λ s. s;
  sign = λ payload secret. "signed";
  stringify = λ fs. "claims";
  parse = λ s. some (object (claims_json "s1" 900));
}

forged_run : verify_hosted_viewer_token coding "view.v1.claims.forged" (some "key") 800 ≡ none
unfolding verify_hosted_viewer_token split_dots
forged_run = refl

verify-create_example :
    verify_hosted_viewer_token coding "view.v1.claims.signed" (some "key") 800
    ≡ some (record { session_id = "s1"; expires_at = 900 })
verify-create_example =
    verify-create coding "s1" "key" "view.v1.claims.signed" 900 800
      (record {
        plain = refl;
        filled = refl;
        decoded = refl;
        parsed = refl;
        signed_plain = refl;
        signed_filled = refl;
      })
      (unfold create_hosted_viewer_token in refl)
