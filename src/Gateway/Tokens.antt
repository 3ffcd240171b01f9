-- ===== src/Gateway/Tokens.antt =====
-- A token from the login handler at the endpoints that ask for one.
use temp_task.Prelude.{◌≡◌, ◌≢◌, refl, ◌++◌, ℤ, pos, ◌+ℤ◌, ◌≤ℤ◌, ◌<ℤ◌, IsInt32, ok, Str, str}
use temp_task.Auth.{
  JwtLaws, invalid_token, generate_token, check_auth, component_secret, bearer_prefix,
}
use temp_task.Auth.Laws.{verified-generate, verified-expired}
use temp_task.Handlers.{Services, Request, Readings, World}
use temp_task.Handlers.Service.{Route, handle, registers, logs_in}
use temp_task.Gateway.{Server, ServerLaws, Unchanged, guarded, checker_secret}
use temp_task.Gateway.Attribution.{protected_lem}

-- A token that was generated for a user, sent in the header after the prefix, has the request handled as that
-- user's at every endpoint but those that register and log in, with the configured secret, from the time of issue until a second
-- before its 24 hours are over, for every id in the range of `int`.
pub guarded-generate_token :
    (s : Services) (server : Server s) (route : Route) (request : Request) (at : Readings)
    (user_id issued_now expires_now now : ℤ) (w : World s)
    → JwtLaws s.jwt
    → route ≢ registers
    → route ≢ logs_in
    → IsInt32 user_id
    → issued_now ≤ℤ now
    → now +ℤ pos 1000000000 ≤ℤ expires_now +ℤ pos 86400000000000
    → guarded s server route request at checker_secret
        (bearer_prefix ++ generate_token s.jwt user_id issued_now expires_now)
        now
        w
      ≡ handle s route (record request { user_id = ok user_id }) at w
unfolding guarded checker_secret component_secret check_auth
guarded-generate_token s server route request at user_id issued_now expires_now now w laws h k range
      issued lasting =
    rw
      (
        protected_lem route h k,
        guarded,
        verified-generate s.jwt laws user_id issued_now expires_now now range issued lasting,
      )
      refl

-- A token that was generated for a user, sent in the header after the prefix, is refused at every endpoint
-- but those that register and log in, with the configured secret, once its 24 hours are over: the outcome is the server's
-- refusal with the status `invalid_token` and a reason that begins as the check's, no handler is reached, and nothing
-- but the response changes. A refusal by the server must change nothing but the response.
pub guarded-Unchanged :
    (s : Services) (server : Server s) (route : Route) (request : Request) (at : Readings)
    (user_id issued_now expires_now now : ℤ) (w : World s)
    → JwtLaws s.jwt
    → ServerLaws s server
    → route ≢ registers
    → route ≢ logs_in
    → expires_now +ℤ pos 86400000000000 <ℤ now
    → (m : Str) × (guarded s server route request at checker_secret
          (bearer_prefix ++ generate_token s.jwt user_id issued_now expires_now)
          now
          w
        ≡ server.refuse
            (record { status = invalid_token; reason = str "Token verification failed: " ++ m })
            w)
      × Unchanged s w
          (guarded s server route request at checker_secret
            (bearer_prefix ++ generate_token s.jwt user_id issued_now expires_now)
            now
            w).1
unfolding guarded checker_secret component_secret check_auth
guarded-Unchanged s server route request at user_id issued_now expires_now now w laws server_laws h
      k over =
    let (m, thrown) = verified-expired s.jwt laws user_id issued_now expires_now now over in
    (
      m,
      rw (protected_lem route h k, guarded, thrown) refl,
      rw (protected_lem route h k, guarded, thrown) (server_laws.refuse-Unchanged _ w),
    )
