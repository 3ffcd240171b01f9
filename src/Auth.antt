-- ===== src/Auth.antt =====
-- src/auth and src/handlers/auth_middleware.cpp: tokens, and the two checks of the Authorization
-- header. The JWT library is a parameter. Times are ticks (nanoseconds) of the system clock.
pub mod Laws
pub mod Headers
pub mod Sample
mod Tests
use temp_task.Prelude.{
  Bool, true, false, ◌||◌, not, List, [], ◌∷◌, Option, none, some, if◌then◌else◌, leb, length, take,
  drop, ◌==◌, ◌++◌, ℤ, pos, ◌+ℤ◌, Str, Str_eq, str, is_empty, starts_with, to_string, stoi, Dict,
  find, ◌≡◌, ◌≤ℤ◌, ◌<ℤ◌, Result, ok, throw, ◌>>=◌, ◌>>◌, Exception, token_verification,
  invalid_argument, out_of_range, std_exception, foreign,
}

-- What the builder of jwt::create() has been given.
pub record Claims : Type 0 where
  pub issuer : Str
  pub type : Str
  pub payload : Dict Str Str
  pub issued_at : ℤ
  pub expires_at : ℤ

-- jwt-cpp: `sign` with hs256 and a secret, `decode`, `verify` of a verifier that allows hs256 with
-- the secret and asks for the issuer, at a reading of the clock, and a string claim of the payload.
pub record JwtLib : Type 1 where
  pub Decoded : Type 0
  pub sign : Claims → Str → Str
  pub decode : Str → Result Decoded
  pub verify : Str → Str → ℤ → Decoded → Result (Unit {0})
  pub get_payload_claim : Decoded → Str → Result Str

-- What the code relies on. A signed token decodes and gives back the claims of its payload; its own
-- secret and issuer verify it from the time of issue until a second before it expires (the library
-- keeps whole seconds), and nothing verifies it after that; the empty text is no token.
pub record JwtLaws (jwt : JwtLib) : Type 0 where
  pub decoded : Claims → Str → jwt.Decoded
  pub decode-sign :
      (c : Claims) (secret : Str) → jwt.decode (jwt.sign c secret) ≡ ok (decoded c secret)
  pub decode-empty : (e : Exception) × (jwt.decode [] ≡ throw e)
  pub verify-valid :
      (c : Claims) (secret : Str) (now : ℤ)
      → c.issued_at ≤ℤ now
      → now +ℤ pos 1000000000 ≤ℤ c.expires_at
      → jwt.verify secret c.issuer now (decoded c secret) ≡ ok tt
  pub verify-expired :
      (c : Claims) (secret other issuer : Str) (now : ℤ)
      → c.expires_at <ℤ now
      → (m : Str) × (jwt.verify other issuer now (decoded c secret) ≡ throw (token_verification m))
  pub claim-decoded :
      (c : Claims) (secret k v : Str)
      → find k c.payload ≡ some v
      → jwt.get_payload_claim (decoded c secret) k ≡ ok v

abbrev pub jwt_secret : Str
jwt_secret = str "my-secret-key-change-me-later"

abbrev pub token_issuer : Str
token_issuer = str "project-manager"

-- The two readings of the clock are for set_issued_at and set_expires_at.
unfoldable pub generate_token : JwtLib → ℤ → ℤ → ℤ → Str
generate_token jwt user_id issued_now expires_now =
    jwt.sign
      (record {
        issuer = token_issuer;
        type = str "JWT";
        payload = (str "user_id", to_string user_id) ∷ [];
        issued_at = issued_now;
        expires_at = expires_now +ℤ pos 86400000000000;
      })
      jwt_secret

-- The body of the `try` of ValidateToken.
unfoldable pub validated_user_id : JwtLib → Str → ℤ → Result ℤ
validated_user_id jwt token now = do
  decoded ← jwt.decode token
  jwt.verify jwt_secret token_issuer now decoded
  user_id_claim ← jwt.get_payload_claim decoded (str "user_id")
  stoi user_id_claim

-- JwtChecker's kIssuer
abbrev pub k_issuer : Str
k_issuer = str "project-manager"

-- The body of the `try` of CheckAuth, with the checker's own secret, up to SetData.
unfoldable pub verified_user_id : JwtLib → Str → Str → ℤ → Result ℤ
verified_user_id jwt secret token now = do
  decoded ← jwt.decode token
  jwt.verify secret k_issuer now decoded
  user_id_claim ← jwt.get_payload_claim decoded (str "user_id")
  stoi user_id_claim

-- catch (...)
abbrev pub or_none {ℓ} : {A : Type ℓ} → Result A → Option A
or_none (ok a) = some a
or_none (throw e) = none

unfoldable pub validate_token : JwtLib → Str → ℤ → Option ℤ
unfolding validated_user_id
validate_token jwt token now = or_none (validated_user_id jwt token now)

-- The data of a request's context that the service uses.
pub record RequestContext : Type 0 where
  pub user_id : Option ℤ

pub data Status : Type 0 where
  ok_status token_not_found invalid_token forbidden : Status

pub record AuthCheckResult : Type 0 where
  pub status : Status
  pub reason : Str

abbrev pub bearer_prefix : Str
bearer_prefix = str "Bearer "

-- e.what()
abbrev pub what : Exception → Str
what (token_verification m) = m
what (invalid_argument m) = m
what (out_of_range m) = m
what (std_exception m) = m
what foreign = []

-- The end of the `try` and its two handlers.
abbrev pub checked : RequestContext → Result ℤ → Result AuthCheckResult × RequestContext
checked context (ok user_id) =
    (ok (record { status = ok_status; reason = [] }), record context { user_id = some user_id })
checked context (throw (token_verification m)) = (
  ok (record { status = invalid_token; reason = str "Token verification failed: " ++ m }),
  context,
)
checked context (throw foreign) = (throw foreign, context)
checked context (throw e) =
    (ok (record { status = forbidden; reason = str "Token processing error: " ++ what e }), context)

-- JwtChecker::CheckAuth. The header is empty where the request has none.
unfoldable pub check_auth :
    JwtLib → Str → Str → ℤ → RequestContext → Result AuthCheckResult × RequestContext
unfolding verified_user_id
check_auth jwt secret auth_header now context =
    if is_empty auth_header
    then (
      ok (record { status = token_not_found; reason = str "Missing 'Authorization' header" }),
      context,
    )
    else if not (starts_with auth_header bearer_prefix)
    then (
      ok (record {
        status = invalid_token;
        reason = str "Invalid authorization type, expected 'Bearer'";
      }),
      context,
    )
    else checked context (verified_user_id jwt secret (drop (length bearer_prefix) auth_header) now)

-- The secret that JwtAuthComponent hands to its checker.
unfoldable pub component_secret : Option Str → Str
component_secret none = jwt_secret
component_secret (some secret) = secret

-- AuthMiddleware::CheckAuth
unfoldable pub middleware_check_auth : JwtLib → Str → ℤ → RequestContext → Bool × RequestContext
unfolding validate_token
middleware_check_auth jwt auth_header now context =
    if is_empty auth_header
    then (false, context)
    else if leb (length auth_header) (length bearer_prefix)
        || not (take (length bearer_prefix) auth_header == bearer_prefix)
    then (false, context)
    else (elim (validate_token jwt (drop (length bearer_prefix) auth_header) now) [
      | none ↦ (false, context)
      | some user_id ↦ (true, record context { user_id = some user_id })
    ])
