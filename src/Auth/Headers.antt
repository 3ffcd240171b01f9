-- ===== src/Auth/Headers.antt =====
-- The two checks of the Authorization header.
use temp_task.Prelude.{
  ◌≤◌, ◌≡◌, refl, ap, sym, ◌∙◌, leb→le, ◌↔◌, inl, inr, Bool, true, false, [], ◌∷◌, ◌++◌, Option,
  none, some, arith, if◌then◌else◌, Bool-cases, leb, length, take, drop, ◌==◌, ℤ, Str, Str_eq,
  starts_with, starts_with_iff, Result, ok, throw, Exception, token_verification, invalid_argument,
  out_of_range, std_exception, foreign,
}
use mathlib.Core.Path.{subst}
use temp_task.Auth.Laws.{validated-verified}
use temp_task.Auth.{
  JwtLib, JwtLaws, jwt_secret, verified_user_id, or_none, RequestContext, ok_status,
  AuthCheckResult, bearer_prefix, checked, check_auth, middleware_check_auth,
}

starts_with-eq-take : (s p : Str) → starts_with s p ≡ (take (length p) s == p)
starts_with-eq-take s [] = refl
starts_with-eq-take [] (c ∷ p) = refl
starts_with-eq-take (d ∷ s) (c ∷ p) = rw (starts_with-eq-take s p)

-- The token of a header that has one.
abbrev token_of : Str → Str
token_of = drop (length bearer_prefix)

-- A text that begins with the prefix and is no longer than it is the prefix: no token follows.
bare_prefix : (p s : Str) → starts_with s p ≡ true → length s ≤ length p → drop (length p) s ≡ []
bare_prefix [] [] h le = refl
bare_prefix [] (d ∷ s) h le = absurd (omega arith)
bare_prefix (c ∷ p) [] h le = cc
bare_prefix (c ∷ p) (d ∷ s) h le = bare_prefix p s (ground arith) (omega arith)

abbrev pub Passed : Result AuthCheckResult → Type 0
Passed (ok r) = r.status ≡ ok_status
Passed (throw e) = ⊥

module _ (context : RequestContext) where
  -- What a request has shown when CheckAuth lets it through, and what is left in its context; the
  -- context of a request that is refused is as it was.
  checked_sound :
      (r : Result ℤ)
      → Passed (checked context r).0
      → (id : ℤ) × (r ≡ ok id) × ((checked context r).1 ≡ record context { user_id = some id })
  checked_sound (ok id) h = (id, refl, refl)
  checked_sound (throw (token_verification m)) h = cc
  checked_sound (throw (invalid_argument m)) h = cc
  checked_sound (throw (out_of_range m)) h = cc
  checked_sound (throw (std_exception m)) h = cc
  checked_sound (throw foreign) h = absurd h

verified-empty :
    (jwt : JwtLib) (now : ℤ) (secret : Str)
    → JwtLaws jwt
    → (e : Exception) × (verified_user_id jwt secret [] now ≡ throw e)
unfolding verified_user_id
verified-empty jwt now secret laws = (laws.decode-empty.0, rw (laws.decode-empty.1))

checked-throw :
    (context : RequestContext) (e : Exception)
    → (¬ Passed (checked context (throw e)).0) × ((checked context (throw e)).1 ≡ context)
checked-throw context (token_verification m) = (λ h. cc, refl)
checked-throw context (invalid_argument m) = (λ h. cc, refl)
checked-throw context (out_of_range m) = (λ h. cc, refl)
checked-throw context (std_exception m) = (λ h. cc, refl)
checked-throw context foreign = (λ h. h, refl)

-- The end of the middleware's check, with its result already at hand.
abbrev admitted : RequestContext → Option ℤ → Bool × RequestContext
admitted context none = (false, context)
admitted context (some id) = (true, record context { user_id = some id })

abbrev pub Agree : Bool × RequestContext → Result AuthCheckResult × RequestContext → Type 0
Agree m c = ((m.0 ≡ true) ↔ Passed c.0) × (m.1 ≡ c.1)

admitted-Agree :
    (context : RequestContext) (r : Result ℤ)
    → Agree (admitted context (or_none r)) (checked context r)
admitted-Agree context (ok id) = ((λ h. refl, λ h. refl), refl)
admitted-Agree context (throw e) =
    let (refused, kept) = checked-throw context e in ((λ h. cc, λ h. absurd (refused h)), sym kept)

module _ (jwt : JwtLib) (now : ℤ) (context : RequestContext) where
  check_auth_token :
      (secret header : Str)
      → starts_with header bearer_prefix ≡ true
      → check_auth jwt secret header now context
        ≡ checked context (verified_user_id jwt secret (token_of header) now)
  unfolding check_auth
  check_auth_token secret [] h = cc
  check_auth_token secret (c ∷ s) h = rw h

  check_auth_refused :
      (secret header : Str)
      → starts_with header bearer_prefix ≡ false
      → (¬ Passed (check_auth jwt secret header now context).0)
        × ((check_auth jwt secret header now context).1 ≡ context)
  unfolding check_auth
  check_auth_refused secret [] h = (λ p. cc, refl)
  check_auth_refused secret (c ∷ s) h = rw h (λ p. cc, refl)

  middleware_refused :
      (header : Str)
      → starts_with header bearer_prefix ≡ false
      → middleware_check_auth jwt header now context ≡ (false, context)
  unfolding middleware_check_auth
  middleware_refused [] h = refl
  middleware_refused (c ∷ s) h =
      let other : (take (length bearer_prefix) (c ∷ s) == bearer_prefix) ≡ false =
        sym (starts_with-eq-take (c ∷ s) bearer_prefix) ∙ h in
      ground (arith, other)

  middleware_token :
      (header : Str)
      → starts_with header bearer_prefix ≡ true
      → middleware_check_auth jwt header now context ≡ (
          if leb (length header) (length bearer_prefix)
          then (false, context)
          else admitted context (or_none (verified_user_id jwt jwt_secret (token_of header) now)))
  unfolding middleware_check_auth
  middleware_token [] h = cc
  middleware_token (c ∷ s) h =
      let same : (take (length bearer_prefix) (c ∷ s) == bearer_prefix) ≡ true =
        sym (starts_with-eq-take (c ∷ s) bearer_prefix) ∙ h in
      ground (arith, same, validated-verified jwt (token_of (c ∷ s)) now)

-- CheckAuth lets a request through only if its header is the prefix and a token that the checker's
-- secret verifies, and it then puts that token's user id, and nothing else, into the context.
pub check_auth_sound :
    (jwt : JwtLib) (secret header : Str) (now : ℤ) (context : RequestContext)
    → Passed (check_auth jwt secret header now context).0
    → (token : Str) × (id : ℤ) × (header ≡ bearer_prefix ++ token)
      × (verified_user_id jwt secret token now ≡ ok id)
      × ((check_auth jwt secret header now context).1 ≡ record context { user_id = some id })
check_auth_sound jwt secret header now context h =
    elim (Bool-cases (starts_with header bearer_prefix)) [
      | inl hit ↦
          let (token, e) = (starts_with_iff header bearer_prefix).0 hit in
          let passed = check_auth_token jwt now context secret header hit in
          let (id, verified, kept) =
            checked_sound context (verified_user_id jwt secret (token_of header) now)
              (subst (λ c. Passed c.0) passed h) in
          (
            token,
            id,
            e,
            ap (λ t. verified_user_id jwt secret t now) (ap token_of (sym e)) ∙ verified,
            ap (λ c. c.1) passed ∙ kept,
          )
      | inr miss ↦ absurd ((check_auth_refused jwt now context secret header miss).0 h)
    ]

-- The middleware and the auth checker, given the service's own secret, let the same requests through
-- and leave the same context, whatever the header. The library must refuse the empty token.
pub middleware-Agree :
    (jwt : JwtLib) (header : Str) (now : ℤ) (context : RequestContext)
    → JwtLaws jwt
    → Agree
        (middleware_check_auth jwt header now context)
        (check_auth jwt jwt_secret header now context)
middleware-Agree jwt header now context laws =
    elim (Bool-cases (starts_with header bearer_prefix)) [
      | inl hit ↦
          rw
            (
              middleware_token jwt now context header hit,
              check_auth_token jwt now context jwt_secret header hit,
            )
            (elim (Bool-cases (leb (length header) (length bearer_prefix))) [
              | inl bare ↦
                  let (e, thrown) = verified-empty jwt now jwt_secret laws in
                  let empty = bare_prefix bearer_prefix header hit (leb→le _ _ bare) in
                  let (refused, kept) = checked-throw context e in
                  rw (bare, empty, thrown) ((λ h. cc, λ h. absurd (refused h)), sym kept)
              | inr longer ↦ rw longer (admitted-Agree context _)
            ])
      | inr miss ↦
          let (refused, kept) = check_auth_refused jwt now context jwt_secret header miss in
          rw (middleware_refused jwt now context header miss)
            ((λ h. cc, λ h. absurd (refused h)), sym kept)
    ]
