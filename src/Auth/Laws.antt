-- ===== src/Auth/Laws.antt =====
-- Tokens: what was generated is read back until it expires.
use temp_task.Prelude.{
  ◌≡◌, refl, [], ◌∷◌, none, some, ℤ, pos, ◌+ℤ◌, ◌≤ℤ◌, ◌<ℤ◌, IsInt32, str, to_string, stoi-to_string,
  find, ok, throw, Str, token_verification,
}
use temp_task.Auth.{
  JwtLib, JwtLaws, Claims, jwt_secret, token_issuer, generate_token, validated_user_id,
  verified_user_id, validate_token,
}

abbrev pub claims : ℤ → ℤ → ℤ → Claims
claims user_id issued_now expires_now = record {
  issuer = token_issuer;
  type = str "JWT";
  payload = (str "user_id", to_string user_id) ∷ [];
  issued_at = issued_now;
  expires_at = expires_now +ℤ pos 86400000000000;
}

-- Both checks read a token the same way, given the same secret.
pub validated-verified :
    (jwt : JwtLib) (token : Str) (now : ℤ)
    → validated_user_id jwt token now ≡ verified_user_id jwt jwt_secret token now
unfolding validated_user_id verified_user_id
validated-verified jwt token now = refl

module _ (jwt : JwtLib) (laws : JwtLaws jwt) (user_id issued_now expires_now now : ℤ) where
  pub verified-generate :
      IsInt32 user_id
      → issued_now ≤ℤ now
      → now +ℤ pos 1000000000 ≤ℤ expires_now +ℤ pos 86400000000000
      → verified_user_id jwt jwt_secret (generate_token jwt user_id issued_now expires_now) now
        ≡ ok user_id
  unfolding verified_user_id generate_token
  verified-generate h issued lasting =
      let c = claims user_id issued_now expires_now in
      rw (
        laws.decode-sign c jwt_secret,
        laws.verify-valid c jwt_secret now issued lasting,
        laws.claim-decoded c jwt_secret (str "user_id") (to_string user_id) (unfold find in refl),
        stoi-to_string user_id h,
      )

  -- A token that was generated for a user is validated to that user's id, from the time of issue
  -- until a second before its 24 hours are over, for every id in the range of `int`.
  pub validate_token-generate_token :
      IsInt32 user_id
      → issued_now ≤ℤ now
      → now +ℤ pos 1000000000 ≤ℤ expires_now +ℤ pos 86400000000000
      → validate_token jwt (generate_token jwt user_id issued_now expires_now) now ≡ some user_id
  unfolding validate_token
  validate_token-generate_token h issued lasting =
      rw (validated-verified, verified-generate h issued lasting)

  -- The body of the checks throws what the library throws on a token whose time is over.
  pub verified-expired :
      expires_now +ℤ pos 86400000000000 <ℤ now
      → (m : Str) × (verified_user_id jwt jwt_secret
            (generate_token jwt user_id issued_now expires_now)
            now
          ≡ throw (token_verification m))
  unfolding verified_user_id generate_token
  verified-expired h =
      let c = claims user_id issued_now expires_now in
      let (m, refused) = laws.verify-expired c jwt_secret jwt_secret token_issuer now h in
      (m, rw (laws.decode-sign c jwt_secret, refused))

  -- Once 24 hours are over since the clock was read for the expiry, the token is validated to nothing.
  pub validate_token_expired :
      expires_now +ℤ pos 86400000000000 <ℤ now
      → validate_token jwt (generate_token jwt user_id issued_now expires_now) now ≡ none
  unfolding validate_token
  validate_token_expired over =
      let (m, refused) = verified-expired over in rw (validated-verified, refused)
