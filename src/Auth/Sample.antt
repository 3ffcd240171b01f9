-- ===== src/Auth/Sample.antt =====
-- A token library that meets the laws: a token is the list of its claims and of the secret, each text
-- behind its length. Only the laws are proved of it; the service's code does not depend on it.
use temp_task.Prelude.{
  ◌≡◌, refl, ◌&&◌, [], ◌∷◌, ◌++◌, none, some, arith, if◌then◌else◌, length, take-append,
  drop-append, ◌==◌, ℤ, pos, sub_ℕ, pos_part, neg_part, ◌+ℤ◌, +ℤ_parts, leb_ℤ, ◌<ℤ◌, ◌≤ℤ◌, Str,
  Str_eq, str, str_eq_iff, Dict, find, Result, ok, throw, Exception, token_verification,
  invalid_argument, std_exception,
}
use temp_task.Prelude.Chunks.{chunk, body, read_body, read_body-body}
use temp_task.Auth.{JwtLib, JwtLaws, Claims}

pub record Token : Type 0 where
  pub secret : Str
  pub issuer : Str
  pub payload : Dict Str Str
  pub issued_at : ℤ
  pub expires_at : ℤ

unfoldable pub token : Claims → Str → Token
token c secret = record {
  secret = secret;
  issuer = c.issuer;
  payload = c.payload;
  issued_at = c.issued_at;
  expires_at = c.expires_at;
}

unfoldable pub sign : Claims → Str → Str
unfolding body
sign c secret =
    pos_part c.issued_at
    ∷ neg_part c.issued_at
    ∷ pos_part c.expires_at
    ∷ neg_part c.expires_at
    ∷ length secret
    ∷ (secret ++ (length c.issuer ∷ (c.issuer ++ (length c.payload ∷ body c.payload))))

read_payload : Str → Dict Str Str
unfolding read_body
read_payload [] = []
read_payload (n ∷ s) = read_body n s

unfoldable pub decode : Str → Result Token
unfolding read_payload chunk
decode (a ∷ b ∷ c ∷ d ∷ s) =
    let rest = (chunk s).1 in
    ok (record {
      secret = (chunk s).0;
      issuer = (chunk rest).0;
      payload = read_payload (chunk rest).1;
      issued_at = sub_ℕ a b;
      expires_at = sub_ℕ c d;
    })
decode _ = throw (invalid_argument (str "invalid token supplied"))

sub_ℕ-parts : (z : ℤ) → sub_ℕ (pos_part z) (neg_part z) ≡ z
sub_ℕ-parts z = ground arith

decode-sign : (c : Claims) (secret : Str) → decode (sign c secret) ≡ ok (token c secret)
unfolding decode sign token
decode-sign c secret = rw (
  take-append secret (length c.issuer ∷ (c.issuer ++ (length c.payload ∷ body c.payload))),
  drop-append secret (length c.issuer ∷ (c.issuer ++ (length c.payload ∷ body c.payload))),
  take-append c.issuer (length c.payload ∷ body c.payload),
  drop-append c.issuer (length c.payload ∷ body c.payload),
  read_body-body c.payload,
  sub_ℕ-parts c.issued_at,
  sub_ℕ-parts c.expires_at,
)

unfoldable pub verify : Str → Str → ℤ → Token → Result (Unit {0})
verify secret issuer now t =
    if (t.secret == secret && t.issuer == issuer)
      && (leb_ℤ t.issued_at now && leb_ℤ (now +ℤ pos 1000000000) t.expires_at)
    then ok tt
    else throw (token_verification (str "token verification failed"))

unfoldable pub claim : Token → Str → Result Str
claim t k = elim (find k t.payload) [
  | none ↦ throw (std_exception (str "claim not found"))
  | some v ↦ ok v
]

abbrev pub sample_jwt : JwtLib
sample_jwt = record {
  Decoded = Token;
  sign = sign;
  decode = decode;
  verify = verify;
  get_payload_claim = claim;
}

verify-valid :
    (c : Claims) (secret : Str) (now : ℤ)
    → c.issued_at ≤ℤ now
    → now +ℤ pos 1000000000 ≤ℤ c.expires_at
    → verify secret c.issuer now (token c secret) ≡ ok tt
unfolding verify token
verify-valid c secret now h k =
    ground (arith, str_eq_iff secret secret, str_eq_iff c.issuer c.issuer)

verify-expired :
    (c : Claims) (secret other issuer : Str) (now : ℤ)
    → c.expires_at <ℤ now
    → (m : Str) × (verify other issuer now (token c secret) ≡ throw (token_verification m))
unfolding verify token
verify-expired c secret other issuer now h =
    (str "token verification failed", ground (arith, +ℤ_parts now (pos 1000000000)))

claim-decoded :
    (c : Claims) (secret k v : Str) → find k c.payload ≡ some v → claim (token c secret) k ≡ ok v
unfolding claim token
claim-decoded c secret k v e = rw (claim, token, e)

decode-empty : (e : Exception) × (decode [] ≡ throw e)
unfolding decode
decode-empty = (invalid_argument (str "invalid token supplied"), refl)

pub sample_jwt_laws : JwtLaws sample_jwt
sample_jwt_laws = record {
  decoded = token;
  decode-sign = decode-sign;
  decode-empty = decode-empty;
  verify-valid = verify-valid;
  verify-expired = verify-expired;
  claim-decoded = claim-decoded;
}
