-- ===== src/Auth/Tests.antt =====
-- Tokens and headers at concrete inputs, with the sample library.
use temp_task.Prelude.{◌≡◌, refl, ◌++◌, none, some, ok, ℤ, pos, ◌+ℤ◌, Str, to_string, stoi, find}
use temp_task.Auth.{
  jwt_secret, generate_token, verified_user_id, validate_token, RequestContext, bearer_prefix,
  check_auth, middleware_check_auth,
}
use temp_task.Auth.Headers.{Passed, Agree, check_auth_sound, middleware-Agree}
use temp_task.Auth.Sample.{sample_jwt, sample_jwt_laws, token, sign, decode, verify, claim}

sample : Unit {0}
unfolding token sign decode verify claim generate_token validate_token check_auth
    middleware_check_auth ◌+ℤ◌ to_string stoi find
sample = tt

abbrev ann_token : Str
ann_token = generate_token sample_jwt (pos 42) (pos 10) (pos 20)

abbrev no_context : RequestContext
no_context = record { user_id = none }

ann_passes :
    Passed (check_auth sample_jwt jwt_secret (bearer_prefix ++ ann_token) (pos 30) no_context).0
unfolding sample
ann_passes = refl

check_auth_sound_example :
    (token : Str) × (id : ℤ) × (bearer_prefix ++ ann_token ≡ bearer_prefix ++ token)
    × (verified_user_id sample_jwt jwt_secret token (pos 30) ≡ ok id)
    × ((check_auth sample_jwt jwt_secret (bearer_prefix ++ ann_token) (pos 30) no_context).1
        ≡ record no_context { user_id = some id })
check_auth_sound_example =
    check_auth_sound sample_jwt jwt_secret (bearer_prefix ++ ann_token) (pos 30) no_context
      ann_passes

middleware-Agree_example :
    Agree
      (middleware_check_auth sample_jwt (bearer_prefix ++ ann_token) (pos 30) no_context)
      (check_auth sample_jwt jwt_secret (bearer_prefix ++ ann_token) (pos 30) no_context)
middleware-Agree_example =
    middleware-Agree sample_jwt (bearer_prefix ++ ann_token) (pos 30) no_context sample_jwt_laws
