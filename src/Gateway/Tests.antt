-- ===== src/Gateway/Tests.antt =====
-- Requests on their way to a handler.
use temp_task.Prelude.{◌≡◌, refl, ◌++◌, ◌⊎◌, [], ◌∷◌, pos, ◌+ℤ◌, ok, Str, str, arith, std_exception}
use temp_task.Json.Sample.{sample_json}
use temp_task.Auth.{invalid_token, generate_token, bearer_prefix}
use temp_task.Auth.Sample.{sample_jwt_laws}
use temp_task.Handlers.{Request, unauthorized, respond}
use temp_task.Handlers.Sample.{sample_services, start, at_zero, request_of}
use temp_task.Handlers.Service.{handle, posts_project}
use temp_task.Gateway.{Server, ServerLaws, Unchanged, guarded, checker_secret}
use temp_task.Gateway.Attribution.{InNameOf, guarded-ActsAs}
use temp_task.Gateway.Tokens.{guarded-generate_token, guarded-Unchanged}

-- A server that answers every refusal with 401.
abbrev server : Server sample_services
server = record {
  refuse = λ r. respond unauthorized r.reason;
  no_data = std_exception (str "no data");
}

sample-ServerLaws : ServerLaws sample_services server
sample-ServerLaws = record {
  refuse-Unchanged = λ r w. record {
    db = refl;
    documents = refl;
    broker = refl;
    cache = refl;
    login_limiter = refl;
  };
}

abbrev ann_header : Str
ann_header = bearer_prefix ++ generate_token sample_services.jwt (pos 7) (pos 10) (pos 20)

abbrev project_request : Request
project_request = request_of (
    sample_json.to_text
      (sample_json.object ((str "name", sample_json.of_string (str "atlas")) ∷ [])))

guarded-ActsAs_example :
    let w' =
      (guarded sample_services server posts_project project_request at_zero checker_secret
        ann_header
        (pos 30)
        start).1 in
    Unchanged sample_services start w'
    ⊎ InNameOf sample_services checker_secret ann_header (pos 30) start w'
guarded-ActsAs_example =
    guarded-ActsAs sample_services server posts_project project_request at_zero checker_secret
      ann_header (pos 30) start sample-ServerLaws (λ e. cc) (λ e. cc)

guarded-generate_token_example :
    guarded sample_services server posts_project project_request at_zero checker_secret ann_header
      (pos 30)
      start
    ≡ handle sample_services posts_project
        (record project_request { user_id = ok (pos 7) })
        at_zero
        start
unfolding ◌+ℤ◌
guarded-generate_token_example =
    guarded-generate_token sample_services server posts_project project_request at_zero (pos 7)
      (pos 10) (pos 20) (pos 30) start sample_jwt_laws (λ e. cc) (λ e. cc) (omega arith)
      (omega arith) (omega arith)

guarded-Unchanged_example :
    (m : Str) × (guarded sample_services server posts_project project_request at_zero checker_secret
        ann_header
        (pos 86400000000021)
        start
      ≡ server.refuse
          (record { status = invalid_token; reason = str "Token verification failed: " ++ m })
          start)
    × Unchanged sample_services start
        (guarded sample_services server posts_project project_request at_zero checker_secret
          ann_header
          (pos 86400000000021)
          start).1
unfolding ◌+ℤ◌
guarded-Unchanged_example =
    guarded-Unchanged sample_services server posts_project project_request at_zero (pos 7) (pos 10)
      (pos 20) (pos 86400000000021) start sample_jwt_laws sample-ServerLaws (λ e. cc) (λ e. cc)
      (omega arith)
