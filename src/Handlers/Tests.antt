-- ===== src/Handlers/Tests.antt =====
-- The service at concrete requests, on the in-memory storage and sample libraries.
use temp_task.Prelude.{◌≡◌, refl, List, [], ◌∷◌, ◌++◌, pos, ℤ_eq, Str, Str_eq, str, ok, false}
use temp_task.Models.{Project}
use temp_task.Prelude.{find, assign, erase}
use temp_task.Prelude.Chunks.{chunk, body, read_body}
use temp_task.Cache.{get, set, invalidate}
use temp_task.Json.Sample.{sample_json, members, text_of}
use temp_task.Auth.Sample.{sample_jwt}
use temp_task.Event.Producer.{publish, publish_project_created, publish_user_logged_in}
use temp_task.Storage.InMemory.{
  empty_storage, get_all_projects, create_project, collect, increment, create_user,
  get_user_by_login, first_with_login,
}
use temp_task.Handlers.{Request, World, returned, http_ok, unauthorized}
use temp_task.Handlers.Users.{
  initial_login_limiter, login, acquire, read_login, check_credentials, check_password, log_in,
  limit_info,
}
use temp_task.Handlers.Logins.{Accepted, login_sound}
use temp_task.Auth.{generate_token}
use temp_task.RateLimit.{try_acquire, get_info, state_at, clean_expired, pop_expired, make_limiter}
use temp_task.Handlers.Projects.{
  get_projects, answer_projects, post_project, create_named_project, publish_project,
}
use temp_task.Handlers.Service.{Arrival, serve, handle, posts_project, lists_projects}
use temp_task.Handlers.ProjectList.{projects_text}
use temp_task.Handlers.Memory.{memory-ProjectLaws}
use temp_task.Handlers.Histories.{get_projects-serve}
use temp_task.Handlers.Sample.{
  list_kafka, list_comments, sample_services, start, at_zero, request_of, sample-CommentLaws,
}
use temp_task.Handlers.CommentFreshness.{comment_handlers-AreCoherent}
use temp_task.Handlers.CommentCache.{AreCoherent}
use temp_task.Handlers.Comments.{post_comment, get_comments, post_reply}

abbrev project_body : Str
project_body = sample_json.object ((str "name", sample_json.of_string (str "atlas")) ∷ [])

-- A list, a creation and a list again.
abbrev history : List Arrival
history =
    record { route = lists_projects; request = request_of []; readings = at_zero }
    ∷ record { route = posts_project; request = request_of project_body; readings = at_zero }
    ∷ record { route = lists_projects; request = request_of []; readings = at_zero }
    ∷ []

abbrev atlas : Project
atlas = record {
  id = pos 1;
  name = str "atlas";
  description = [];
  key = [];
  owner_id = pos 7;
  created_at = pos 0;
}

stored :
    sample_services.storage.get_all_projects (serve sample_services history start).db
    ≡ ok (atlas ∷ [])
unfolding serve handle get_projects answer_projects post_project create_named_project
    publish_project publish_project_created publish get set get_all_projects create_project collect
    assign find members body read_body chunk text_of increment invalidate erase
stored = refl

get_projects-serve_example :
    (get_projects sample_services (request_of []) at_zero (serve sample_services history start)).0
    ≡ returned (projects_text sample_services (atlas ∷ []))
get_projects-serve_example =
    get_projects-serve sample_services
      (memory-ProjectLaws sample_json sample_jwt list_kafka list_comments (λ s. str "#" ++ s))
      history start (request_of []) at_zero (atlas ∷ []) refl stored

-- The storage knows ann, whose password is pw.
abbrev with_ann : World sample_services
with_ann = record start {
  db =
      (create_user
        (record {
          id = pos 0;
          login = str "ann";
          password_hash = str "#pw";
          first_name = [];
          last_name = [];
          email = [];
          created_at = pos 0;
          is_deleted = false;
        })
        empty_storage).0;
}

abbrev login_request : Str → Request
login_request password = request_of (
    sample_json.object (
      (str "login", sample_json.of_string (str "ann"))
      ∷ (str "password", sample_json.of_string password)
      ∷ []))

abbrev ann_answer : Str
ann_answer = sample_json.to_text (
    sample_json.object (
      (str "token", sample_json.of_string (generate_token sample_jwt (pos 1) (pos 0) (pos 0)))
      ∷ []))

-- With the right password the answer is her token; a wrong one is refused.
ann_runs :
    (login sample_services (login_request (str "pw")) at_zero with_ann ≡ (
      returned ann_answer,
      (login sample_services (login_request (str "pw")) at_zero with_ann).1,
    ))
    × ((login sample_services (login_request (str "pw")) at_zero with_ann).1.response.status
        ≡ http_ok)
    × ((login sample_services (login_request (str "no")) at_zero with_ann).1.response.status
        ≡ unauthorized)
unfolding login acquire read_login check_credentials check_password log_in limit_info create_user
    get_user_by_login first_with_login find assign members body read_body chunk text_of
    publish_user_logged_in publish try_acquire get_info state_at clean_expired pop_expired
    initial_login_limiter make_limiter increment
ann_runs = (refl, refl, refl)

login_sound_example :
    Accepted sample_services (login_request (str "pw")) at_zero with_ann ann_answer
login_sound_example =
    login_sound sample_services (login_request (str "pw")) at_zero with_ann
      (login sample_services (login_request (str "pw")) at_zero with_ann).1 ann_answer ann_runs.0
      ann_runs.1

-- An empty cache has no list that could be out of date.
none_cached : AreCoherent sample_services [] []
unfolding AreCoherent find
none_cached task e range found = absurd (cc)

abbrev comment_body : Str
comment_body = sample_json.object (
    (str "author", sample_json.of_string (str "ann"))
    ∷ (str "text", sample_json.of_string (str "hi"))
    ∷ [])

comment_handlers-AreCoherent_example :
    AreCoherent sample_services
      (post_comment sample_services (request_of comment_body) at_zero start).1.documents
      (post_comment sample_services (request_of comment_body) at_zero start).1.cache
    × AreCoherent sample_services
        (get_comments sample_services (request_of comment_body) at_zero start).1.documents
        (get_comments sample_services (request_of comment_body) at_zero start).1.cache
    × AreCoherent sample_services
        (post_reply sample_services (request_of comment_body) at_zero start).1.documents
        (post_reply sample_services (request_of comment_body) at_zero start).1.cache
comment_handlers-AreCoherent_example =
    comment_handlers-AreCoherent sample_services sample-CommentLaws (request_of comment_body)
      at_zero start none_cached
