-- ===== src/Gateway.antt =====
-- The way of a request to its handler: the endpoints of configs/static_config.yaml under the names of the
-- handlers' classes, and the check of the Authorization header by the checker that
-- src/auth/jwt_auth_factory.cpp hands out. userver matches paths, asks the checker before the handler, and answers
-- a request that is refused; its answer is a parameter.
pub mod Acting
pub mod Attribution
pub mod Paths
pub mod Tokens
mod Tests
use temp_task.Prelude.{
  Bool, true, false, List, [], ◌∷◌, Option, none, some, if◌then◌else◌, ℤ, Str, str, Result, ok,
  throw, Exception, ◌≡◌,
}
use temp_task.Auth.{
  RequestContext, AuthCheckResult, Status, ok_status, token_not_found, invalid_token, forbidden,
  check_auth, component_secret,
}
use temp_task.Handlers.{Services, Request, Readings, World, Handler, thrown}
use temp_task.Handlers.Service.{
  Route, handle, registers, logs_in, searches_users, posts_project, lists_projects, posts_task,
  posts_comment, lists_comments, posts_reply,
}

pub data Method : Type 0 where
  get post : Method

-- A part of a path between slashes: a word, or an argument.
pub data Segment : Type 0 where
  word argument : Str → Segment

pub record Endpoint : Type 0 where
  pub name : Str
  pub method : Method
  pub path : List Segment
  -- the type under `auth`
  pub auth : Option Str

-- JwtAuthCheckerFactory::kAuthType
abbrev pub k_auth_type : Str
k_auth_type = str "jwt-auth"

abbrev pub endpoint : Route → Endpoint
endpoint registers = record {
  name = str "handler-register";
  method = post;
  path = word (str "api") ∷ word (str "register") ∷ [];
  auth = none;
}
endpoint logs_in = record {
  name = str "handler-login";
  method = post;
  path = word (str "api") ∷ word (str "login") ∷ [];
  auth = none;
}
endpoint searches_users = record {
  name = str "handler-user-search";
  method = get;
  path = word (str "api") ∷ word (str "users") ∷ word (str "search") ∷ [];
  auth = some (str "jwt-auth");
}
endpoint posts_project = record {
  name = str "handler-create-project";
  method = post;
  path = word (str "api") ∷ word (str "projects") ∷ [];
  auth = some (str "jwt-auth");
}
endpoint lists_projects = record {
  name = str "handler-get-projects";
  method = get;
  path = word (str "api") ∷ word (str "projects") ∷ [];
  auth = some (str "jwt-auth");
}
endpoint posts_task = record {
  name = str "handler-create-task";
  method = post;
  path =
      word (str "api")
      ∷ word (str "projects")
      ∷ argument (str "projectId")
      ∷ word (str "tasks")
      ∷ [];
  auth = some (str "jwt-auth");
}
endpoint posts_comment = record {
  name = str "handler-add-comment";
  method = post;
  path =
      word (str "api") ∷ word (str "tasks") ∷ argument (str "taskId") ∷ word (str "comments") ∷ [];
  auth = some (str "jwt-auth");
}
endpoint lists_comments = record {
  name = str "handler-get-comments";
  method = get;
  path =
      word (str "api") ∷ word (str "tasks") ∷ argument (str "taskId") ∷ word (str "comments") ∷ [];
  auth = some (str "jwt-auth");
}
endpoint posts_reply = record {
  name = str "handler-add-reply";
  method = post;
  path =
      word (str "api")
      ∷ word (str "comments")
      ∷ argument (str "commentId")
      ∷ word (str "replies")
      ∷ [];
  auth = some (str "jwt-auth");
}

-- The secret of the component jwt-auth-checker, and what the component makes of it.
abbrev configured_secret : Option Str
configured_secret = some (str "my-secret-key-change-me-later")

unfoldable pub checker_secret : Str
unfolding component_secret
checker_secret = component_secret configured_secret

-- What userver answers to a request that a checker refuses, and what GetData throws where a context
-- has no data of that name.
pub record Server (s : Services) : Type 0 where
  pub refuse : AuthCheckResult → Handler s Str
  pub no_data : Exception

-- A refusal touches nothing but the response.
pub record Unchanged (s : Services) (w w' : World s) : Type 0 where
  pub db : w'.db ≡ w.db
  pub documents : w'.documents ≡ w.documents
  pub broker : w'.broker ≡ w.broker
  pub cache : w'.cache ≡ w.cache
  pub login_limiter : w'.login_limiter ≡ w.login_limiter

pub record ServerLaws (s : Services) (server : Server s) : Type 0 where
  pub refuse-Unchanged : (r : AuthCheckResult) (w : World s) → Unchanged s w (server.refuse r w).1

module _ (s : Services) (server : Server s) (route : Route) (request : Request)
    (at : Readings) where
  -- GetData<int>("user_id") of a context
  abbrev pub user_id_of : RequestContext → Result ℤ
  user_id_of context = elim context.user_id [ none ↦ throw server.no_data | some id ↦ ok id ]

  abbrev pub handle_in : RequestContext → Handler s Str
  handle_in context = handle s route (record request { user_id = user_id_of context }) at

  abbrev pub admit : Status → AuthCheckResult → RequestContext → Handler s Str
  admit ok_status r context = handle_in context
  admit token_not_found r context = server.refuse r
  admit invalid_token r context = server.refuse r
  admit forbidden r context = server.refuse r

  abbrev pub after_check : Result AuthCheckResult × RequestContext → Handler s Str
  after_check (ok r, context) = admit r.status r context
  after_check (throw e, context) = λ w. (thrown e, w)

  -- MakeAuthChecker gives the one checker, with its secret, to every endpoint with an `auth`.
  unfoldable pub guarded : Str → Str → ℤ → Handler s Str
  guarded secret authorization now = elim (endpoint route).auth [
    | none ↦ handle_in (record { user_id = none })
    | some type ↦
        after_check (check_auth s.jwt secret authorization now (record { user_id = none }))
  ]
