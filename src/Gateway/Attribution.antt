-- ===== src/Gateway/Attribution.antt =====
-- What a request is let do, and in whose name.
use temp_task.Prelude.{
  ◌≡◌, ◌≢◌, refl, Option, none, some, ℤ, Str, Str_eq, Result, ok, throw, ◌++◌, ◌⊎◌, inl, inr,
}
use temp_task.Models.{Project, Task}
use temp_task.Auth.{
  RequestContext, AuthCheckResult, Status, ok_status, token_not_found, invalid_token, forbidden,
  check_auth, verified_user_id, bearer_prefix,
}
use temp_task.Auth.Headers.{Passed, check_auth_sound}
use temp_task.Handlers.{Services, Request, Readings, World}
use temp_task.Handlers.Users.{search_users}
use temp_task.Handlers.Projects.{
  post_project, create_named_project, publish_project, get_projects, answer_projects, post_task,
  create_task_in, create_titled_task, publish_task,
}
use temp_task.Handlers.Comments.{
  post_comment, get_comments, answer_comments, post_reply, outdate_comments,
}
use temp_task.Handlers.Service.{
  Route, handle, registers, logs_in, searches_users, posts_project, lists_projects, posts_task,
  posts_comment, lists_comments, posts_reply,
}
use temp_task.Handlers.Invariants.{Keeps, steps}
use temp_task.Gateway.{
  endpoint, k_auth_type, Server, ServerLaws, Unchanged, guarded, after_check, admit,
}
use temp_task.Gateway.Acting.{
  ActsAs, DbBy, DocumentsBy, acts, project-ActsAs, task-ActsAs, comment-ActsAs, reply-ActsAs,
  given-ActsAs,
}

module _ (s : Services) (id : ℤ) (before : World s) (unnamed : Request) (at : Readings) where
  -- the request with the user in its context
  abbrev request : Request
  request = record unnamed { user_id = ok id }

  search_users-ActsAs : Keeps (ActsAs s id before) (search_users s request at)
  unfolding search_users
  search_users-ActsAs = search (steps, acts) depth 20

  publish_project-ActsAs :
      (o : Option Project) → Keeps (ActsAs s id before) (publish_project s request at o)
  unfolding publish_project
  publish_project-ActsAs none = search (steps, acts)
  publish_project-ActsAs (some p) = search (steps, acts)

  post_project-ActsAs : Keeps (ActsAs s id before) (post_project s request at)
  unfolding post_project create_named_project
  post_project-ActsAs =
      search (given-ActsAs, steps, acts, publish_project-ActsAs, project-ActsAs) depth 24

  answer_projects-ActsAs :
      (o : Option Str) → Keeps (ActsAs s id before) (answer_projects s request at o)
  unfolding answer_projects
  answer_projects-ActsAs none = search (steps, acts) depth 20
  answer_projects-ActsAs (some text) = search (steps)

  get_projects-ActsAs : Keeps (ActsAs s id before) (get_projects s request at)
  unfolding get_projects
  get_projects-ActsAs = search (steps, acts, answer_projects-ActsAs) depth 20

  publish_task-ActsAs : (o : Option Task) → Keeps (ActsAs s id before) (publish_task s request at o)
  unfolding publish_task
  publish_task-ActsAs none = search (steps, acts)
  publish_task-ActsAs (some t) = search (steps, acts)

  create_task_in-ActsAs :
      (project_id : ℤ) (o : Option Project)
      → Keeps (ActsAs s id before) (create_task_in s request at id project_id o)
  unfolding create_task_in create_titled_task
  create_task_in-ActsAs project_id none = search (steps, acts) depth 20
  create_task_in-ActsAs project_id (some p) =
      search (steps, acts, publish_task-ActsAs, task-ActsAs) depth 34

  post_task-ActsAs : Keeps (ActsAs s id before) (post_task s request at)
  unfolding post_task
  post_task-ActsAs = search (given-ActsAs, steps, acts, create_task_in-ActsAs) depth 24

  post_comment-ActsAs : Keeps (ActsAs s id before) (post_comment s request at)
  unfolding post_comment Keeps
  post_comment-ActsAs = search (given-ActsAs, steps, acts, comment-ActsAs) depth 24

  answer_comments-ActsAs :
      (t : ℤ) (o : Option Str) → Keeps (ActsAs s id before) (answer_comments s request at t o)
  unfolding answer_comments Keeps
  answer_comments-ActsAs t none = search (steps, acts) depth 20
  answer_comments-ActsAs t (some text) = search (steps)

  get_comments-ActsAs : Keeps (ActsAs s id before) (get_comments s request at)
  unfolding get_comments
  get_comments-ActsAs = search (steps, acts, answer_comments-ActsAs) depth 20

  outdate_comments-ActsAs : (t : ℤ) → Keeps (ActsAs s id before) (outdate_comments t)
  unfolding outdate_comments
  outdate_comments-ActsAs t = search (steps, acts) depth 20

  post_reply-ActsAs : Keeps (ActsAs s id before) (post_reply s request at)
  unfolding post_reply Keeps
  post_reply-ActsAs = search (steps, acts, reply-ActsAs, outdate_comments-ActsAs) depth 24

  handle-ActsAs :
      (route : Route)
      → (endpoint route).auth ≡ some k_auth_type
      → Keeps (ActsAs s id before) (handle s route request at)
  unfolding handle
  handle-ActsAs registers h = cc
  handle-ActsAs logs_in h = cc
  handle-ActsAs searches_users h = search_users-ActsAs
  handle-ActsAs posts_project h = post_project-ActsAs
  handle-ActsAs lists_projects h = get_projects-ActsAs
  handle-ActsAs posts_task h = post_task-ActsAs
  handle-ActsAs posts_comment h = post_comment-ActsAs
  handle-ActsAs lists_comments h = get_comments-ActsAs
  handle-ActsAs posts_reply h = post_reply-ActsAs

-- What a request that was handled has shown, for the state after it.
abbrev pub InNameOf : (s : Services) → Str → Str → ℤ → World s → World s → Type 0
InNameOf s secret authorization now w w' =
    (token : Str) × (id : ℤ) × (authorization ≡ bearer_prefix ++ token)
    × (verified_user_id s.jwt secret token now ≡ ok id)
    × ActsAs s id w w'

-- A context that a check leaves for a header.
abbrev Shows : Services → Str → Str → ℤ → RequestContext → Type 0
Shows s secret authorization now context =
    (token : Str) × (id : ℤ) × (authorization ≡ bearer_prefix ++ token)
    × (verified_user_id s.jwt secret token now ≡ ok id)
    × (context ≡ record { user_id = some id })

module _ (s : Services) (server : Server s) (laws : ServerLaws s server) (route : Route)
    (request : Request) (at : Readings) (secret authorization : Str) (now : ℤ) (w : World s) where
  admit-ActsAs :
      (status : Status) (r : AuthCheckResult) (context : RequestContext)
      → (endpoint route).auth ≡ some k_auth_type
      → (status ≡ ok_status → Shows s secret authorization now context)
      → let w' = (admit s server route request at status r context w).1 in
        Unchanged s w w' ⊎ InNameOf s secret authorization now w w'
  admit-ActsAs ok_status r context protected shows =
      let (token, id, header, verified, e) = shows refl in
      inr (
        token,
        id,
        header,
        verified,
        rw e (
            unfold Keeps in
            handle-ActsAs s id w request at route protected w
              (DbBy.as_was, DocumentsBy.as_were, refl)),
      )
  admit-ActsAs token_not_found r context protected shows = inl (laws.refuse-Unchanged r w)
  admit-ActsAs invalid_token r context protected shows = inl (laws.refuse-Unchanged r w)
  admit-ActsAs forbidden r context protected shows = inl (laws.refuse-Unchanged r w)

  after_check-ActsAs :
      (c : Result AuthCheckResult × RequestContext)
      → (endpoint route).auth ≡ some k_auth_type
      → (Passed c.0 → Shows s secret authorization now c.1)
      → let w' = (after_check s server route request at c w).1 in
        Unchanged s w w' ⊎ InNameOf s secret authorization now w w'
  after_check-ActsAs (ok r, context) protected shows =
      admit-ActsAs r.status r context protected shows
  after_check-ActsAs (throw e, context) protected shows =
      inl
        (record { db = refl; documents = refl; broker = refl; cache = refl; login_limiter = refl })

-- Every endpoint but those that register and log in asks for the checker.
pub protected_lem :
    (route : Route) → route ≢ registers → route ≢ logs_in → (endpoint route).auth ≡ some k_auth_type
protected_lem registers h k = absurd (h refl)
protected_lem logs_in h k = absurd (k refl)
protected_lem searches_users h k = refl
protected_lem posts_project h k = refl
protected_lem lists_projects h k = refl
protected_lem posts_task h k = refl
protected_lem posts_comment h k = refl
protected_lem lists_comments h k = refl
protected_lem posts_reply h k = refl

-- A request to any endpoint but those that register and log in either changes nothing but its response, or its header is the prefix and a
-- token that the checker's secret verifies: then the database is changed by creations of projects whose
-- owner, and of tasks whose creator, is that token's user, the documents by comments whose author is that user
-- and by replies, and the limiter of logins is left alone.
-- A refusal by the server must change nothing but the response.
pub guarded-ActsAs :
    (s : Services) (server : Server s) (route : Route) (request : Request) (at : Readings)
    (secret authorization : Str) (now : ℤ) (w : World s)
    → ServerLaws s server
    → route ≢ registers
    → route ≢ logs_in
    → let w' = (guarded s server route request at secret authorization now w).1 in
      Unchanged s w w' ⊎ InNameOf s secret authorization now w w'
unfolding guarded
guarded-ActsAs s server route request at secret authorization now w laws others h =
    let protected = protected_lem route others h in
    rw (protected, guarded)
      (after_check-ActsAs s server laws route request at secret authorization now w
        (check_auth s.jwt secret authorization now (record { user_id = none })) protected
        (check_auth_sound s.jwt secret authorization now (record { user_id = none })))
