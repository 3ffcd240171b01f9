-- ===== src/Handlers/Users.antt =====
-- src/handlers/auth_handlers.cpp and user_handlers.cpp. Log lines are left out.
use temp_task.Prelude.{
  Bool, true, false, not, ◌||◌, List, [], ◌∷◌, Option, none, some, if◌then◌else◌, ◌==◌, map, pos,
  Str, Str_eq, str, is_empty, to_string,
}
use temp_task.Models.{User}
use temp_task.Json.{JsonLib, has_members, string_at}
use temp_task.Auth.{generate_token}
use temp_task.RateLimit.{SlidingWindowLimiter, RateLimitInfo, make_limiter, try_acquire, get_info}
use temp_task.Event.Producer.{publish_user_registered, publish_user_logged_in}
use temp_task.Handlers.{
  Services, Request, Readings, Handler, returned, created, bad_request, unauthorized, conflict,
  too_many_requests, return, call, dereference, ◌>>=◌, ◌>>◌, set_status, set_header, respond,
  publishing, storing, querying,
}

-- login_limiter
unfoldable pub initial_login_limiter : SlidingWindowLimiter
unfolding make_limiter
initial_login_limiter = make_limiter (pos 5) (pos 60)

-- The object of a user in an answer.
unfoldable pub user_json : (json : JsonLib) → User → json.Value
user_json json user = json.object (
    (str "id", json.of_int user.id)
    ∷ (str "login", json.of_string user.login)
    ∷ (str "first_name", json.of_string user.first_name)
    ∷ (str "last_name", json.of_string user.last_name)
    ∷ (str "email", json.of_string user.email)
    ∷ [])

abbrev pub has_value {ℓ} : {A : Type ℓ} → Option A → Bool
has_value none = false
has_value (some a) = true

module _ (s : Services) (request : Request) (at : Readings) where
  open s use {json, jwt, kafka, storage, sha256}
  open at use {
    cleaned_at, pushed_at, info_at, created_at, issued_at, expires_at, surroundings, unset,
  }

  -- PublishUserRegistered of what was created, if anything was.
  unfoldable pub publish_registered : Option User → Handler s (Unit {0})
  publish_registered none = return tt
  publish_registered (some user) = publishing (
      publish_user_registered kafka json surroundings
        (record {
          user_id = user.id;
          login = user.login;
          email = user.email;
          first_name = user.first_name;
          last_name = user.last_name;
        })
        request.request_id)

  -- RegisterHandler from the creation of the user on.
  unfoldable pub register_user : Str → json.Value → Handler s Str
  unfolding publish_registered user_json
  register_user login body = do
    password ← call (string_at json body (str "password"))
    first_name ← call (string_at json body (str "first_name"))
    last_name ← call (string_at json body (str "last_name"))
    email ← call (string_at json body (str "email"))
    created_user ← storing (
        storage.create_user (record {
          id = unset;
          login = login;
          password_hash = sha256 password;
          first_name = first_name;
          last_name = last_name;
          email = email;
          created_at = created_at;
          is_deleted = false;
        }))
    publish_registered created_user
    user ← dereference created_user
    respond created (json.to_text (user_json json user))

  unfoldable pub register_new_login : json.Value → Handler s Str
  unfolding register_user
  register_new_login body = do
    login ← call (string_at json body (str "login"))
    existing ← querying (storage.get_user_by_login login)
    if has_value existing
        then respond conflict (str "{\"error\": \"User already exists\"}")
        else register_user login body

  -- RegisterHandler::HandleRequestThrow
  unfoldable pub register : Handler s Str
  unfolding register_new_login
  register = do
    body ← call (json.from_string request.body)
    complete ← call (
        has_members json body
          (str "login" ∷ str "password" ∷ str "first_name" ∷ str "last_name" ∷ str "email" ∷ []))
    if complete
        then register_new_login body
        else respond bad_request (str "{\"error\": \"Missing required fields\"}")

  -- login_limiter.TryAcquire and login_limiter.GetInfo of the client.
  unfoldable pub acquire : Handler s Bool
  unfolding try_acquire
  acquire w =
      let (limiter, let_through) =
        try_acquire request.client_ip cleaned_at pushed_at w.login_limiter in
      (returned let_through, record w { login_limiter = limiter })

  unfoldable pub limit_info : Handler s RateLimitInfo
  unfolding get_info
  limit_info w =
      let (limiter, info) = get_info request.client_ip info_at w.login_limiter in
      (returned info, record w { login_limiter = limiter })

  unfoldable pub refuse_login : Handler s Str
  unfolding limit_info
  refuse_login = do
    info ← limit_info
    set_status too_many_requests
    set_header (str "X-RateLimit-Limit") (to_string info.limit)
    set_header (str "X-RateLimit-Remaining") (to_string info.remaining)
    set_header (str "X-RateLimit-Reset") (to_string info.reset_seconds)
    set_header (str "Retry-After") (to_string info.reset_seconds)
    return (str "{\"error\": \"Too many login attempts. Please try again later.\"}")

  -- LoginHandler once the password has been found right.
  unfoldable pub log_in : User → Handler s Str
  unfolding limit_info generate_token
  log_in user = do
    let token = generate_token jwt user.id issued_at expires_at
    publishing (
        publish_user_logged_in kafka json surroundings
          (record { user_id = user.id; login = user.login; ip_address = request.client_ip })
          request.request_id)
    info ← limit_info
    set_header (str "X-RateLimit-Limit") (to_string info.limit)
    set_header (str "X-RateLimit-Remaining") (to_string info.remaining)
    return (json.to_text (json.object ((str "token", json.of_string token) ∷ [])))

  unfoldable pub check_password : Str → Option User → Handler s Str
  unfolding log_in
  check_password password none = respond unauthorized (str "{\"error\": \"Invalid credentials\"}")
  check_password password (some user) =
      if not (user.password_hash == sha256 password)
      then respond unauthorized (str "{\"error\": \"Invalid credentials\"}")
      else log_in user

  unfoldable pub check_credentials : json.Value → Handler s Str
  unfolding check_password
  check_credentials body = do
    login ← call (string_at json body (str "login"))
    password ← call (string_at json body (str "password"))
    user ← querying (storage.get_user_by_login login)
    check_password password user

  -- LoginHandler after the limiter has let the client through.
  unfoldable pub read_login : Handler s Str
  unfolding check_credentials
  read_login = do
    body ← call (json.from_string request.body)
    complete ← call (has_members json body (str "login" ∷ str "password" ∷ []))
    if complete
        then check_credentials body
        else respond bad_request (str "{\"error\": \"Missing login or password\"}")

  -- LoginHandler::HandleRequestThrow
  unfoldable pub login : Handler s Str
  unfolding acquire refuse_login read_login
  login = do let_through ← acquire; if let_through then read_login else refuse_login

  -- UserSearchHandler::HandleRequestThrow
  unfoldable pub search_users : Handler s Str
  unfolding user_json
  search_users =
      let found : List User → Handler s Str =
        λ users. return (json.to_text (json.array (map (user_json json) users))) in
      if not (is_empty (request.arg (str "login")))
      then querying (storage.search_users_by_login (request.arg (str "login"))) >>= found
      else if not (is_empty (request.arg (str "first_name")))
          || not (is_empty (request.arg (str "last_name")))
      then querying (
          storage.search_users_by_first_name_last_name (request.arg (str "first_name"))
            (request.arg (str "last_name")))
        >>= found
      else respond bad_request (str "{\"error\": \"No search parameters provided\"}")
