-- ===== src/Handlers/Logins.antt =====
-- What a client has shown when the service logs it in.
use temp_task.Prelude.{
  ◌≡◌, ◌≢◌, refl, sym, ◌∙◌, ap, inl, inr, true, [], ◌∷◌, Option, none, some, Str, Str_eq,
  str_eq_iff, str, ok, Exception, Result-cases, Bool-cases, ◌==◌,
}
use temp_task.Models.{User}
use temp_task.Json.{string_at, has_members}
use temp_task.Auth.{generate_token}
use temp_task.RateLimit.{try_acquire}
use temp_task.Event.{UserLoggedInEvent}
use temp_task.Event.Producer.{publish_user_logged_in}
use temp_task.Handlers.{
  Services, Request, Readings, World, http_ok, unauthorized, bad_request, too_many_requests,
  returned, thrown,
}
use temp_task.Handlers.Returned.{call-returned, respond-status, returned_or}
use temp_task.Handlers.Users.{
  login, acquire, limit_info, refuse_login, log_in, check_password, check_credentials, read_login,
}

returned-ne-thrown : {A : Type 0} (a : A) (e : Exception) → returned a ≢ thrown e
returned-ne-thrown a e h = cc

unauthorized-ne-ok : unauthorized ≢ http_ok
unauthorized-ne-ok e = cc

bad_request-ne-ok : bad_request ≢ http_ok
bad_request-ne-ok e = cc

too_many_requests-ne-ok : too_many_requests ≢ http_ok
too_many_requests-ne-ok e = cc

module _ (s : Services) (request : Request) (at : Readings) where
  -- The client was let through by the limiter, and sent the login and the password of a user of the
  -- database; the answer is the token of that user.
  pub record Accepted (w : World s) (answer : Str) : Type 0 where
    pub body : s.json.Value
    pub name : Str
    pub password : Str
    pub user : User
    pub let_through :
        (try_acquire request.client_ip at.cleaned_at at.pushed_at w.login_limiter).1 ≡ true
    pub is_body : s.json.from_string request.body ≡ ok body
    pub is_name : string_at s.json body (str "login") ≡ ok name
    pub is_password : string_at s.json body (str "password") ≡ ok password
    pub is_user : s.storage.get_user_by_login name w.db ≡ ok (some user)
    pub same_hash : user.password_hash ≡ s.sha256 password
    pub is_token :
        answer
        ≡ s.json.to_text (
            s.json.object (
              (
                str "token",
                s.json.of_string (generate_token s.jwt user.id at.issued_at at.expires_at),
              )
              ∷ []))

  check_password-returned :
      (password : Str) (found : Option User) (w w' : World s) (answer : Str)
      → check_password s request at password found w ≡ (returned answer, w')
      → w'.response.status ≡ http_ok
      → (user : User) × (found ≡ some user)
        × (user.password_hash ≡ s.sha256 password)
        × (log_in s request at user w ≡ (returned answer, w'))
  unfolding check_password
  check_password-returned password none w w' answer h e =
      absurd (unauthorized-ne-ok (respond-status unauthorized _ w w' answer h e))
  check_password-returned password (some user) w w' answer h e =
      elim (Bool-cases (user.password_hash == s.sha256 password)) [
        | inl same ↦ (user, refl, (str_eq_iff _ _).0 same, rw same at h)
        | inr other ↦
            absurd
              (unauthorized-ne-ok (respond-status unauthorized _ w w' answer (rw other at h) e))
      ]

  log_in-token :
      (user : User) (w w' : World s) (answer : Str)
      → log_in s request at user w ≡ (returned answer, w')
      → answer
        ≡ s.json.to_text (
            s.json.object (
              (
                str "token",
                s.json.of_string (generate_token s.jwt user.id at.issued_at at.expires_at),
              )
              ∷ []))
  unfolding log_in limit_info
  log_in-token user w w' answer h =
      let event : UserLoggedInEvent = record {
        user_id = user.id;
        login = user.login;
        ip_address = request.client_ip;
      } in
      elim (Result-cases
        (publish_user_logged_in s.kafka s.json at.surroundings event request.request_id
          w.broker).0) [
            | inl (u, sent) ↦ sym (ap (λ r. returned_or answer r.0) (rw sent at h))
            | inr (x, failed) ↦
                absurd (returned-ne-thrown answer x (sym (ap (λ r. r.0) (rw failed at h))))
          ]

  refuse_login-status :
      (w w' : World s) (answer : Str)
      → refuse_login s request at w ≡ (returned answer, w')
      → w'.response.status ≢ http_ok
  unfolding refuse_login limit_info
  refuse_login-status w w' answer h e =
      too_many_requests-ne-ok (ap (λ r. r.1.response.status) h ∙ e)

  read_login-returned :
      (w w' : World s) (answer : Str)
      → read_login s request at w ≡ (returned answer, w')
      → w'.response.status ≡ http_ok
      → (body : s.json.Value) × (s.json.from_string request.body ≡ ok body)
        × (check_credentials s request at body w ≡ (returned answer, w'))
  unfolding read_login
  read_login-returned w w' answer h e =
      let (body, is_body, h1) = call-returned (s.json.from_string request.body) _ w w' answer h in
      let (complete, _, h2) =
        call-returned (has_members s.json body (str "login" ∷ str "password" ∷ [])) _ w w' answer
          h1 in
      elim (Bool-cases complete) [
        | inl all ↦ (body, is_body, rw all at h2)
        | inr missing ↦
            absurd
              (bad_request-ne-ok (respond-status bad_request _ w w' answer (rw missing at h2) e))
      ]

  -- Whoever is answered with a status of success was let through by the limiter and sent the login and
  -- the password of a user of the database; the answer is the token of that user.
  pub login_sound :
      (w w' : World s) (answer : Str)
      → login s request at w ≡ (returned answer, w')
      → w'.response.status ≡ http_ok
      → Accepted w answer
  unfolding login acquire check_credentials
  login_sound w w' answer h e =
      let started : World s = record w {
        login_limiter =
            (try_acquire request.client_ip at.cleaned_at at.pushed_at w.login_limiter).0;
      } in
      elim (Bool-cases
        (try_acquire request.client_ip at.cleaned_at at.pushed_at w.login_limiter).1) [
          | inl through ↦
              let (body, is_body, h1) = read_login-returned started w' answer (rw through at h) e in
              let (name, is_name, h2) =
                call-returned (string_at s.json body (str "login")) _ started w' answer h1 in
              let (password, is_password, h3) =
                call-returned (string_at s.json body (str "password")) _ started w' answer h2 in
              let (found, is_found, h4) =
                call-returned (s.storage.get_user_by_login name w.db) _ started w' answer h3 in
              let (user, is_some, same, h5) =
                check_password-returned password found started w' answer h4 e in
              record {
                body = body;
                name = name;
                password = password;
                user = user;
                let_through = through;
                is_body = is_body;
                is_name = is_name;
                is_password = is_password;
                is_user = is_found ∙ ap ok is_some;
                same_hash = same;
                is_token = log_in-token user started w' answer h5;
              }
          | inr refused ↦ absurd (refuse_login-status started w' answer (rw refused at h) e)
        ]
