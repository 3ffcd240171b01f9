-- ===== src/Handlers/Registration.antt =====
-- What a registration has done when it is over, however it ends.
use temp_task.Prelude.{
  ◌≡◌, ◌⊎◌, refl, if◌then◌else◌, inl, inr, false, Option, none, some, Str, str, Result, ok, throw,
  Exception, Bool-cases, Result-cases, to_string, [], ◌∷◌,
}
use temp_task.Models.{User}
use temp_task.Json.{string_at, has_members}
use temp_task.Event.{UserRegisteredEvent, user_registered_payload}
use temp_task.Event.Producer.{message_text, publish, publish_user_registered}
use temp_task.Handlers.{
  Services, Request, Readings, World, Outcome, Handler, created, bad_request, conflict, returned,
  thrown, undefined, call, respond, ◌>>=◌, ◌>>◌, run_next, outcome_of, dereference,
}
use temp_task.Handlers.Users.{
  user_json, has_value, publish_registered, register_user, register_new_login, register,
}

-- The event of a user that was registered.
abbrev pub event_of : User → UserRegisteredEvent
event_of u = record {
  user_id = u.id;
  login = u.login;
  email = u.email;
  first_name = u.first_name;
  last_name = u.last_name;
}

call-cases :
    {s : Services} {A B : Type 0} (P : Outcome B × World s → Type 0) (r : Result A)
    (next : A → Handler s B) (w : World s)
    → ((e : Exception) → P (thrown e, w))
    → ((a : A) → r ≡ ok a → P (next a w))
    → P ((call r >>= next) w)
call-cases P (ok a) next w failed done = done a refl
call-cases P (throw e) next w failed done = failed e

module _ (s : Services) (request : Request) (at : Readings) (w : World s) where
  abbrev End : Type 0
  End = Outcome Str × World s

  -- Nothing but the response has changed, and the request has failed, or was answered as a bad one or with a
  -- conflict.
  abbrev pub IsRefused : End → Type 0
  IsRefused (outcome, w') =
      (w' ≡ record w { response = w'.response })
      × (((e : Exception) × (outcome ≡ thrown e))
          ⊎ (w'.response.status ≡ bad_request)
          ⊎ (w'.response.status ≡ conflict))

  -- What follows what the storage made of the user that it was asked to create.
  abbrev pub Follows : Result (Option User) → End → Type 0
  Follows (throw e) (outcome, w') = (outcome ≡ thrown e) × (w'.broker ≡ w.broker)
  Follows (ok none) (outcome, w') = (outcome ≡ undefined) × (w'.broker ≡ w.broker)
  Follows (ok (some user)) (outcome, w') =
      (w'.broker
        ≡ (s.kafka.send (str "user-events") (to_string user.id)
            (message_text s.json at.surroundings (str "UserRegistered")
              (user_registered_payload s.json (event_of user)) request.request_id)
            w.broker).1)
      × (((e : Exception) × (outcome ≡ thrown e))
          ⊎ ((outcome ≡ returned (s.json.to_text (user_json s.json user)))
              × (w'.response.status ≡ created)))

  -- The storage was asked to create what the request asked for, with a login that nobody had.
  pub record Asked (end : End) : Type 0 where
    pub body : s.json.Value
    pub password : Str
    pub asked : User
    pub is_body : s.json.from_string request.body ≡ ok body
    pub is_login : string_at s.json body (str "login") ≡ ok asked.login
    pub is_password : string_at s.json body (str "password") ≡ ok password
    pub is_first_name : string_at s.json body (str "first_name") ≡ ok asked.first_name
    pub is_last_name : string_at s.json body (str "last_name") ≡ ok asked.last_name
    pub is_email : string_at s.json body (str "email") ≡ ok asked.email
    pub free : s.storage.get_user_by_login asked.login w.db ≡ ok none
    pub hashed : asked.password_hash ≡ s.sha256 password
    pub alive : asked.is_deleted ≡ false
    pub db : end.1.db ≡ (s.storage.create_user asked w.db).1
    pub cache : end.1.cache ≡ w.cache
    pub documents : end.1.documents ≡ w.documents
    pub login_limiter : end.1.login_limiter ≡ w.login_limiter
    pub follows : Follows (s.storage.create_user asked w.db).0 end

  abbrev Ends : End → Type 0
  Ends end = IsRefused end ⊎ Asked end

  refused : (e : Exception) → Ends (thrown e, w)
  refused e = inl (refl, inl (e, refl))

  -- The rest of the world, and what follows.
  abbrev Done : Result (Option User) → s.storage.Db → End → Type 0
  Done r db end =
      (end.1.db ≡ db)
      × (end.1.cache ≡ w.cache)
      × (end.1.documents ≡ w.documents)
      × (end.1.login_limiter ≡ w.login_limiter)
      × Follows r end

  creation-Done :
      (r : Result (Option User)) (db : s.storage.Db)
      → Done r db (
          run_next
            (outcome_of r, record w { db = db })
            (λ o.
              publish_registered s request at o
              >> (dereference o >>= λ user.
                  respond created (s.json.to_text (user_json s.json user)))))
  unfolding publish_registered publish_user_registered publish
  creation-Done (throw e) db = (refl, refl, refl, refl, (refl, refl))
  creation-Done (ok none) db = (refl, refl, refl, refl, (refl, refl))
  creation-Done (ok (some user)) db =
      let sent =
        publish_user_registered s.kafka s.json at.surroundings (event_of user) request.request_id
          w.broker in
      elim (Result-cases sent.0) [
        | inl (u, worked) ↦ rw worked (refl, refl, refl, refl, (refl, inr (refl, refl)))
        | inr (e, failed) ↦ rw failed (refl, refl, refl, refl, (refl, inl (e, refl)))
      ]

  register_user-Ends :
      (login : Str) (body : s.json.Value)
      → s.json.from_string request.body ≡ ok body
      → string_at s.json body (str "login") ≡ ok login
      → s.storage.get_user_by_login login w.db ≡ ok none
      → Ends (register_user s request at login body w)
  unfolding register_user publish_registered publish_user_registered publish
  register_user-Ends login body is_body is_login free =
      call-cases Ends (string_at s.json body (str "password")) _ w refused λ password is_password.
        call-cases Ends (string_at s.json body (str "first_name")) _ w refused λ first is_first.
          call-cases Ends (string_at s.json body (str "last_name")) _ w refused λ last is_last.
            call-cases Ends (string_at s.json body (str "email")) _ w refused λ email is_email.
              let asked : User = record {
                id = at.unset;
                login = login;
                password_hash = s.sha256 password;
                first_name = first;
                last_name = last;
                email = email;
                created_at = at.created_at;
                is_deleted = false;
              } in
              let (db, cache, documents, limiter, follows) =
                creation-Done (s.storage.create_user asked w.db).0
                  (s.storage.create_user asked w.db).1 in
              inr (record {
                body = body;
                password = password;
                asked = asked;
                is_body = is_body;
                is_login = is_login;
                is_password = is_password;
                is_first_name = is_first;
                is_last_name = is_last;
                is_email = is_email;
                free = free;
                hashed = refl;
                alive = refl;
                db = db;
                cache = cache;
                documents = documents;
                login_limiter = limiter;
                follows = follows;
              })

  new_login-Ends :
      (login : Str) (body : s.json.Value) (found : Option User)
      → s.json.from_string request.body ≡ ok body
      → string_at s.json body (str "login") ≡ ok login
      → s.storage.get_user_by_login login w.db ≡ ok found
      → Ends (
          (if has_value found
              then respond conflict (str "{\"error\": \"User already exists\"}")
              else register_user s request at login body)
            w)
  new_login-Ends login body none is_body is_login free =
      register_user-Ends login body is_body is_login free
  new_login-Ends login body (some u) is_body is_login taken = inl (refl, inr (inr refl))

  -- However a registration ends, with an answer, an exception or a step that the language leaves undefined: either
  -- nothing but the response has changed, and it has failed or was answered as a bad request or a conflict; or the request
  -- had a login that no user of the storage had, a password, two names and an email, and the storage was asked to create exactly
  -- one user, with those, the hash of the password in its place, and not deleted. In that case the cache, the documents and the
  -- limiter of logins are left alone. If the storage throws, so does the registration, and if it gives no user back, the
  -- end is undefined, both with nothing published. If it gives a user back, the event of that user was handed to the
  -- producer's Send, in its topic and under its id, and either an exception came out of this or the answer is that
  -- user, with the status of a creation.
  pub register_ends : Ends (register s request at w)
  unfolding register register_new_login
  register_ends = call-cases Ends (s.json.from_string request.body) _ w refused λ body is_body.
      call-cases Ends
        (has_members s.json body
          (str "login" ∷ str "password" ∷ str "first_name" ∷ str "last_name" ∷ str "email" ∷ []))
        _ w refused
        λ complete is_complete. elim (Bool-cases complete) [
          | inl all ↦ rw all (
              call-cases Ends (string_at s.json body (str "login")) _ w refused λ login is_login.
                call-cases Ends (s.storage.get_user_by_login login w.db) _ w refused
                  λ found is_found. new_login-Ends login body found is_body is_login is_found)
          | inr missing ↦ rw missing (inl (refl, inr (inl refl)))
        ]
