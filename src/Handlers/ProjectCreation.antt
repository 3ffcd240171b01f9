-- ===== src/Handlers/ProjectCreation.antt =====
-- What has been done when the service answers that it created a project.
use temp_task.Prelude.{
  ◌≡◌, ◌≢◌, refl, ◌∙◌, ap, inl, inr, some, ℤ, Str, str, ok, Bool-cases, to_string, [],
}
use temp_task.Models.{Project}
use temp_task.Json.{string_at}
use temp_task.Cache.{invalidate}
use temp_task.Event.{ProjectCreatedEvent, project_created_payload}
use temp_task.Event.Producer.{message_text, publish, publish_project_created}
use temp_task.Handlers.{Services, Request, Readings, World, created, bad_request, returned}
use temp_task.Handlers.Projects.{
  projects_key, project_json, publish_project, create_named_project, post_project,
}
use temp_task.Handlers.Returned.{created-returned, call-returned, storing-returned, respond-status}

-- The event of a project that was created.
abbrev pub event_of : Project → ProjectCreatedEvent
event_of p = record { project_id = p.id; name = p.name; key = p.key; owner_id = p.owner_id }

pub bad_request-ne-created : bad_request ≢ created
bad_request-ne-created e = cc

module _ (s : Services) (request : Request) (at : Readings) where
  -- What the request asked for, in the name of the user of its context; what the storage made of it; and that the
  -- cached list was dropped, the event of the project handed to Send, and the project answered.
  pub record Created (w w' : World s) (answer : Str) : Type 0 where
    pub user_id : ℤ
    pub body : s.json.Value
    pub asked : Project
    pub project : Project
    pub is_user : request.user_id ≡ ok user_id
    pub is_body : s.json.from_string request.body ≡ ok body
    pub is_name : string_at s.json body (str "name") ≡ ok asked.name
    pub is_owner : asked.owner_id ≡ user_id
    pub is_time : asked.created_at ≡ at.created_at
    pub is_created : (s.storage.create_project asked w.db).0 ≡ ok (some project)
    pub db : w'.db ≡ (s.storage.create_project asked w.db).1
    pub cache : w'.cache ≡ invalidate projects_key w.cache
    pub broker :
        w'.broker
        ≡ (s.kafka.send
            (str "project-events")
            (to_string project.id)
            (message_text s.json at.surroundings
              (str "ProjectCreated")
              (project_created_payload s.json (event_of project))
              request.request_id)
            w.broker).1
    pub documents : w'.documents ≡ w.documents
    pub login_limiter : w'.login_limiter ≡ w.login_limiter
    pub is_answer : answer ≡ s.json.to_text (project_json s.json project)

  create_named_project-Created :
      (user_id : ℤ) (body : s.json.Value) (w w' : World s) (answer : Str)
      → request.user_id ≡ ok user_id
      → s.json.from_string request.body ≡ ok body
      → create_named_project s request at user_id body w ≡ (returned answer, w')
      → Created w w' answer
  unfolding create_named_project publish_project publish_project_created publish
  create_named_project-Created user_id body w w' answer is_user is_body h =
      let (name, is_name, h1) =
        call-returned (string_at s.json body (str "name")) _ w w' answer h in
      let (description_value, _, h2) =
        call-returned (s.json.index body (str "description")) _ w w' answer h1 in
      let (description, _, h3) =
        call-returned (s.json.as_string_or description_value []) _ w w' answer h2 in
      let (key_value, _, h4) = call-returned (s.json.index body (str "key")) _ w w' answer h3 in
      let (key, _, h5) = call-returned (s.json.as_string_or key_value []) _ w w' answer h4 in
      let asked : Project = record {
        id = at.unset;
        name = name;
        description = description;
        key = key;
        owner_id = user_id;
        created_at = at.created_at;
      } in
      let (o, made, h6) = storing-returned (s.storage.create_project asked) _ w w' answer h5 in
      let stored : World s = record w {
        db = (s.storage.create_project asked w.db).1;
        cache = invalidate projects_key w.cache;
      } in
      let (p, is_some, after, text) =
        created-returned
          (λ x.
            publish_project_created s.kafka s.json at.surroundings (event_of x) request.request_id)
          (λ x. s.json.to_text (project_json s.json x)) o stored w' answer h6 in
      record {
        user_id = user_id;
        body = body;
        asked = asked;
        project = p;
        is_user = is_user;
        is_body = is_body;
        is_name = is_name;
        is_owner = refl;
        is_time = refl;
        is_created = made ∙ ap ok is_some;
        db = ap (λ v. v.db) after;
        cache = ap (λ v. v.cache) after;
        broker = ap (λ v. v.broker) after;
        documents = ap (λ v. v.documents) after;
        login_limiter = ap (λ v. v.login_limiter) after;
        is_answer = text;
      }

  -- A request that is answered with the status of a creation had a user in its context and a body with a name: exactly
  -- one project was asked of the storage, with that name, that user as its owner and the time of the
  -- request, and the storage gave a project back; the cached list was dropped, the event of that project was handed to the producer's Send, in its
  -- topic and under its id, the documents and the limiter of logins were left alone, and the answer is that project.
  pub post_project_sound :
      (w w' : World s) (answer : Str)
      → post_project s request at w ≡ (returned answer, w')
      → w'.response.status ≡ created
      → Created w w' answer
  unfolding post_project
  post_project_sound w w' answer h e =
      let (user_id, is_user, h1) = call-returned request.user_id _ w w' answer h in
      let (body, is_body, h2) = call-returned (s.json.from_string request.body) _ w w' answer h1 in
      let (named, _, h3) = call-returned (s.json.has_member body (str "name")) _ w w' answer h2 in
      elim (Bool-cases named) [
        | inl has ↦
            create_named_project-Created user_id body w w' answer is_user is_body (rw has at h3)
        | inr lacks ↦
            absurd
              (bad_request-ne-created (respond-status bad_request _ w w' answer (rw lacks at h3) e))
      ]
