-- ===== src/Handlers/TaskCreation.antt =====
-- What has been done when the service answers that it created a task.
use temp_task.Prelude.{
  ◌≡◌, ◌≢◌, refl, ◌∙◌, ap, inl, inr, Option, none, some, ℤ, pos, Str, str, stoi, ok, Bool-cases,
  to_string, [],
}
use temp_task.Models.{Project, Task, task_status_from_string, task_status_to_string}
use temp_task.Json.{string_at}
use temp_task.Event.{TaskCreatedEvent, task_created_payload}
use temp_task.Event.Producer.{message_text, publish, publish_task_created}
use temp_task.Handlers.{
  Services, Request, Readings, World, created, bad_request, not_found, returned,
}
use temp_task.Handlers.Projects.{
  task_json, publish_task, create_titled_task, create_task_in, post_task,
}
use temp_task.Handlers.Returned.{created-returned, call-returned, storing-returned, respond-status}
use temp_task.Handlers.ProjectCreation.{bad_request-ne-created}

-- The event of a task that was created.
abbrev pub event_of : Task → TaskCreatedEvent
event_of t = record {
  task_id = t.id;
  project_id = t.project_id;
  title = t.title;
  description = t.description;
  priority = t.priority;
  creator_id = t.creator_id;
  status = task_status_to_string t.status;
}

not_found-ne-created : not_found ≢ created
not_found-ne-created e = cc

module _ (s : Services) (request : Request) (at : Readings) where
  -- What the request asked for in a project of the database, in the name of the user of its context; what the storage
  -- made of it; and that the event of the task was handed to Send, and the task answered.
  pub record Created (w w' : World s) (answer : Str) : Type 0 where
    pub user_id : ℤ
    pub project_id : ℤ
    pub project : Project
    pub body : s.json.Value
    pub asked : Task
    pub task : Task
    pub is_user : request.user_id ≡ ok user_id
    pub is_number : stoi (request.path_arg (str "projectId")) ≡ ok project_id
    pub is_project : s.storage.get_project_by_id project_id w.db ≡ ok (some project)
    pub is_body : s.json.from_string request.body ≡ ok body
    pub is_title : string_at s.json body (str "title") ≡ ok asked.title
    pub in_project : asked.project_id ≡ project_id
    pub is_creator : asked.creator_id ≡ user_id
    pub nobody : asked.assignee_id ≡ none
    pub is_created : (s.storage.create_task asked w.db).0 ≡ ok (some task)
    pub db : w'.db ≡ (s.storage.create_task asked w.db).1
    pub cache : w'.cache ≡ w.cache
    pub broker :
        w'.broker
        ≡ (s.kafka.send
            (str "task-events")
            (to_string task.id)
            (message_text s.json at.surroundings
              (str "TaskCreated")
              (task_created_payload s.json (event_of task))
              request.request_id)
            w.broker).1
    pub documents : w'.documents ≡ w.documents
    pub login_limiter : w'.login_limiter ≡ w.login_limiter
    pub is_answer : answer ≡ s.json.to_text (task_json s.json task)

  -- The handler from the title on, for a project and a user that were found.
  create_titled_task-Created :
      (user_id project_id : ℤ) (project : Project) (body : s.json.Value) (w w' : World s)
      (answer : Str)
      → request.user_id ≡ ok user_id
      → stoi (request.path_arg (str "projectId")) ≡ ok project_id
      → s.storage.get_project_by_id project_id w.db ≡ ok (some project)
      → s.json.from_string request.body ≡ ok body
      → create_titled_task s request at user_id project_id body w ≡ (returned answer, w')
      → Created w w' answer
  unfolding create_titled_task publish_task publish_task_created publish
  create_titled_task-Created user_id project_id project body w w' answer is_user is_number
        is_project is_body h =
      let (title, is_title, h1) =
        call-returned (string_at s.json body (str "title")) _ w w' answer h in
      let (description_value, _, h2) =
        call-returned (s.json.index body (str "description")) _ w w' answer h1 in
      let (description, _, h3) =
        call-returned (s.json.as_string_or description_value []) _ w w' answer h2 in
      let (status_value, _, h4) =
        call-returned (s.json.index body (str "status")) _ w w' answer h3 in
      let (status, _, h5) =
        call-returned (s.json.as_string_or status_value (str "TODO")) _ w w' answer h4 in
      let (priority_value, _, h6) =
        call-returned (s.json.index body (str "priority")) _ w w' answer h5 in
      let (priority, _, h7) =
        call-returned (s.json.as_int_or priority_value (pos 3)) _ w w' answer h6 in
      let asked : Task = record {
        id = at.unset;
        title = title;
        description = description;
        status = task_status_from_string status;
        project_id = project_id;
        assignee_id = none;
        creator_id = user_id;
        priority = priority;
        created_at = at.created_at;
        updated_at = none;
      } in
      let (o, made, h8) = storing-returned (s.storage.create_task asked) _ w w' answer h7 in
      let stored : World s = record w { db = (s.storage.create_task asked w.db).1 } in
      let (t, is_some, after, text) =
        created-returned
          (λ x. publish_task_created s.kafka s.json at.surroundings (event_of x) request.request_id)
          (λ x. s.json.to_text (task_json s.json x)) o stored w' answer h8 in
      record {
        user_id = user_id;
        project_id = project_id;
        project = project;
        body = body;
        asked = asked;
        task = t;
        is_user = is_user;
        is_number = is_number;
        is_project = is_project;
        is_body = is_body;
        is_title = is_title;
        in_project = refl;
        is_creator = refl;
        nobody = refl;
        is_created = made ∙ ap ok is_some;
        db = ap (λ v. v.db) after;
        cache = ap (λ v. v.cache) after;
        broker = ap (λ v. v.broker) after;
        documents = ap (λ v. v.documents) after;
        login_limiter = ap (λ v. v.login_limiter) after;
        is_answer = text;
      }

  create_task_in-Created :
      (user_id project_id : ℤ) (found : Option Project) (w w' : World s) (answer : Str)
      → request.user_id ≡ ok user_id
      → stoi (request.path_arg (str "projectId")) ≡ ok project_id
      → s.storage.get_project_by_id project_id w.db ≡ ok found
      → create_task_in s request at user_id project_id found w ≡ (returned answer, w')
      → w'.response.status ≡ created
      → Created w w' answer
  unfolding create_task_in
  create_task_in-Created user_id project_id none w w' answer is_user is_number is_found h e =
      absurd (not_found-ne-created (respond-status not_found _ w w' answer h e))
  create_task_in-Created user_id project_id (some p) w w' answer is_user is_number is_found h e =
      let (body, is_body, h1) = call-returned (s.json.from_string request.body) _ w w' answer h in
      let (titled, _, h2) = call-returned (s.json.has_member body (str "title")) _ w w' answer h1 in
      elim (Bool-cases titled) [
        | inl has ↦
            create_titled_task-Created user_id project_id p body w w' answer is_user is_number
              is_found is_body (rw has at h2)
        | inr lacks ↦
            absurd
              (bad_request-ne-created (respond-status bad_request _ w w' answer (rw lacks at h2) e))
      ]

  -- A request that is answered with the status of a creation had a user in its context, the number of a project
  -- that the storage finds in its path, and a body with a title: exactly one task was asked of the storage, with
  -- that title, in that project, with that user as its creator and with nobody assigned, and the storage gave a task
  -- back; the event of that task was handed to the producer's Send, in its topic and under its id, the cache, the documents and the limiter of logins were left alone, and the
  -- answer is that task.
  pub post_task_sound :
      (w w' : World s) (answer : Str)
      → post_task s request at w ≡ (returned answer, w')
      → w'.response.status ≡ created
      → Created w w' answer
  unfolding post_task
  post_task_sound w w' answer h e =
      let (user_id, is_user, h1) = call-returned request.user_id _ w w' answer h in
      let (project_id, is_number, h2) =
        call-returned (stoi (request.path_arg (str "projectId"))) _ w w' answer h1 in
      let (found, is_found, h3) =
        call-returned (s.storage.get_project_by_id project_id w.db) _ w w' answer h2 in
      create_task_in-Created user_id project_id found w w' answer is_user is_number is_found h3 e
