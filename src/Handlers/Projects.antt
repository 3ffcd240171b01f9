-- ===== src/Handlers/Projects.antt =====
-- src/handlers/project_handlers.cpp and task_handlers.cpp. Log lines are left out.
use temp_task.Prelude.{[], ◌∷◌, Option, none, some, if◌then◌else◌, map, ℤ, pos, Str, str, stoi}
use temp_task.Models.{Project, Task, task_status_to_string, task_status_from_string}
use temp_task.Json.{JsonLib, string_at}
use temp_task.Cache.{get, set, invalidate}
use temp_task.Event.Producer.{publish_project_created, publish_task_created}
use temp_task.Handlers.{
  Services, Request, Readings, Handler, returned, created, bad_request, not_found, return, call,
  dereference, ◌>>=◌, ◌>>◌, respond, publishing, storing, querying, caching,
}

abbrev pub projects_key : Str
projects_key = str "projects:all"

-- The object of a project in an answer.
unfoldable pub project_json : (json : JsonLib) → Project → json.Value
project_json json project = json.object (
    (str "id", json.of_int project.id)
    ∷ (str "name", json.of_string project.name)
    ∷ (str "description", json.of_string project.description)
    ∷ (str "key", json.of_string project.key)
    ∷ (str "owner_id", json.of_int project.owner_id)
    ∷ [])

unfoldable pub task_json : (json : JsonLib) → Task → json.Value
task_json json task = json.object (
    (str "id", json.of_int task.id)
    ∷ (str "title", json.of_string task.title)
    ∷ (str "description", json.of_string task.description)
    ∷ (str "status", json.of_string (task_status_to_string task.status))
    ∷ (str "project_id", json.of_int task.project_id)
    ∷ (str "creator_id", json.of_int task.creator_id)
    ∷ (str "priority", json.of_int task.priority)
    ∷ [])

-- A body with the text of a key from the cache, with the clock read at `now`.
abbrev pub cached_text : {s : Services} → Str → ℤ → Handler s (Option Str)
cached_text key now w =
    let (cache, found) = get key now w.cache in (returned found, record w { cache = cache })

module _ (s : Services) (request : Request) (at : Readings) where
  open s use {json, kafka, storage}
  open at use {read_at, cached_at, created_at, surroundings, unset}

  unfoldable pub publish_project : Option Project → Handler s (Unit {0})
  publish_project none = return tt
  publish_project (some project) = publishing (
      publish_project_created kafka json surroundings
        (record {
          project_id = project.id;
          name = project.name;
          key = project.key;
          owner_id = project.owner_id;
        })
        request.request_id)

  -- CreateProjectHandler once the body is known to have a name.
  unfoldable pub create_named_project : ℤ → json.Value → Handler s Str
  unfolding publish_project project_json
  create_named_project user_id body = do
    name ← call (string_at json body (str "name"))
    description_value ← call (json.index body (str "description"))
    description ← call (json.as_string_or description_value [])
    key_value ← call (json.index body (str "key"))
    key ← call (json.as_string_or key_value [])
    created_project ← storing (
        storage.create_project (record {
          id = unset;
          name = name;
          description = description;
          key = key;
          owner_id = user_id;
          created_at = created_at;
        }))
    caching (invalidate projects_key)
    publish_project created_project
    project ← dereference created_project
    respond created (json.to_text (project_json json project))

  -- CreateProjectHandler::HandleRequestThrow
  unfoldable pub post_project : Handler s Str
  unfolding create_named_project
  post_project = do
    user_id ← call request.user_id
    body ← call (json.from_string request.body)
    named ← call (json.has_member body (str "name"))
    if named
        then create_named_project user_id body
        else respond bad_request (str "{\"error\": \"Missing name\"}")

  -- The rest of GetProjectsHandler after the look-up in the cache.
  unfoldable pub answer_projects : Option Str → Handler s Str
  unfolding project_json
  answer_projects (some cached) = return cached
  answer_projects none = do
    projects ← querying storage.get_all_projects
    let response = json.to_text (json.array (map (project_json json) projects))
    caching (set projects_key response (pos 300) cached_at)
    return response

  -- GetProjectsHandler::HandleRequestThrow
  unfoldable pub get_projects : Handler s Str
  unfolding answer_projects
  get_projects = do cached ← cached_text projects_key read_at; answer_projects cached

  unfoldable pub publish_task : Option Task → Handler s (Unit {0})
  publish_task none = return tt
  publish_task (some task) = publishing (
      publish_task_created kafka json surroundings
        (record {
          task_id = task.id;
          project_id = task.project_id;
          title = task.title;
          description = task.description;
          priority = task.priority;
          creator_id = task.creator_id;
          status = task_status_to_string task.status;
        })
        request.request_id)

  -- CreateTaskHandler once the body is known to have a title.
  unfoldable pub create_titled_task : ℤ → ℤ → json.Value → Handler s Str
  unfolding publish_task task_json
  create_titled_task user_id project_id body = do
    title ← call (string_at json body (str "title"))
    description_value ← call (json.index body (str "description"))
    description ← call (json.as_string_or description_value [])
    status_value ← call (json.index body (str "status"))
    status ← call (json.as_string_or status_value (str "TODO"))
    priority_value ← call (json.index body (str "priority"))
    priority ← call (json.as_int_or priority_value (pos 3))
    created_task ← storing (
        storage.create_task (record {
          id = unset;
          title = title;
          description = description;
          status = task_status_from_string status;
          project_id = project_id;
          assignee_id = none;
          creator_id = user_id;
          priority = priority;
          created_at = created_at;
          updated_at = none;
        }))
    publish_task created_task
    task ← dereference created_task
    respond created (json.to_text (task_json json task))

  -- CreateTaskHandler after the look-up of the project.
  unfoldable pub create_task_in : ℤ → ℤ → Option Project → Handler s Str
  unfolding create_titled_task
  create_task_in user_id project_id none =
      respond not_found (str "{\"error\": \"Project not found\"}")
  create_task_in user_id project_id (some project) = do
    body ← call (json.from_string request.body)
    titled ← call (json.has_member body (str "title"))
    if titled
        then create_titled_task user_id project_id body
        else respond bad_request (str "{\"error\": \"Missing title\"}")

  -- CreateTaskHandler::HandleRequestThrow
  unfoldable pub post_task : Handler s Str
  unfolding create_task_in
  post_task = do
    user_id ← call request.user_id
    project_id ← call (stoi (request.path_arg (str "projectId")))
    project ← querying (storage.get_project_by_id project_id)
    create_task_in user_id project_id project
