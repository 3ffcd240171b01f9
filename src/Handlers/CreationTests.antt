-- ===== src/Handlers/CreationTests.antt =====
-- A project and a task in it, created by a sample service.
use temp_task.Prelude.{◌≡◌, refl, [], ◌∷◌, none, pos, Str, Str_eq, str, stoi, find, assign}
use temp_task.Prelude.Chunks.{body, read_body}
use temp_task.Models.{Project, Task, to_do, task_status_from_string}
use temp_task.Json.Sample.{sample_json, members, text_of}
use temp_task.Event.Producer.{publish, publish_project_created, publish_task_created}
use temp_task.Storage.InMemory.{create_project, create_task, get_project_by_id}
use temp_task.Handlers.{Request, World, returned, created}
use temp_task.Handlers.Projects.{project_json, task_json, post_project, post_task}
use temp_task.Handlers.Sample.{sample_services, start, at_zero, request_of}
use temp_task.Handlers.ProjectCreation as ProjectCreation
use temp_task.Handlers.TaskCreation as TaskCreation

abbrev project_request : Request
project_request = request_of (
    sample_json.to_text
      (sample_json.object ((str "name", sample_json.of_string (str "atlas")) ∷ [])))

abbrev atlas : Project
atlas = record {
  id = pos 1;
  name = str "atlas";
  description = [];
  key = [];
  owner_id = pos 7;
  created_at = pos 0;
}

abbrev with_atlas : World sample_services
with_atlas = (post_project sample_services project_request at_zero start).1

abbrev project_answer : Str
project_answer = sample_json.to_text (project_json sample_json atlas)

project_runs :
    (post_project sample_services project_request at_zero start
      ≡ (returned project_answer, with_atlas))
    × (with_atlas.response.status ≡ created)
unfolding post_project members find read_body body text_of create_project publish_project_created
    publish
project_runs = (refl, refl)

post_project_sound_example :
    ProjectCreation.Created sample_services project_request at_zero start with_atlas project_answer
post_project_sound_example =
    ProjectCreation.post_project_sound sample_services project_request at_zero start with_atlas
      project_answer project_runs.0 project_runs.1

abbrev task_request : Request
task_request =
    record (request_of (
      sample_json.to_text
        (sample_json.object ((str "title", sample_json.of_string (str "map")) ∷ [])))) {
          path_arg = λ k. str "1";
        }

abbrev map_task : Task
map_task = record {
  id = pos 1;
  title = str "map";
  description = [];
  status = to_do;
  project_id = pos 1;
  assignee_id = none;
  creator_id = pos 7;
  priority = pos 3;
  created_at = pos 0;
  updated_at = none;
}

abbrev task_answer : Str
task_answer = sample_json.to_text (task_json sample_json map_task)

abbrev with_task : World sample_services
with_task = (post_task sample_services task_request at_zero with_atlas).1

task_runs :
    (post_task sample_services task_request at_zero with_atlas ≡ (returned task_answer, with_task))
    × (with_task.response.status ≡ created)
unfolding post_project post_task stoi get_project_by_id find members read_body body text_of
    create_project publish_project_created publish assign create_task publish_task_created
    task_status_from_string
task_runs = (refl, refl)

post_task_sound_example :
    TaskCreation.Created sample_services task_request at_zero with_atlas with_task task_answer
post_task_sound_example =
    TaskCreation.post_task_sound sample_services task_request at_zero with_atlas with_task
      task_answer task_runs.0 task_runs.1
