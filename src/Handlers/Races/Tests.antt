-- ===== src/Handlers/Races/Tests.antt =====
-- A list that is read before a creation and cached after it: it is answered for 300 seconds though the creation
-- has outdated the list.
use temp_task.Prelude.{
  ◌≡◌, refl, [], ◌∷◌, some, ok, ℤ, pos, ◌+ℤ◌, ◌*ℤ◌, ◌≤ℤ◌, Str, str, Str_eq, arith, find, assign,
  erase,
}
use temp_task.Models.{Project}
use temp_task.Cache.{get, set, invalidate}
use temp_task.Storage.InMemory.{get_all_projects, create_project, collect, increment}
use temp_task.Handlers.Projects.{projects_key}
use temp_task.Handlers.ProjectList.{projects_text}
use temp_task.Json.Sample.{sample_json}
use temp_task.Handlers.{Request}
use temp_task.Handlers.Sample.{sample_services, start, at_zero, request_of}
use temp_task.Handlers.Projects.{get_projects, post_project}
use temp_task.Handlers.Races.{Shared, Run, begins, goes_on, WasListed, IsByLister, IsByCreator}
use temp_task.Handlers.Races.Step.{by_lister, by_creator, waits}
use temp_task.Handlers.Races.ListStep.{reads_list, caches_list}
use temp_task.Handlers.Races.CreateStep.{creates, outdates}
use temp_task.Handlers.Races.Staleness.{get-WasListed}
use temp_task.Handlers.Races.Alone.{shared_of, project_handlers-Run}

abbrev atlas : Project
atlas = record {
  id = pos 0;
  name = str "atlas";
  description = [];
  key = [];
  owner_id = pos 7;
  created_at = pos 0;
}

abbrev first : Shared sample_services
first = shared_of sample_services start (pos 0)

abbrev no_projects : Str
no_projects = projects_text sample_services []

abbrev read_state : Shared sample_services
read_state = record first { reads = (pos 0, no_projects) ∷ [] }

abbrev created_state : Shared sample_services
created_state = record read_state {
  db = (sample_services.storage.create_project atlas read_state.db).1;
  writes = 1;
}

abbrev outdated_state : Shared sample_services
outdated_state = record created_state {
  cache = invalidate projects_key created_state.cache;
  writes = 0;
}

abbrev cached_state : Shared sample_services
cached_state = record outdated_state {
  cache = set projects_key no_projects (pos 300) (pos 0) outdated_state.cache;
  reads = [];
}

abbrev last : Shared sample_services
last = record cached_state { now = pos 250000000000 }

read_run : Run sample_services (pos 1000) first read_state
unfolding get_all_projects collect
read_run = goes_on begins (by_lister (reads_list [] refl))

created_run : Run sample_services (pos 1000) first created_state
unfolding create_project
created_run = goes_on read_run (by_creator (creates atlas _ refl))

last_run : Run sample_services (pos 1000) first last
unfolding ◌+ℤ◌
last_run =
    goes_on
      (goes_on (goes_on created_run (by_creator (outdates 0 refl)))
        (by_lister (caches_list [] (pos 0) no_projects [] refl (omega (arith)))))
      (waits (pos 250000000000) (omega arith))

answered : (get projects_key last.now last.cache).1 ≡ some no_projects
unfolding get set invalidate find assign erase ◌+ℤ◌ ◌*ℤ◌
answered = refl

-- The database has the project by then.
stored : sample_services.storage.get_all_projects last.db ≡ ok (record atlas { id = pos 1 } ∷ [])
unfolding get_all_projects create_project collect increment assign
stored = refl

get-WasListed_example :
    (t : ℤ) × (WasListed sample_services (pos 1000) last_run t no_projects)
    × (t ≤ℤ last.now)
    × (last.now ≤ℤ t +ℤ pos 1000 +ℤ pos 300000000000)
unfolding find
get-WasListed_example =
    get-WasListed sample_services (pos 1000) last_run no_projects refl refl answered

abbrev project_request : Request
project_request = request_of (
    sample_json.to_text
      (sample_json.object ((str "name", sample_json.of_string (str "atlas")) ∷ [])))

project_handlers-Run_example :
    ((now : ℤ) × (run : Run sample_services (pos 1000) first (
        shared_of sample_services
          (get_projects sample_services project_request at_zero start).1
          now))
      × IsByLister sample_services (pos 1000) run)
    × ((run : Run sample_services (pos 1000) first (
          shared_of sample_services
            (post_project sample_services project_request at_zero start).1
            (pos 0)))
        × IsByCreator sample_services (pos 1000) run)
unfolding ◌+ℤ◌
project_handlers-Run_example =
    project_handlers-Run sample_services (pos 1000) project_request at_zero start (omega arith)
      (omega arith)
