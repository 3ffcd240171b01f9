-- ===== src/Handlers/Memory.antt =====
-- The service on the in-memory storage (src/storage/in_memory_storage.hpp), which has the methods that
-- the handlers call.
use temp_task.Prelude.{refl, Str, ok}
use temp_task.Json.{JsonLib}
use temp_task.Auth.{JwtLib}
use temp_task.Event.Producer.{KafkaProducer}
use temp_task.Storage.InMemory.{
  InMemoryStorage, create_user, get_user_by_login, search_users_by_login,
  search_users_by_first_name_last_name, create_project, get_project_by_id, get_all_projects,
  create_task,
}
use temp_task.Handlers.{Storage, CommentStore, Services}
use temp_task.Handlers.ProjectList.{ProjectLaws}

abbrev memory_storage : Storage
memory_storage = record {
  Db = InMemoryStorage;
  create_user = λ u db. (ok (create_user u db).1, (create_user u db).0);
  get_user_by_login = λ login db. ok (get_user_by_login login db);
  search_users_by_login = λ mask db. ok (search_users_by_login mask db);
  search_users_by_first_name_last_name =
      λ first last db. ok (search_users_by_first_name_last_name first last db);
  create_project = λ p db. (ok (create_project p db).1, (create_project p db).0);
  get_project_by_id = λ id db. ok (get_project_by_id id db);
  get_all_projects = λ db. ok (get_all_projects db);
  create_task = λ t db. (ok (create_task t db).1, (create_task t db).0);
}

abbrev pub on_memory : JsonLib → JwtLib → KafkaProducer → CommentStore → (Str → Str) → Services
on_memory json jwt kafka comment_store sha256 = record {
  json = json;
  jwt = jwt;
  kafka = kafka;
  storage = memory_storage;
  comment_store = comment_store;
  sha256 = sha256;
}

-- The in-memory storage meets the laws on lists of projects.
pub memory-ProjectLaws :
    (json : JsonLib) (jwt : JwtLib) (kafka : KafkaProducer) (comment_store : CommentStore)
    (sha256 : Str → Str)
    → ProjectLaws (on_memory json jwt kafka comment_store sha256)
unfolding create_user create_task create_project get_all_projects
memory-ProjectLaws json jwt kafka comment_store sha256 = record {
  create_project-throw = λ p db e h. absurd (cc);
  create_task = λ t db. refl;
  create_user = λ u db. refl;
}
