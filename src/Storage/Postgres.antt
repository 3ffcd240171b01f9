-- ===== src/Storage/Postgres.antt =====
-- src/storage/postgres_storage.cpp. The statements are the trees of the texts in the source.
pub mod Statements
pub mod Masks
pub mod Users
pub mod Results
pub mod Searches
pub mod Creations
pub mod Projects
mod Tests
use temp_task.Prelude.{
  ℕ, List, [], ◌∷◌, ◌++◌, Option, none, some, if◌then◌else◌, ℤ, Str, str, is_empty, Result, ok,
  throw, ◌>>=◌, ◌>>◌,
}
use temp_task.Models.{
  TimePoint, User, Project, Task, task_status_to_string, task_status_from_string,
}
use temp_task.Storage.Sql.{
  Cell, Row, HostType, Condition, Select, Value, Insert, Statement, Cluster, text, int, time, null,
  master, slave, equals, ilike, is_false, argument, false_literal, select, insert,
}
use temp_task.Storage.Postgres.Statements.{
  user_columns, project_columns, insert_user, users_where, select_user_by_login,
  select_users_by_login, select_users_by_names, insert_project, select_project_by_id,
  select_all_projects, task_columns, insert_task, optional_int, user_arguments, project_arguments,
  task_arguments,
}

unfoldable pub make_like_pattern : Str → Str
make_like_pattern mask = if is_empty mask then str "%" else str "%" ++ (mask ++ str "%")

module _ (cluster : Cluster) where
  open cluster use {
    Db, execute, single_row, user_of, project_of, users_of, projects_of, field, as_int, as_string,
    as_time, as_optional_int, as_optional_time,
  }

  -- `if (result.IsEmpty()) return std::nullopt;`, and the one row otherwise.
  unfoldable pub optional_row {ℓ} :
      {A : Type ℓ} → (List Row → Result A) → List Row → Result (Option A)
  optional_row read [] = ok none
  optional_row read (row ∷ rows) = do a ← read (row ∷ rows); ok (some a)

  unfoldable pub create_user : User → Db → Result (Option User) × Db
  unfolding optional_row
  create_user user db =
      let (result, db') = execute master (insert insert_user) (user_arguments user) db in
      (result >>= optional_row (λ rows. single_row rows >>= user_of), db')

  unfoldable pub get_user_by_login : Str → Db → Result (Option User)
  unfolding optional_row
  get_user_by_login login db = do
    rows ← (execute slave (select select_user_by_login) (text login ∷ []) db).0
    optional_row (λ rows. single_row rows >>= user_of) rows

  unfoldable pub search_users_by_login : Str → Db → Result (List User)
  unfolding make_like_pattern
  search_users_by_login login_mask db = do
    rows ←
        (execute slave (select select_users_by_login) (text (make_like_pattern login_mask) ∷ [])
          db).0
    users_of rows

  unfoldable pub search_users_by_first_name_last_name : Str → Str → Db → Result (List User)
  unfolding make_like_pattern
  search_users_by_first_name_last_name first_name_mask last_name_mask db = do
    rows ←
        (execute slave (select select_users_by_names)
          (text (make_like_pattern first_name_mask) ∷ text (make_like_pattern last_name_mask) ∷ [])
          db).0
    users_of rows

  unfoldable pub create_project : Project → Db → Result (Option Project) × Db
  unfolding optional_row
  create_project project db =
      let (result, db') = execute master (insert insert_project) (project_arguments project) db in
      (result >>= optional_row (λ rows. single_row rows >>= project_of), db')

  unfoldable pub get_project_by_id : ℤ → Db → Result (Option Project)
  unfolding optional_row
  get_project_by_id id db = do
    rows ← (execute slave (select select_project_by_id) (int id ∷ []) db).0
    optional_row (λ rows. single_row rows >>= project_of) rows

  unfoldable pub get_all_projects : Db → Result (List Project)
  get_all_projects db = do
    rows ← (execute slave (select select_all_projects) [] db).0
    projects_of rows

  -- The fields of `result[0]`, in the order in which they are read.
  unfoldable pub read_task : Row → Result Task
  read_task row = do
    id ← field row (str "id") >>= as_int
    title ← field row (str "title") >>= as_string
    description ← field row (str "description") >>= as_string
    status ← field row (str "status") >>= as_string
    project_id ← field row (str "project_id") >>= as_int
    creator_id ← field row (str "creator_id") >>= as_int
    assignee_id ← field row (str "assignee_id") >>= as_optional_int
    priority ← field row (str "priority") >>= as_int
    created_at ← field row (str "created_at") >>= as_time
    updated_at ← field row (str "updated_at") >>= as_optional_time
    ok (record {
      id = id;
      title = title;
      description = description;
      status = task_status_from_string status;
      project_id = project_id;
      assignee_id = assignee_id;
      creator_id = creator_id;
      priority = priority;
      created_at = created_at;
      updated_at = updated_at;
    })

  unfoldable pub first_task : List Row → Result (Option Task)
  unfolding read_task
  first_task [] = ok none
  first_task (row ∷ rows) = do task ← read_task row; ok (some task)

  -- `now` is the reading of the clock in CreateTask.
  unfoldable pub create_task : TimePoint → Task → Db → Result (Option Task) × Db
  unfolding first_task
  create_task now task db =
      let (result, db') = execute master (insert insert_task) (task_arguments now task) db in
      (result >>= first_task, db')
