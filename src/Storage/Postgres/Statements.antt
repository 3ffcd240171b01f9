-- ===== src/Storage/Postgres/Statements.antt =====
-- The statements of src/storage/postgres_storage.cpp and their arguments.
use temp_task.Prelude.{ℕ, List, [], ◌∷◌, Option, none, some, ℤ, Str, str}
use temp_task.Models.{TimePoint, User, Project, Task, task_status_to_string}
use temp_task.Storage.Sql.{
  Cell, Condition, Select, Insert, text, int, time, null, equals, ilike, is_false, argument,
  false_literal,
}

-- The columns that the queries on users and on projects name.
abbrev pub user_columns : List Str
user_columns =
    str "id"
    ∷ str "login"
    ∷ str "password_hash"
    ∷ str "first_name"
    ∷ str "last_name"
    ∷ str "email"
    ∷ str "created_at"
    ∷ str "is_deleted"
    ∷ []

abbrev pub project_columns : List Str
project_columns =
    str "id" ∷ str "name" ∷ str "description" ∷ str "key" ∷ str "owner_id" ∷ str "created_at" ∷ []

abbrev pub insert_user : Insert
insert_user = record {
  table = str "users";
  columns =
      str "login"
      ∷ str "password_hash"
      ∷ str "first_name"
      ∷ str "last_name"
      ∷ str "email"
      ∷ str "created_at"
      ∷ str "is_deleted"
      ∷ [];
  values =
      argument 1
      ∷ argument 2
      ∷ argument 3
      ∷ argument 4
      ∷ argument 5
      ∷ argument 6
      ∷ false_literal
      ∷ [];
  returning =
      str "id"
      ∷ str "login"
      ∷ str "password_hash"
      ∷ str "first_name"
      ∷ str "last_name"
      ∷ str "email"
      ∷ str "created_at"
      ∷ [];
}

abbrev pub users_where : List Condition → Option ℕ → Select
users_where conditions limit = record {
  columns = user_columns;
  table = str "users";
  conditions = conditions;
  newest_first = none;
  limit = limit;
}

abbrev pub select_user_by_login : Select
select_user_by_login = users_where (equals (str "login") 1 ∷ is_false (str "is_deleted") ∷ []) none

abbrev pub select_users_by_login : Select
select_users_by_login =
    users_where (ilike (str "login") 1 ∷ is_false (str "is_deleted") ∷ []) (some 100)

abbrev pub select_users_by_names : Select
select_users_by_names =
    users_where
      (ilike (str "first_name") 1 ∷ ilike (str "last_name") 2 ∷ is_false (str "is_deleted") ∷ [])
      (some 100)

abbrev pub insert_project : Insert
insert_project = record {
  table = str "projects";
  columns = str "name" ∷ str "description" ∷ str "key" ∷ str "owner_id" ∷ str "created_at" ∷ [];
  values = argument 1 ∷ argument 2 ∷ argument 3 ∷ argument 4 ∷ argument 5 ∷ [];
  returning = project_columns;
}

abbrev pub select_project_by_id : Select
select_project_by_id = record {
  columns = project_columns;
  table = str "projects";
  conditions = equals (str "id") 1 ∷ [];
  newest_first = none;
  limit = none;
}

abbrev pub select_all_projects : Select
select_all_projects = record {
  columns = project_columns;
  table = str "projects";
  conditions = [];
  newest_first = some (str "created_at");
  limit = some 100;
}

abbrev pub task_columns : List Str
task_columns =
    str "title"
    ∷ str "description"
    ∷ str "status"
    ∷ str "project_id"
    ∷ str "creator_id"
    ∷ str "assignee_id"
    ∷ str "priority"
    ∷ str "created_at"
    ∷ str "updated_at"
    ∷ []

abbrev pub insert_task : Insert
insert_task = record {
  table = str "tasks";
  columns = task_columns;
  values =
      argument 1
      ∷ argument 2
      ∷ argument 3
      ∷ argument 4
      ∷ argument 5
      ∷ argument 6
      ∷ argument 7
      ∷ argument 8
      ∷ argument 9
      ∷ [];
  returning = str "id" ∷ task_columns;
}

-- A std::optional<int> as an argument.
abbrev pub optional_int : Option ℤ → Cell
optional_int none = null
optional_int (some z) = int z

-- The arguments of the three insertions, from $1 on.
abbrev pub user_arguments : User → List Cell
user_arguments user =
    text user.login
    ∷ text user.password_hash
    ∷ text user.first_name
    ∷ text user.last_name
    ∷ text user.email
    ∷ time user.created_at
    ∷ []

abbrev pub project_arguments : Project → List Cell
project_arguments project =
    text project.name
    ∷ text project.description
    ∷ text project.key
    ∷ int project.owner_id
    ∷ time project.created_at
    ∷ []

abbrev pub task_arguments : TimePoint → Task → List Cell
task_arguments now task =
    text task.title
    ∷ text task.description
    ∷ text (task_status_to_string task.status)
    ∷ int task.project_id
    ∷ int task.creator_id
    ∷ optional_int task.assignee_id
    ∷ int task.priority
    ∷ time now
    ∷ time now
    ∷ []
