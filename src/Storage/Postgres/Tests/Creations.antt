-- ===== src/Storage/Postgres/Tests/Creations.antt =====
-- The theorems on the creations of PostgresStorage at the sample cluster.
use mathlib.Core.List.{Memᴰ}
use temp_task.Prelude.{
  ◌≡◌, refl, [], ◌∷◌, none, some, ℤ, pos, IsInt32, str, find, ok, throw, Exception,
}
use temp_task.Models.{Project, Task, in_progress, task_status_to_string}
use temp_task.Storage.Sql.{Row, text, int, time, null, master, insert}
use temp_task.Storage.Sql.Semantics.{HasValues, cell_at}
use temp_task.Storage.Sql.Sample.{sample_cluster, execute}
use temp_task.Storage.Sql.Sample.Laws.{sample_cluster_laws}
use temp_task.Storage.Sql.Sample.ReadingLaws.{sample_reading_laws}
use temp_task.Storage.Postgres.{create_user, create_project, create_task}
use temp_task.Storage.Postgres.Statements.{
  insert_user, insert_project, insert_task, user_arguments, project_arguments, task_arguments,
}
use temp_task.Storage.Postgres.Creations.{
  create_user_throws, create_project_returns, create_task_returns,
}
use temp_task.Storage.Postgres.Tests.{ann, two_users}

abbrev site : Project
site = record {
  id = pos 0;
  name = str "Site";
  description = str "new";
  key = str "SITE";
  owner_id = pos 7;
  created_at = pos 9;
}

abbrev page : Task
page = record {
  id = pos 0;
  title = str "Page";
  description = str "";
  status = in_progress;
  project_id = pos 8;
  assignee_id = none;
  creator_id = pos 7;
  priority = pos 2;
  created_at = pos 0;
  updated_at = none;
}

stores_ann :
    (execute master (insert insert_user) (user_arguments ann) two_users).0
    ≡ ok (
        ((str "id", int (pos 8))
          ∷ (str "login", text (str "ann"))
          ∷ (str "password_hash", text (str "#"))
          ∷ (str "first_name", text (str "Ann"))
          ∷ (str "last_name", text (str "Lee"))
          ∷ (str "email", text (str "a@b"))
          ∷ (str "created_at", time (pos 5))
          ∷ [])
        ∷ [])
unfolding execute find
stores_ann = refl

create_user_throws_example :
    (row : Row) × (e : Exception) × Memᴰ row (
      sample_cluster_laws.rows_of master (create_user sample_cluster ann two_users).1 (str "users"))
    × (cell_at (str "login") row ≡ text ann.login)
    × ((create_user sample_cluster ann two_users).0 ≡ throw e)
create_user_throws_example =
    create_user_throws sample_cluster sample_cluster_laws sample_reading_laws ann two_users _
      stores_ann

stores_site :
    (execute master (insert insert_project) (project_arguments site) two_users).0
    ≡ ok (
        ((str "id", int (pos 8))
          ∷ (str "name", text (str "Site"))
          ∷ (str "description", text (str "new"))
          ∷ (str "key", text (str "SITE"))
          ∷ (str "owner_id", int (pos 7))
          ∷ (str "created_at", time (pos 9))
          ∷ [])
        ∷ [])
unfolding execute find
stores_site = refl

create_project_returns_example :
    (row : Row) × (id : ℤ) × IsInt32 id
    × Memᴰ row (
        sample_cluster_laws.rows_of master
          (create_project sample_cluster site two_users).1
          (str "projects"))
    × (cell_at (str "id") row ≡ int id)
    × HasValues sample_cluster_laws.rounded
        (project_arguments site)
        insert_project.columns
        insert_project.values
        row
    × ((create_project sample_cluster site two_users).0
        ≡ ok (
            some
              (record site { id = id; created_at = sample_cluster_laws.rounded site.created_at })))
create_project_returns_example =
    create_project_returns sample_cluster sample_cluster_laws sample_reading_laws site two_users _
      stores_site

stores_page :
    (execute master (insert insert_task) (task_arguments (pos 9) page) two_users).0
    ≡ ok (
        ((str "id", int (pos 8))
          ∷ (str "title", text (str "Page"))
          ∷ (str "description", text (str ""))
          ∷ (str "status", text (str "IN_PROGRESS"))
          ∷ (str "project_id", int (pos 8))
          ∷ (str "creator_id", int (pos 7))
          ∷ (str "assignee_id", null)
          ∷ (str "priority", int (pos 2))
          ∷ (str "created_at", time (pos 9))
          ∷ (str "updated_at", time (pos 9))
          ∷ [])
        ∷ [])
unfolding execute find task_status_to_string
stores_page = refl

create_task_returns_example :
    (row : Row) × (id : ℤ) × IsInt32 id
    × Memᴰ row (
        sample_cluster_laws.rows_of master
          (create_task sample_cluster (pos 9) page two_users).1
          (str "tasks"))
    × (cell_at (str "id") row ≡ int id)
    × HasValues sample_cluster_laws.rounded
        (task_arguments (pos 9) page)
        insert_task.columns
        insert_task.values
        row
    × ((create_task sample_cluster (pos 9) page two_users).0
        ≡ ok (
            some (record page {
              id = id;
              created_at = sample_cluster_laws.rounded (pos 9);
              updated_at = some (sample_cluster_laws.rounded (pos 9));
            })))
create_task_returns_example =
    create_task_returns sample_cluster sample_cluster_laws sample_reading_laws (pos 9) page
      two_users _ stores_page
