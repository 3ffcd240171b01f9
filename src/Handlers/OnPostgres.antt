-- ===== src/Handlers/OnPostgres.antt =====
-- PostgresStorage as the store of the handlers, as src/main.cpp gives it to them.
use temp_task.Prelude.{ℕ, suc}
use temp_task.Models.{TimePoint}
use temp_task.Storage.Sql.{Cluster}
use temp_task.Storage.Postgres.{
  create_user, get_user_by_login, search_users_by_login, search_users_by_first_name_last_name,
  create_project, get_project_by_id, get_all_projects, create_task,
}
use temp_task.Handlers.{Storage}

-- The database, and the readings of the clock that CreateTask makes, in their order.
abbrev pub postgres_storage : Cluster → Storage
postgres_storage c = record {
  Db = c.Db × (ℕ → TimePoint);
  create_user = λ u (db, clock). ((create_user c u db).0, ((create_user c u db).1, clock));
  get_user_by_login = λ login (db, clock). get_user_by_login c login db;
  search_users_by_login = λ mask (db, clock). search_users_by_login c mask db;
  search_users_by_first_name_last_name =
      λ first last (db, clock). search_users_by_first_name_last_name c first last db;
  create_project = λ p (db, clock). ((create_project c p db).0, ((create_project c p db).1, clock));
  get_project_by_id = λ id (db, clock). get_project_by_id c id db;
  get_all_projects = λ (db, clock). get_all_projects c db;
  create_task = λ t (db, clock).
      ((create_task c (clock 0) t db).0, ((create_task c (clock 0) t db).1, λ n. clock (suc n)));
}
