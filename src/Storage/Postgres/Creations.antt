-- ===== src/Storage/Postgres/Creations.antt =====
-- What the creations of PostgresStorage give back.
use mathlib.Core.List.{Memᴰ}
use temp_task.Prelude.{
  ℕ, zero, suc, ◌≤◌, ◌<◌, length, take, ◌≡◌, refl, ap, ◌∙◌, List, [], ◌∷◌, Option, none, some,
  arith, ℤ, IsInt32, Str, str, ok, throw, Exception, find, Str_eq, Result-cases, inl, inr,
}
use temp_task.Models.{TimePoint, User, Project, Task, task_status_to_string}
use temp_task.Models.Laws.{from_string-to_string}
use temp_task.Storage.Sql.{Cell, Row, Cluster, text, int, master, insert}
use temp_task.Storage.Sql.Semantics.{HasValues, project, cells, cell_at, project_cells, kept}
use temp_task.Storage.Sql.Laws.{ClusterLaws, ReadingLaws, InRange}
use temp_task.Storage.Postgres.{
  optional_row, create_user, create_project, create_task, read_task, first_task,
}
use temp_task.Storage.Postgres.Statements.{
  insert_user, insert_project, insert_task, project_columns, optional_int, user_arguments,
  project_arguments, task_arguments,
}

abbrev pub OptionalInt32 : Option ℤ → Type 0
OptionalInt32 none = Unit {0}
OptionalInt32 (some z) = IsInt32 z

assignee-InRange : (assignee : Option ℤ) → InRange (optional_int assignee) → OptionalInt32 assignee
assignee-InRange none h = tt
assignee-InRange (some z) h = h

length-take-le : {A : Type 0} (n : ℕ) (xs : List A) → length (take n xs) ≤ length xs
length-take-le zero xs = omega arith
length-take-le (suc n) [] = omega arith
length-take-le (suc n) (x ∷ xs) = omega (arith, length-take-le n xs)

length-cells : (r : Row) → length (cells r) ≡ length r
length-cells [] = refl
length-cells (c ∷ r) = omega (arith, length-cells r)

-- A row with fewer columns than the struct has fields is refused.
user_of-short :
    (c : Cluster) (reading : ReadingLaws c) (r : Row)
    → length r < 8
    → (e : Exception) × (c.user_of r ≡ throw e)
user_of-short c reading r few = elim (Result-cases (c.user_of r)) [
  | inr thrown ↦ thrown
  | inl (u, read) ↦ absurd (
      omega (
        arith,
        ap length (reading.user_of-cells r u read),
        length-take-le 8 (cells r),
        length-cells r,
      ))
]

module _ (c : Cluster) (sql : ClusterLaws c) (reading : ReadingLaws c) where
  -- A user that the cluster stores is not given back: the statement returns seven columns and the struct
  -- has eight fields, so CreateUser throws, and the row with the login stays.
  pub create_user_throws :
      (user : User) (db : c.Db) (rows : List Row)
      → (c.execute master (insert insert_user) (user_arguments user) db).0 ≡ ok rows
      → (row : Row) × (e : Exception) × Memᴰ row
          (sql.rows_of master (create_user c user db).1 (str "users"))
        × (cell_at (str "login") row ≡ text user.login)
        × ((create_user c user db).0 ≡ throw e)
  unfolding create_user optional_row
  create_user_throws user db rows run =
      let (row, id, stored, is_id, range, given, values, returned) =
        sql.insert-stores insert_user (user_arguments user) db rows run in
      let (e, short) = user_of-short c reading (project insert_user.returning row) (omega arith) in
      (
        row,
        e,
        stored,
        values.0,
        rw (run, returned, reading.single-row (project insert_user.returning row), short),
      )

  -- A project that the cluster stores is given back with its new id, and its time rounded to the
  -- precision of the column: a row of the table `projects` has that id, and the values of the project that was given.
  pub create_project_returns :
      (project : Project) (db : c.Db) (rows : List Row)
      → (c.execute master (insert insert_project) (project_arguments project) db).0 ≡ ok rows
      → (row : Row) × (id : ℤ) × IsInt32 id
        × Memᴰ row (sql.rows_of master (create_project c project db).1 (str "projects"))
        × (cell_at (str "id") row ≡ int id)
        × HasValues sql.rounded
            (project_arguments project)
            insert_project.columns
            insert_project.values
            row
        × ((create_project c project db).0
            ≡ ok (some (record project { id = id; created_at = sql.rounded project.created_at })))
  unfolding create_project optional_row
  create_project_returns p db rows run =
      let (row, id, stored, is_id, range, given, values, returned) =
        sql.insert-stores insert_project (project_arguments p) db rows run in
      let made : Project = record p { id = id; created_at = sql.rounded p.created_at } in
      let is_row : cells (project project_columns row) ≡ project_cells made =
        cc (is_id, values.0, values.1.0, values.1.1.0, values.1.1.1.0, values.1.1.1.1.0) in
      (
        row,
        id,
        range,
        stored,
        is_id,
        values,
        rw (
          run,
          returned,
          reading.single-row (project project_columns row),
          reading.project_of-row (project project_columns row) made range given.1.1.1.0 is_row,
        ),
      )

  field_at :
      (row : Row) (k : Str) (v : Cell)
      → find k (project insert_task.returning row) ≡ some (cell_at k row)
      → cell_at k row ≡ v
      → c.field (project insert_task.returning row) k ≡ ok v
  field_at row k v found e =
      reading.field-find (project insert_task.returning row) k (cell_at k row) found ∙ ap ok e

  assignee_back :
      (assignee : Option ℤ)
      → OptionalInt32 assignee
      → c.as_optional_int (kept sql.rounded (optional_int assignee)) ≡ ok assignee
  assignee_back none h = reading.as_optional_int-null
  assignee_back (some z) h = reading.as_optional_int-int z h

  -- The row of a stored task is read back into it.
  read_task-stored :
      (now : TimePoint) (task : Task) (row : Row) (id : ℤ)
      → IsInt32 id
      → IsInt32 task.project_id
      → IsInt32 task.creator_id
      → IsInt32 task.priority
      → OptionalInt32 task.assignee_id
      → cell_at (str "id") row ≡ int id
      → HasValues sql.rounded (task_arguments now task) insert_task.columns insert_task.values row
      → read_task c (project insert_task.returning row)
        ≡ ok (record task {
          id = id;
          created_at = sql.rounded now;
          updated_at = some (sql.rounded now);
        })
  unfolding read_task find
  read_task-stored now task row id id_r project_r creator_r priority_r assignee_r is_id values =
      let (title, rest) = values in
      let (description, rest) = rest in
      let (status, rest) = rest in
      let (project_id, rest) = rest in
      let (creator, rest) = rest in
      let (assignee, rest) = rest in
      let (priority, rest) = rest in
      let (made, rest) = rest in
      rw (
        field_at row (str "id") _ refl is_id,
        reading.as_int-int id id_r,
        field_at row (str "title") _ refl title,
        reading.as_string-text task.title,
        field_at row (str "description") _ refl description,
        reading.as_string-text task.description,
        field_at row (str "status") _ refl status,
        reading.as_string-text (task_status_to_string task.status),
        field_at row (str "project_id") _ refl project_id,
        reading.as_int-int task.project_id project_r,
        field_at row (str "creator_id") _ refl creator,
        reading.as_int-int task.creator_id creator_r,
        field_at row (str "assignee_id") _ refl assignee,
        assignee_back task.assignee_id assignee_r,
        field_at row (str "priority") _ refl priority,
        reading.as_int-int task.priority priority_r,
        field_at row (str "created_at") _ refl made,
        reading.as_time-time (sql.rounded now),
        field_at row (str "updated_at") _ refl rest.0,
        reading.as_optional_time-time (sql.rounded now),
        from_string-to_string task.status,
      )

  -- A task that the cluster stores is given back with its new id, every field as it was given but the two
  -- times, which are the time of the creation, rounded to the precision of the column: a row of the table `tasks` has
  -- that id, and the values of the task that was given.
  pub create_task_returns :
      (now : TimePoint) (task : Task) (db : c.Db) (rows : List Row)
      → (c.execute master (insert insert_task) (task_arguments now task) db).0 ≡ ok rows
      → (row : Row) × (id : ℤ) × IsInt32 id
        × Memᴰ row (sql.rows_of master (create_task c now task db).1 (str "tasks"))
        × (cell_at (str "id") row ≡ int id)
        × HasValues sql.rounded (task_arguments now task) insert_task.columns insert_task.values row
        × ((create_task c now task db).0
            ≡ ok (
                some (record task {
                  id = id;
                  created_at = sql.rounded now;
                  updated_at = some (sql.rounded now);
                })))
  unfolding create_task first_task
  create_task_returns now task db rows run =
      let (row, id, stored, is_id, range, given, values, returned) =
        sql.insert-stores insert_task (task_arguments now task) db rows run in
      (
        row,
        id,
        range,
        stored,
        is_id,
        values,
        rw (
          run,
          returned,
          read_task-stored now task row id range given.1.1.1.0 given.1.1.1.1.0 given.1.1.1.1.1.1.0
              (assignee-InRange task.assignee_id given.1.1.1.1.1.0) is_id values,
        ),
      )
