-- ===== src/Storage/Sql/Laws.antt =====
-- What the service relies on of the cluster and of the readings of its results.
use mathlib.Core.List.{Memᴰ}
use temp_task.Prelude.{
  ◌≡◌, ◌↔◌, Bool, true, List, [], ◌∷◌, ◌++◌, none, some, ℤ, IsInt32, All, Str, Str_eq, str, find,
  take, ok,
}
use temp_task.Models.{TimePoint, User, Project}
use temp_task.Storage.Sql.{
  Cell, Row, HostType, Select, Insert, Cluster, text, int, time, null, master, select, insert,
}
use temp_task.Storage.Sql.Patterns.{IsPlain}
use temp_task.Storage.Sql.Semantics.{
  Answers, HasPart, HasValues, project, cells, user_cells, project_cells, read_all, cell_at,
}

abbrev pub InRange : Cell → Type 0
InRange (int z) = IsInt32 z
InRange _ = Unit {0}

-- The rows of a table, as a host has them: a replica may be behind. A query answers from the rows of
-- its host. An insertion that succeeds had numbers of type int, stores one row with its values and a
-- number of type int in its column `id`, and gives back that row's columns. ILIKE is
-- LIKE up to case: `%` is like any text, and a mask without special characters between two `%` is like the texts
-- that have a part which is the same as the mask but for case, as the locale has it.
pub record ClusterLaws (c : Cluster) : Type 0 where
  pub rows_of : HostType → c.Db → Str → List Row
  pub ilike_test : Str → Str → Bool
  pub same_but_case : Str → Str → Bool
  pub rounded : TimePoint → TimePoint
  pub same_but_case-refl : (s : Str) → same_but_case s s ≡ true
  pub ilike_test-percent : (s : Str) → ilike_test s (str "%") ≡ true
  pub ilike_test-part :
      (s mask : Str)
      → IsPlain mask
      → (ilike_test s (str "%" ++ mask ++ str "%") ≡ true) ↔ HasPart same_but_case s mask
  pub select-answers :
      (h : HostType) (q : Select) (args : List Cell) (db : c.Db) (rows : List Row)
      → (c.execute h (select q) args db).0 ≡ ok rows
      → Answers ilike_test q args (rows_of h db q.table) rows
  pub insert-stores :
      (i : Insert) (args : List Cell) (db : c.Db) (rows : List Row)
      → (c.execute master (insert i) args db).0 ≡ ok rows
      → (row : Row) × (id : ℤ) × Memᴰ row
          (rows_of master (c.execute master (insert i) args db).1 i.table)
        × (cell_at (str "id") row ≡ int id)
        × IsInt32 id
        × All InRange args
        × HasValues rounded args i.columns i.values row
        × (rows ≡ project i.returning row ∷ [])

-- A row is read into a struct by its fields in order: the cells that are read are those of the struct,
-- all of them. A field is found by its name and read by its type.
pub record ReadingLaws (c : Cluster) : Type 0 where
  pub single-row : (r : Row) → c.single_row (r ∷ []) ≡ ok r
  pub single-sound : (rows : List Row) (r : Row) → c.single_row rows ≡ ok r → rows ≡ r ∷ []
  pub user_of-cells : (r : Row) (u : User) → c.user_of r ≡ ok u → take 8 (cells r) ≡ user_cells u
  pub project_of-row :
      (r : Row) (p : Project)
      → IsInt32 p.id
      → IsInt32 p.owner_id
      → cells r ≡ project_cells p
      → c.project_of r ≡ ok p
  pub project_of-cells :
      (r : Row) (p : Project) → c.project_of r ≡ ok p → take 6 (cells r) ≡ project_cells p
  pub users_of-rows : (rows : List Row) → c.users_of rows ≡ read_all c.user_of rows
  pub projects_of-rows : (rows : List Row) → c.projects_of rows ≡ read_all c.project_of rows
  pub field-find : (r : Row) (k : Str) (v : Cell) → find k r ≡ some v → c.field r k ≡ ok v
  pub as_int-int : (z : ℤ) → IsInt32 z → c.as_int (int z) ≡ ok z
  pub as_string-text : (s : Str) → c.as_string (text s) ≡ ok s
  pub as_time-time : (t : TimePoint) → c.as_time (time t) ≡ ok t
  pub as_optional_int-int : (z : ℤ) → IsInt32 z → c.as_optional_int (int z) ≡ ok (some z)
  pub as_optional_int-null : c.as_optional_int null ≡ ok none
  pub as_optional_time-time : (t : TimePoint) → c.as_optional_time (time t) ≡ ok (some t)
