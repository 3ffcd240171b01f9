-- ===== src/Storage/Sql/Sample.antt =====
-- A cluster that meets the laws: tables as lists of rows, with no replica behind.
pub mod Reading
mod Order
mod Values
pub mod Laws
pub mod ReadingLaws
use temp_task.Prelude.{
  ℕ, ◌≡◌, Bool, true, false, not, ◌&&◌, List, [], ◌∷◌, map, Option, none, some, if◌then◌else◌, ℤ,
  pos, ◌+ℤ◌, leb_ℤ, is_int32, Str, Str_eq, str, str_eq, Dict, find, assign, keep_if, Result, ok,
  throw, std_exception,
}
use temp_task.Storage.Sql.Patterns.{like}
use temp_task.Storage.Sql.{
  Cell, Row, HostType, Select, Insert, Statement, Value, Cluster, text, int, boolean, time, null,
  select, insert,
}
use temp_task.Storage.Sql.Semantics.{meets_all, project, up_to, cell_at, value_of}
use temp_task.Storage.Sql.Sample.Reading.{
  no_result, user_of, project_of, all_users, all_projects, int_of, text_of, time_of,
  optional_int_of, optional_time_of, one_row,
}

pub record Tables : Type 0 where
  pub rows : Dict Str (List Row)
  pub next_id : ℤ

abbrev pub rows_at : Tables → Str → List Row
rows_at db table = elim (find table db.rows) [ none ↦ [] | some rows ↦ rows ]

abbrev pub time_in : Cell → ℤ
time_in (time t) = t
time_in _ = pos 0

abbrev pub time_at : Str → Row → ℤ
time_at column row = time_in (cell_at column row)

unfoldable pub place : Str → Row → List Row → List Row
place column r [] = r ∷ []
place column r (x ∷ rows) =
    if leb_ℤ (time_at column x) (time_at column r) then r ∷ x ∷ rows else x ∷ place column r rows

unfoldable pub newest_first : Str → List Row → List Row
newest_first column [] = []
newest_first column (r ∷ rows) = place column r (newest_first column rows)

abbrev pub in_order : Option Str → List Row → List Row
in_order none rows = rows
in_order (some column) rows = newest_first column rows

abbrev pub is_in_range : Cell → Bool
is_in_range (int z) = is_int32 z
is_in_range _ = true

abbrev pub all_in_range : List Cell → Bool
all_in_range [] = true
all_in_range (c ∷ cs) = is_in_range c && all_in_range cs

abbrev pub is_absent : Str → List Str → Bool
is_absent k [] = true
is_absent k (c ∷ cs) = not (str_eq k c) && is_absent k cs

abbrev pub all_distinct : List Str → Bool
all_distinct [] = true
all_distinct (c ∷ cs) = is_absent c cs && all_distinct cs

abbrev pub row_of : List Cell → List Str → List Value → Row
row_of args (c ∷ cs) (v ∷ vs) = (c, value_of args v) ∷ row_of args cs vs
row_of args _ _ = []

abbrev pub stored_row : Insert → List Cell → ℤ → Row
stored_row i args id = (str "id", int id) ∷ row_of args i.columns i.values

unfoldable pub execute : HostType → Statement → List Cell → Tables → Result (List Row) × Tables
execute h (select q) args db = (
  ok (
      map (project q.columns) (
        up_to q.limit (
          in_order q.newest_first
            (keep_if (meets_all like args q.conditions) (rows_at db q.table))))),
  db,
)
execute h (insert i) args db =
    if all_in_range args && (is_int32 db.next_id && all_distinct (str "id" ∷ i.columns))
    then (
      ok (project i.returning (stored_row i args db.next_id) ∷ []),
      record {
        rows = assign i.table (stored_row i args db.next_id ∷ rows_at db i.table) db.rows;
        next_id = db.next_id +ℤ pos 1;
      },
    )
    else (no_result, db)

abbrev pub sample_cluster : Cluster
sample_cluster = record {
  Db = Tables;
  execute = execute;
  single_row = one_row;
  user_of = user_of;
  project_of = project_of;
  users_of = all_users;
  projects_of = all_projects;
  field = λ row k. elim (find k row) [ none ↦ no_result | some c ↦ ok c ];
  as_int = int_of;
  as_string = text_of;
  as_time = time_of;
  as_optional_int = optional_int_of;
  as_optional_time = optional_time_of;
}
