-- ===== src/Storage/Sql.antt =====
-- The part of SQL that src/storage/postgres_storage.cpp writes, as terms: a statement is the tree of
-- its text. The cluster of userver::storages::postgres that runs it is a parameter.
pub mod Patterns
pub mod Semantics
pub mod Laws
pub mod Sample
use temp_task.Prelude.{ℕ, Bool, List, [], ◌∷◌, Option, ℤ, Str, Dict, Result}
use temp_task.Models.{TimePoint, User, Project}

-- A value of an argument, or of a column of a row.
pub data Cell : Type 0 where
  text : Str → Cell
  int : ℤ → Cell
  boolean : Bool → Cell
  time : TimePoint → Cell
  null : Cell

-- The columns of a row in order.
abbrev pub Row : Type 0
Row = Dict Str Cell

pub data HostType : Type 0 where
  master slave : HostType

-- `column = $n`, `column ILIKE $n` and `column = FALSE`.
pub data Condition : Type 0 where
  equals : Str → ℕ → Condition
  ilike : Str → ℕ → Condition
  is_false : Str → Condition

-- SELECT columns FROM table WHERE conditions ORDER BY newest_first DESC LIMIT limit
pub record Select : Type 0 where
  pub columns : List Str
  pub table : Str
  pub conditions : List Condition
  pub newest_first : Option Str
  pub limit : Option ℕ

-- `$n` and `FALSE`.
pub data Value : Type 0 where
  argument : ℕ → Value
  false_literal : Value

-- INSERT INTO table (columns) VALUES (values) RETURNING returning
pub record Insert : Type 0 where
  pub table : Str
  pub columns : List Str
  pub values : List Value
  pub returning : List Str

pub data Statement : Type 0 where
  select : Select → Statement
  insert : Insert → Statement

-- Execute of a cluster, and the readings of a result: AsSingleRow, a row of a struct by its fields in
-- order (kRowTag), AsContainer, `row[name]`, and `As` of a field.
pub record Cluster : Type 1 where
  pub Db : Type 0
  pub execute : HostType → Statement → List Cell → Db → Result (List Row) × Db
  pub single_row : List Row → Result Row
  pub user_of : Row → Result User
  pub project_of : Row → Result Project
  pub users_of : List Row → Result (List User)
  pub projects_of : List Row → Result (List Project)
  pub field : Row → Str → Result Cell
  pub as_int : Cell → Result ℤ
  pub as_string : Cell → Result Str
  pub as_time : Cell → Result TimePoint
  pub as_optional_int : Cell → Result (Option ℤ)
  pub as_optional_time : Cell → Result (Option TimePoint)
