-- ===== src/Storage/Sql/Semantics.antt =====
-- What a statement asks of the stored rows, and what the service relies on of the cluster.
use mathlib.Core.List.{Memᴰ}
use temp_task.Prelude.{
  ℕ, zero, suc, ◌≡◌, ◌↔◌, Bool, true, false, ◌&&◌, List, [], ◌∷◌, ◌++◌, map, Option, none, some,
  if◌then◌else◌, ℤ_eq, int_eq, ◌≤ℤ◌, Str, Str_eq, str_eq, find, take, Result, ok, ◌>>=◌,
}
use temp_task.Models.{TimePoint, User, Project}
use temp_task.Storage.Sql.{
  Cell, Row, Condition, Select, Value, text, int, boolean, time, null, equals, ilike, is_false,
  argument, false_literal,
}

-- A column that the row does not have reads as null.
abbrev pub cell_at : Str → Row → Cell
cell_at column row = elim (find column row) [ none ↦ null | some c ↦ c ]

-- $1 is the first argument.
abbrev pub argument_at : ℕ → List Cell → Cell
argument_at zero args = null
argument_at (suc zero) [] = null
argument_at (suc zero) (c ∷ args) = c
argument_at (suc (suc n)) [] = null
argument_at (suc (suc n)) (c ∷ args) = argument_at (suc n) args

-- `=` of two values; null is equal to nothing.
abbrev pub equal_cells : Cell → Cell → Bool
equal_cells (text s) (text t) = str_eq s t
equal_cells (int a) (int b) = int_eq a b
equal_cells _ _ = false

abbrev pub is_false_cell : Cell → Bool
is_false_cell (boolean b) = if b then false else true
is_false_cell _ = false

-- ILIKE of a text and a pattern, by the cluster's test; null is like nothing.
abbrev pub like_cells : (Str → Str → Bool) → Cell → Cell → Bool
like_cells test (text s) (text p) = test s p
like_cells test _ _ = false

-- Some part of the text is the same as the mask.
abbrev pub HasPart : (Str → Str → Bool) → Str → Str → Type 0
HasPart same s mask =
    (before : Str) × (part : Str) × (after : Str) × (s ≡ before ++ (part ++ after))
    × (same part mask ≡ true)

module _ (test : Str → Str → Bool) (args : List Cell) where
  abbrev pub meets : Row → Condition → Bool
  meets row (equals column n) = equal_cells (cell_at column row) (argument_at n args)
  meets row (ilike column n) = like_cells test (cell_at column row) (argument_at n args)
  meets row (is_false column) = is_false_cell (cell_at column row)

  abbrev pub meets_all : List Condition → Row → Bool
  meets_all [] row = true
  meets_all (c ∷ cs) row = meets row c && meets_all cs row

abbrev pub project : List Str → Row → Row
project [] row = []
project (c ∷ cs) row = (c, cell_at c row) ∷ project cs row

abbrev pub up_to {ℓ} : {A : Type ℓ} → Option ℕ → List A → List A
up_to none xs = xs
up_to (some n) xs = take n xs

-- The times of a column never increase.
abbrev pub NotOlder : Cell → Cell → Type 0
NotOlder (time a) (time b) = b ≤ℤ a
NotOlder _ _ = Unit {0}

abbrev pub IsNewestFirst : Str → List Row → Type 0
IsNewestFirst column [] = Unit {0}
IsNewestFirst column (r ∷ []) = Unit {0}
IsNewestFirst column (r ∷ r' ∷ rows) =
    NotOlder (cell_at column r) (cell_at column r') × IsNewestFirst column (r' ∷ rows)

abbrev pub IsOrdered : Option Str → List Row → Type 0
IsOrdered none rows = Unit {0}
IsOrdered (some column) rows = IsNewestFirst column rows

-- A result answers a query: some arrangement of the stored rows that meet its conditions, in its order,
-- cut at its limit, with its columns.
pub record Answers (test : Str → Str → Bool) (q : Select) (args : List Cell)
    (stored rows : List Row) : Type 0 where
  pub listed : List Row
  pub chosen :
      (r : Row) → Memᴰ r listed ↔ (Memᴰ r stored × (meets_all test args q.conditions r ≡ true))
  pub ordered : IsOrdered q.newest_first listed
  pub cut : rows ≡ map (project q.columns) (up_to q.limit listed)

abbrev pub value_of : List Cell → Value → Cell
value_of args (argument n) = argument_at n args
value_of args false_literal = boolean false

-- What is kept of a value: a time is rounded to the precision of the column.
abbrev pub kept : (TimePoint → TimePoint) → Cell → Cell
kept rounded (time t) = time (rounded t)
kept rounded (text s) = text s
kept rounded (int z) = int z
kept rounded (boolean b) = boolean b
kept rounded null = null

-- A row has the values of an insertion.
abbrev pub HasValues : (TimePoint → TimePoint) → List Cell → List Str → List Value → Row → Type 0
HasValues rounded args (c ∷ cs) (v ∷ vs) row =
    (cell_at c row ≡ kept rounded (value_of args v)) × HasValues rounded args cs vs row
HasValues rounded args _ _ row = Unit {0}

abbrev pub cells : Row → List Cell
cells = map (λ c. c.1)

-- The fields of the structs in their order.
abbrev pub user_cells : User → List Cell
user_cells u =
    int u.id
    ∷ text u.login
    ∷ text u.password_hash
    ∷ text u.first_name
    ∷ text u.last_name
    ∷ text u.email
    ∷ time u.created_at
    ∷ boolean u.is_deleted
    ∷ []

abbrev pub project_cells : Project → List Cell
project_cells p =
    int p.id
    ∷ text p.name
    ∷ text p.description
    ∷ text p.key
    ∷ int p.owner_id
    ∷ time p.created_at
    ∷ []

-- Every row read in turn.
abbrev pub read_all {ℓ} : {A : Type ℓ} → (Row → Result A) → List Row → Result (List A)
read_all read [] = ok []
read_all read (r ∷ rows) = read r >>= λ a. read_all read rows >>= λ as'. ok (a ∷ as')
