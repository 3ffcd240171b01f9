-- ===== src/Storage/Sql/Sample/Reading.antt =====
-- The readings of rows of the sample cluster, and that they meet their laws.
use temp_task.Prelude.{
  Bool, List, [], ◌∷◌, Option, none, some, if◌then◌else◌, ℤ, is_int32, Str, str, Result, ok, throw,
  std_exception, ◌>>=◌,
}
use temp_task.Models.{TimePoint, User, Project}
use temp_task.Storage.Sql.{Cell, Row, text, int, boolean, time, null}
use temp_task.Storage.Sql.Semantics.{cells, read_all}

abbrev pub no_result {ℓ} : {A : Type ℓ} → Result A
no_result = throw (std_exception (str "no result"))

abbrev pub one_row : List Row → Result Row
one_row [] = no_result
one_row (r ∷ []) = ok r
one_row (r ∷ r' ∷ rows) = no_result

abbrev pub int_of : Cell → Result ℤ
int_of (int z) = if is_int32 z then ok z else no_result
int_of _ = no_result

abbrev pub text_of : Cell → Result Str
text_of (text s) = ok s
text_of _ = no_result

abbrev pub time_of : Cell → Result TimePoint
time_of (time t) = ok t
time_of _ = no_result

abbrev pub boolean_of : Cell → Result Bool
boolean_of (boolean b) = ok b
boolean_of _ = no_result

abbrev pub optional_int_of : Cell → Result (Option ℤ)
optional_int_of null = ok none
optional_int_of c = int_of c >>= λ z. ok (some z)

abbrev pub optional_time_of : Cell → Result (Option TimePoint)
optional_time_of null = ok none
optional_time_of c = time_of c >>= λ t. ok (some t)

-- The next cell, read.
abbrev pub next {ℓ} : {A : Type ℓ} → (Cell → Result A) → List Cell → Result (A × List Cell)
next as' [] = no_result
next as' (c ∷ cs) = as' c >>= λ a. ok (a, cs)

abbrev pub read_user : List Cell → Result User
read_user cs = do
  (id, cs1) ← next int_of cs
  (login, cs2) ← next text_of cs1
  (password_hash, cs3) ← next text_of cs2
  (first_name, cs4) ← next text_of cs3
  (last_name, cs5) ← next text_of cs4
  (email, cs6) ← next text_of cs5
  (created_at, cs7) ← next time_of cs6
  (is_deleted, cs8) ← next boolean_of cs7
  ok (record {
    id = id;
    login = login;
    password_hash = password_hash;
    first_name = first_name;
    last_name = last_name;
    email = email;
    created_at = created_at;
    is_deleted = is_deleted;
  })

abbrev pub read_project : List Cell → Result Project
read_project cs = do
  (id, cs1) ← next int_of cs
  (name, cs2) ← next text_of cs1
  (description, cs3) ← next text_of cs2
  (key, cs4) ← next text_of cs3
  (owner_id, cs5) ← next int_of cs4
  (created_at, cs6) ← next time_of cs5
  ok (record {
    id = id;
    name = name;
    description = description;
    key = key;
    owner_id = owner_id;
    created_at = created_at;
  })

unfoldable pub user_of : Row → Result User
user_of row = read_user (cells row)

unfoldable pub project_of : Row → Result Project
project_of row = read_project (cells row)

unfoldable pub all_users : List Row → Result (List User)
all_users rows = read_all user_of rows

unfoldable pub all_projects : List Row → Result (List Project)
all_projects rows = read_all project_of rows
