-- ===== src/Greeting.antt =====
-- The greetings of the service template: src/greeting.cpp and the handlers of src/hello.cpp,
-- src/hello_grpc.cpp, src/hello_postgres.cpp and src/hello_mongo.cpp. The execution of the statement and
-- the command that count a visit are parameters.
pub mod Visits
mod Tests
use temp_task.Prelude.{
  ◌≡◌, ◌≢◌, Exception, Bool, true, false, List, [], ◌∷◌, ◌++◌, if◌then◌else◌, is_empty, ℤ, pos,
  ltb_ℤ, ◌+ℤ◌, ◌⊎◌, Option, none, some, Str, str, Result, ok, throw, ◌>>=◌,
}

pub data UserType : Type 0 where
  first_time known : UserType

unfoldable pub say_hello_to : Str → UserType → Str
say_hello_to name type =
    let shown = if is_empty name then str "unknown user" else name in
    elim type [
      | first_time ↦ str "Hello, " ++ (shown ++ str "!\n")
      | known ↦ str "Hi again, " ++ (shown ++ str "!\n")
    ]

-- The HTTP handler of hello.cpp and the gRPC method of hello_grpc.cpp, on the name of the request.
unfoldable pub hello : Str → Str
hello name = say_hello_to name first_time

unfoldable pub say_hello : Str → Str
say_hello name = say_hello_to name first_time

-- INSERT INTO table(key, counted) VALUES($1, first) ON CONFLICT (key) DO UPDATE SET
-- counted = counted + added RETURNING counted.
pub record Upsert : Type 0 where
  pub table : Str
  pub key : Str
  pub counted : Str
  pub first : ℤ
  pub added : ℤ

-- What the statement puts into the row of a key, by the number that is there.
abbrev pub upserted : Upsert → Option ℤ → ℤ
upserted u none = u.first
upserted u (some n) = n +ℤ u.added

unfoldable pub hello_upsert : Upsert
hello_upsert = record {
  table = str "hello_schema.users";
  key = str "name";
  counted = str "count";
  first = pos 1;
  added = pos 1;
}

-- Execute of such a statement on the master, with its single row read as an int.
pub record Executor : Type 1 where
  pub Db : Type 0
  pub upsert : Upsert → Str → Db → Result ℤ × Db

-- FindAndModify of hello_mongo.cpp, with its ModifiedCount.
pub record Counter : Type 1 where
  pub Db : Type 0
  pub visit : Str → Db → Result ℤ × Db

abbrev pub known_above : ℤ → ℤ → UserType
known_above least count = if ltb_ℤ least count then known else first_time

-- A visit, greeted by the number that counting it gives.
abbrev pub greeted : {Db : Type 0} → ℤ → (Db → Result ℤ × Db) → Str → Db → Result Str × Db
greeted least visit name db =
    let (count, db') = visit db in
    (count >>= λ n. ok (say_hello_to name (known_above least n)), db')

unfoldable pub hello_postgres : (pg : Executor) → Str → pg.Db → Result Str × pg.Db
unfolding hello_upsert
hello_postgres pg name db =
    if is_empty name
    then (ok (say_hello_to name first_time), db)
    else greeted (pos 1) (pg.upsert hello_upsert name) name db

unfoldable pub hello_mongo : (counter : Counter) → Str → counter.Db → Result Str × counter.Db
hello_mongo counter name db =
    if is_empty name
    then (ok (say_hello_to name first_time), db)
    else greeted (pos 0) (counter.visit name) name db

-- ON CONFLICT DO UPDATE: a statement that returns has put the number that it returns into the row of the key;
-- one that throws has done this or nothing; and either leaves the rows of other keys alone.
pub record UpsertLaws (pg : Executor) : Type 0 where
  -- the number in the row of a key, by the table and the names of the two columns
  pub number_at : Str → Str → Str → pg.Db → Str → Option ℤ
  pub upsert-ok :
      (u : Upsert) (name : Str) (db : pg.Db) (n : ℤ)
      → (pg.upsert u name db).0 ≡ ok n
      → (n ≡ upserted u (number_at u.table u.key u.counted db name))
        × (number_at u.table u.key u.counted (pg.upsert u name db).1 name ≡ some n)
  pub upsert-throw :
      (u : Upsert) (name : Str) (db : pg.Db) (e : Exception)
      → (pg.upsert u name db).0 ≡ throw e
      → (number_at u.table u.key u.counted (pg.upsert u name db).1 name
          ≡ number_at u.table u.key u.counted db name)
        ⊎ (number_at u.table u.key u.counted (pg.upsert u name db).1 name
            ≡ some (upserted u (number_at u.table u.key u.counted db name)))
  pub upsert-other :
      (u : Upsert) (name other : Str) (db : pg.Db)
      → other ≢ name
      → number_at u.table u.key u.counted (pg.upsert u name db).1 other
        ≡ number_at u.table u.key u.counted db other
