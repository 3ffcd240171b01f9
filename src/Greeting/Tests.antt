-- ===== src/Greeting/Tests.antt =====
-- Greetings with a table that is an association list, the key and the number of each row.
use temp_task.Prelude.{
  ◌≡◌, refl, [], ◌∷◌, ◌++◌, arith, ℤ, ◌+ℤ◌, none, Str, Str_eq, str, ok, Dict, find, assign,
  find-assign, str_eq_iff,
}
use temp_task.Greeting.{
  first_time, known, say_hello_to, Executor, UpsertLaws, upserted, hello_upsert, hello_postgres,
}
use temp_task.Greeting.Visits.{after, count_of, greeted_again}

-- The tables, each under its name and those of its columns.
abbrev dict_executor : Executor
dict_executor = record {
  Db = Str → Str → Str → Dict Str ℤ;
  upsert = λ u name db.
      let n = upserted u (find name (db u.table u.key u.counted)) in
      (ok n, λ t k c. assign name n (db t k c));
}

dict_executor_laws : UpsertLaws dict_executor
dict_executor_laws = record {
  number_at = λ t k c db name. find name (db t k c);
  upsert-ok = λ u name db n h. (
    cc,
    ground (
      arith,
      str_eq_iff name name,
      find-assign name name n (db u.table u.key u.counted),
      find-assign name name (upserted u (find name (db u.table u.key u.counted)))
          (db u.table u.key u.counted),
    ),
  );
  upsert-throw = λ u name db e h. absurd (cc);
  upsert-other = λ u name other db h. ground (
    arith,
    str_eq_iff name other,
    h,
    find-assign name other (upserted u (find name (db u.table u.key u.counted)))
        (db u.table u.key u.counted),
  );
}

abbrev no_rows : dict_executor.Db
no_rows = λ t k c. []

-- The texts of src/greeting_test.cpp.
hello_developer : say_hello_to (str "Developer") first_time ≡ str "Hello, Developer!\n"
unfolding say_hello_to
hello_developer = refl

hello_unknown : say_hello_to [] known ≡ str "Hi again, unknown user!\n"
unfolding say_hello_to
hello_unknown = refl

no_row : count_of dict_executor dict_executor_laws no_rows (str "Ann") ≡ none
unfolding dict_executor_laws find
no_row = refl

first_visit : (hello_postgres dict_executor (str "Ann") no_rows).0 ≡ ok (str "Hello, Ann!\n")
unfolding hello_postgres say_hello_to find hello_upsert
first_visit = refl

later_visit :
    (hello_postgres dict_executor (str "Ann") (
      after dict_executor dict_executor_laws
        (str "Bob" ∷ [])
        (hello_postgres dict_executor (str "Ann") no_rows).1)).0
    ≡ ok (str "Hi again, Ann!\n")
unfolding hello_postgres say_hello_to after find assign ◌+ℤ◌ hello_upsert
later_visit = refl

greeted_again_example :
    (str "Hello, Ann!\n" ≡ str "Hello, " ++ (str "Ann" ++ str "!\n"))
    × (str "Hi again, Ann!\n" ≡ str "Hi again, " ++ (str "Ann" ++ str "!\n"))
greeted_again_example =
    greeted_again dict_executor dict_executor_laws (str "Ann") no_rows (str "Bob" ∷ [])
      (str "Hello, Ann!\n") (str "Hi again, Ann!\n") refl no_row first_visit later_visit
