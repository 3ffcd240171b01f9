-- ===== src/Storage/Postgres/Tests.antt =====
-- The theorems on PostgresStorage at the sample cluster, with two users in it.
mod Creations
mod Projects
use mathlib.Core.List.{Memᴰ}
use temp_task.Prelude.{
  ◌≤◌, ◌≡◌, ◌≢◌, refl, true, false, Bool, List, [], ◌∷◌, Option, none, some, arith, length, ℤ, pos,
  IsInt32, Str, str, find, find_str, find_from, Result, ok, throw, Exception, ◌+ℤ◌,
}
use temp_task.Models.{
  TimePoint, User, Project, Task, in_progress, task_status_to_string, task_status_from_string,
}
use temp_task.Storage.Sql.{Row, Cluster, text, int, time, boolean, master, slave, select, insert}
use temp_task.Storage.Sql.Semantics.{HasPart}
use temp_task.Storage.Sql.Patterns.{tokens, fits, like}
use temp_task.Storage.Sql.Semantics.{cell_at, project}
use temp_task.Storage.Sql.Sample.{Tables, sample_cluster, execute, place, newest_first}
use temp_task.Storage.Sql.Sample.Reading.{user_of, project_of, all_users, all_projects}
use temp_task.Storage.Sql.Sample.Laws.{sample_cluster_laws}
use temp_task.Storage.Sql.Sample.ReadingLaws.{sample_reading_laws}
use temp_task.Storage.InMemory.{matches_mask}
use temp_task.Storage.Postgres.{
  make_like_pattern, optional_row, create_user, get_user_by_login, search_users_by_login,
  search_users_by_first_name_last_name, create_project, get_project_by_id, get_all_projects,
  create_task, read_task, first_task,
}
use temp_task.Storage.Postgres.Statements.{
  insert_user, insert_project, insert_task, user_arguments, project_arguments, task_arguments,
}
use temp_task.Storage.Postgres.Users.{IsRowOf, get_user_by_login_sound, get_user_by_login_complete}
use temp_task.Storage.Postgres.Searches.{
  search_users_by_login_sound, search_users_by_login_complete, search_users_by_names_sound,
}
use temp_task.Storage.Postgres.Creations.{
  create_user_throws, create_project_returns, create_task_returns,
}

abbrev pub ann : User
ann = record {
  id = pos 7;
  login = str "ann";
  password_hash = str "#";
  first_name = str "Ann";
  last_name = str "Lee";
  email = str "a@b";
  created_at = pos 5;
  is_deleted = false;
}

abbrev pub ann_row : Row
ann_row =
    (str "id", int (pos 7))
    ∷ (str "login", text (str "ann"))
    ∷ (str "password_hash", text (str "#"))
    ∷ (str "first_name", text (str "Ann"))
    ∷ (str "last_name", text (str "Lee"))
    ∷ (str "email", text (str "a@b"))
    ∷ (str "created_at", time (pos 5))
    ∷ (str "is_deleted", boolean false)
    ∷ []

abbrev pub deleted_row : Row
deleted_row =
    (str "id", int (pos 6))
    ∷ (str "login", text (str "bob"))
    ∷ (str "password_hash", text (str "#"))
    ∷ (str "first_name", text (str "Bob"))
    ∷ (str "last_name", text (str "Roe"))
    ∷ (str "email", text (str "b@b"))
    ∷ (str "created_at", time (pos 4))
    ∷ (str "is_deleted", boolean true)
    ∷ []

abbrev bob : User
bob = record {
  id = pos 6;
  login = str "bob";
  password_hash = str "#";
  first_name = str "Bob";
  last_name = str "Roe";
  email = str "b@b";
  created_at = pos 4;
  is_deleted = true;
}

abbrev pub two_users : Tables
two_users = record { rows = (str "users", ann_row ∷ deleted_row ∷ []) ∷ []; next_id = pos 8 }

found_ann : get_user_by_login sample_cluster (str "ann") two_users ≡ ok (some ann)
unfolding get_user_by_login execute user_of find optional_row
found_ann = refl

get_user_by_login_sound_example :
    (row : Row) × Memᴰ row (sample_cluster_laws.rows_of slave two_users (str "users"))
    × IsRowOf ann row
    × ((ann.login ≡ str "ann") × (ann.is_deleted ≡ false))
get_user_by_login_sound_example =
    get_user_by_login_sound sample_cluster sample_cluster_laws sample_reading_laws (str "ann")
      two_users ann found_ann

no_bob : get_user_by_login sample_cluster (str "bob") two_users ≡ ok none
unfolding get_user_by_login execute user_of find optional_row
no_bob = refl

bob_stored : Memᴰ deleted_row (sample_cluster_laws.rows_of slave two_users (str "users"))
unfolding sample_cluster_laws find
bob_stored = Memᴰ.tail (Memᴰ.head refl)

ann_stored : Memᴰ ann_row (sample_cluster_laws.rows_of slave two_users (str "users"))
unfolding sample_cluster_laws find
ann_stored = Memᴰ.head refl

IsRowOf-bob : IsRowOf bob deleted_row
unfolding find
IsRowOf-bob = refl

IsRowOf-ann : IsRowOf ann ann_row
unfolding find
IsRowOf-ann = refl

get_user_by_login_complete_example : bob.is_deleted ≢ false
get_user_by_login_complete_example =
    get_user_by_login_complete sample_cluster sample_cluster_laws sample_reading_laws (str "bob")
      two_users bob deleted_row no_bob bob_stored IsRowOf-bob refl

found_nn : search_users_by_login sample_cluster (str "nn") two_users ≡ ok (ann ∷ [])
unfolding search_users_by_login execute all_users user_of find like tokens fits
found_nn = refl

search_users_by_login_sound_example :
    (length (ann ∷ []) ≤ 100)
    × (row : Row) × Memᴰ row (sample_cluster_laws.rows_of slave two_users (str "users"))
    × IsRowOf ann row
    × (HasPart sample_cluster_laws.same_but_case ann.login (str "nn") × (ann.is_deleted ≡ false))
search_users_by_login_sound_example =
    search_users_by_login_sound sample_cluster sample_cluster_laws sample_reading_laws (str "nn")
      two_users (ann ∷ []) ann (refl, (refl, tt)) found_nn (Memᴰ.head refl)

ann_matches : HasPart sample_cluster_laws.same_but_case ann.login (str "nn")
unfolding sample_cluster_laws
ann_matches = (str "a", str "nn", [], refl, refl)

search_users_by_login_complete_example : (v : User) × Memᴰ v (ann ∷ []) × IsRowOf v ann_row
search_users_by_login_complete_example =
    search_users_by_login_complete sample_cluster sample_cluster_laws sample_reading_laws (str "nn")
      two_users (ann ∷ []) ann ann_row (refl, (refl, tt)) found_nn (omega arith) ann_stored
      IsRowOf-ann ann_matches refl

found_names :
    search_users_by_first_name_last_name sample_cluster (str "A") (str "") two_users ≡ ok (ann ∷ [])
unfolding search_users_by_first_name_last_name execute all_users user_of find like tokens fits
found_names = refl

search_users_by_names_sound_example :
    (length (ann ∷ []) ≤ 100)
    × (row : Row) × Memᴰ row (sample_cluster_laws.rows_of slave two_users (str "users"))
    × IsRowOf ann row
    × (HasPart sample_cluster_laws.same_but_case ann.first_name (str "A")
        × HasPart sample_cluster_laws.same_but_case ann.last_name (str "")
        × (ann.is_deleted ≡ false))
search_users_by_names_sound_example =
    search_users_by_names_sound sample_cluster sample_cluster_laws sample_reading_laws (str "A")
      (str "") two_users (ann ∷ []) ann (refl, tt) tt found_names (Memᴰ.head refl)
