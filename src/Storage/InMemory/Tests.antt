-- ===== src/Storage/InMemory/Tests.antt =====
-- The storage at concrete inputs.
use temp_task.Prelude.{◌≡◌, refl, false, none, [], ◌∷◌, arith, String, pos, ◌+ℤ◌, str, assign}
use temp_task.Models.{User, Project, Task, to_do}
use temp_task.Storage.InMemory.{
  InMemoryStorage, empty_storage, increment, create_user, create_project, create_task, matches_mask,
  search_users_by_login,
}
use temp_task.Storage.InMemory.Laws.{IsValid, empty_storage-IsValid, create-IsValid}

abbrev person : String → User
person login = record {
  id = pos 0;
  login = str login;
  password_hash = str "x";
  first_name = str "Ann";
  last_name = str "Lee";
  email = str "a@b";
  created_at = pos 0;
  is_deleted = false;
}

abbrev project : Project
project = record {
  id = pos 0;
  name = str "P";
  description = str "";
  key = str "K";
  owner_id = pos 1;
  created_at = pos 0;
}

abbrev task : Task
task = record {
  id = pos 0;
  title = str "T";
  description = str "";
  status = to_do;
  project_id = pos 1;
  assignee_id = none;
  creator_id = pos 1;
  priority = pos 3;
  created_at = pos 0;
  updated_at = none;
}

abbrev one_user : InMemoryStorage
one_user = (create_user (person "ann") empty_storage).0

search_test :
    search_users_by_login (str "nn") (create_user (person "bob") one_user).0
    ≡ record (person "ann") { id = pos 1 } ∷ []
unfolding create_user search_users_by_login increment matches_mask assign ◌+ℤ◌
search_test = refl

create-IsValid_example :
    (IsValid (create_user (person "ann") empty_storage).0)
    × (IsValid (create_project project empty_storage).0)
    × (IsValid (create_task task empty_storage).0)
create-IsValid_example =
    create-IsValid (person "ann") project task empty_storage (omega arith) (omega arith)
      (omega arith) empty_storage-IsValid

abbrev ann : User
ann = record (person "ann") { id = pos 1 }
