-- ===== src/Storage/InMemory.antt =====
-- src/storage/in_memory_storage.hpp and in_memory_storage.cpp. The maps are association lists in the
-- order in which a loop over the container meets the entries. The mutex makes each method one step.
pub mod Masks
pub mod Laws
pub mod Searches
mod Tests
use temp_task.Prelude.{
  ℕ, Bool, true, false, ◌&&◌, List, [], ◌∷◌, Option, none, some, if◌then◌else◌, ◌==◌, ℤ, pos,
  negsuc, ℤ_eq, ◌+ℤ◌, Str, Str_eq, is_empty, find_str, Dict, find, assign,
}
use temp_task.Models.{User, Project, Task}

pub record InMemoryStorage : Type 0 where
  pub users : Dict ℤ User
  pub projects : Dict ℤ Project
  pub tasks : Dict ℤ Task
  pub next_user_id : ℤ
  pub next_project_id : ℤ
  pub next_task_id : ℤ

abbrev pub empty_storage : InMemoryStorage
empty_storage = record {
  users = [];
  projects = [];
  tasks = [];
  next_user_id = pos 1;
  next_project_id = pos 1;
  next_task_id = pos 1;
}

-- `++` on an `int`. On overflow, which the language leaves undefined, this is the value that two's
-- complement gives.
unfoldable pub increment : ℤ → ℤ
increment z = if z == pos 2147483647 then negsuc 2147483647 else z +ℤ pos 1

unfoldable pub matches_mask : Str → Str → Bool
unfolding find_str
matches_mask value mask =
    if is_empty mask then true else elim (find_str value mask) [ none ↦ false | some i ↦ true ]

unfoldable pub create_user : User → InMemoryStorage → InMemoryStorage × Option User
create_user user s =
    let new_user = record user { id = s.next_user_id } in
    (
      record s {
        next_user_id = increment s.next_user_id;
        users = assign s.next_user_id new_user s.users;
      },
      some new_user,
    )

unfoldable pub first_with_login : Str → Dict ℤ User → Option User
first_with_login login [] = none
first_with_login login ((id, user) ∷ users) =
    if user.login == login then some user else first_with_login login users

unfoldable pub get_user_by_login : Str → InMemoryStorage → Option User
unfolding first_with_login
get_user_by_login login s = first_with_login login s.users

-- The loop that collects the entries' values which pass a test.
unfoldable pub collect : {V : Type 0} → (V → Bool) → Dict ℤ V → List V
collect test [] = []
collect test ((id, v) ∷ m) = if test v then v ∷ collect test m else collect test m

unfoldable pub search_users_by_login : Str → InMemoryStorage → List User
unfolding collect
search_users_by_login login_mask s = collect (λ user. matches_mask user.login login_mask) s.users

unfoldable pub search_users_by_first_name_last_name : Str → Str → InMemoryStorage → List User
unfolding collect
search_users_by_first_name_last_name first_name_mask last_name_mask s =
    collect
      (λ user.
        matches_mask user.first_name first_name_mask && matches_mask user.last_name last_name_mask)
      s.users

unfoldable pub create_project : Project → InMemoryStorage → InMemoryStorage × Option Project
create_project project s =
    let new_project = record project { id = s.next_project_id } in
    (
      record s {
        next_project_id = increment s.next_project_id;
        projects = assign s.next_project_id new_project s.projects;
      },
      some new_project,
    )

unfoldable pub get_project_by_id : ℤ → InMemoryStorage → Option Project
get_project_by_id id s = find id s.projects

unfoldable pub get_all_projects : InMemoryStorage → List Project
unfolding collect
get_all_projects s = collect (λ project. true) s.projects

unfoldable pub create_task : Task → InMemoryStorage → InMemoryStorage × Option Task
create_task task s =
    let new_task = record task { id = s.next_task_id } in
    (
      record s {
        next_task_id = increment s.next_task_id;
        tasks = assign s.next_task_id new_task s.tasks;
      },
      some new_task,
    )
