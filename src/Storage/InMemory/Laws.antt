-- ===== src/Storage/InMemory/Laws.antt =====
-- What is stored under new ids, and what the searches give back.
use temp_task.Prelude.{
  ◌≡◌, refl, [], ◌∷◌, ◌++◌, none, some, arith, if◌then◌else◌, ◌==◌, All, ℤ, pos, int_eq_iff,
  +ℤ_parts, ◌≤ℤ◌, ◌<ℤ◌, ℤ_eq, Str, Str_eq, Dict, assign, find, find-assign,
}
use temp_task.Models.{User, Project, Task}
use temp_task.Storage.InMemory.{
  InMemoryStorage, empty_storage, increment, create_user, first_with_login, get_user_by_login,
  create_project, get_project_by_id, create_task,
}

-- No key has two entries.
abbrev Distinct : {V : Type 0} → Dict ℤ V → Type 0
Distinct [] = Unit {0}
Distinct ((k, v) ∷ m) = (find k m ≡ none) × Distinct m

-- Every entry stands under its own id, the ids run from 1 and are below the next one, and no two entries have
-- the same one.
abbrev Numbered : {V : Type 0} → (V → ℤ) → ℤ → Dict ℤ V → Type 0
Numbered id_of next m =
    All (λ e. (id_of e.1 ≡ e.0) × (pos 1 ≤ℤ e.0) × (e.0 <ℤ next)) m × (pos 1 ≤ℤ next) × Distinct m

pub record IsValid (s : InMemoryStorage) : Type 0 where
  pub users : Numbered (λ (u : User). u.id) s.next_user_id s.users
  pub projects : Numbered (λ (p : Project). p.id) s.next_project_id s.projects
  pub tasks : Numbered (λ (t : Task). t.id) s.next_task_id s.tasks

module _ {V : Type 0} (id_of : V → ℤ) where
  -- Nothing is stored yet under the next id: the entry is a new one.
  assign-next :
      (next : ℤ) (v : V) (m : Dict ℤ V)
      → Numbered id_of next m
      → assign next v m ≡ m ++ (next, v) ∷ []
  unfolding assign
  assign-next next v [] h = refl
  assign-next next v ((k, w) ∷ m) h =
      ground (arith, int_eq_iff k next, assign-next next v m (h.0.1, h.1, h.2.1))

  find-append :
      (k next : ℤ) (v : V) (m : Dict ℤ V)
      → k <ℤ next
      → find k m ≡ none
      → find k (m ++ (next, v) ∷ []) ≡ none
  unfolding find
  find-append k next v [] lt h = ground (arith, int_eq_iff next k)
  find-append k next v ((j, w) ∷ m) lt h = ground (arith, int_eq_iff j k, find-append k next v m lt)

  Distinct-append :
      (next : ℤ) (v : V) (m : Dict ℤ V) → Numbered id_of next m → Distinct (m ++ (next, v) ∷ [])
  unfolding find
  Distinct-append next v [] h = (refl, tt)
  Distinct-append next v ((k, w) ∷ m) h =
      (find-append k next v m h.0.0.2 h.2.0, Distinct-append next v m (h.0.1, h.1, h.2.1))

  increment-lt : (next : ℤ) → next <ℤ pos 2147483647 → next <ℤ increment next
  unfolding increment
  increment-lt next h = ground (arith, int_eq_iff next (pos 2147483647), +ℤ_parts next (pos 1))

  Numbered-mono :
      (next later : ℤ) (m : Dict ℤ V)
      → next ≤ℤ later
      → Numbered id_of next m
      → Numbered id_of later m
  Numbered-mono next later [] le h = (tt, omega arith, tt)
  Numbered-mono next later ((k, w) ∷ m) le h =
      let rest = Numbered-mono next later m le (h.0.1, h.1, h.2.1) in
      (((h.0.0.0, h.0.0.1, omega arith), rest.0), rest.1, h.2)

  Numbered-append :
      (next : ℤ) (v : V) (m : Dict ℤ V)
      → id_of v ≡ next
      → next <ℤ pos 2147483647
      → Numbered id_of next m
      → Numbered id_of (increment next) (m ++ (next, v) ∷ [])
  Numbered-append next v [] e lt h =
      let up = increment-lt next lt in
      (((e, h.1, up), tt), omega arith, Distinct-append next v [] h)
  Numbered-append next v ((k, w) ∷ m) e lt h =
      let up = increment-lt next lt in
      let rest = Numbered-append next v m e lt (h.0.1, h.1, h.2.1) in
      (((h.0.0.0, h.0.0.1, omega arith), rest.0), rest.1, Distinct-append next v ((k, w) ∷ m) h)

  assign-Numbered :
      (next : ℤ) (v : V) (m : Dict ℤ V)
      → id_of v ≡ next
      → next <ℤ pos 2147483647
      → Numbered id_of next m
      → Numbered id_of (increment next) (assign next v m)
  assign-Numbered next v m e lt h = rw (assign-next next v m h) (Numbered-append next v m e lt h)

pub empty_storage-IsValid : IsValid empty_storage
empty_storage-IsValid = record {
  users = (tt, omega arith, tt);
  projects = (tt, omega arith, tt);
  tasks = (tt, omega arith, tt);
}

-- Creating a user, a project or a task keeps every entry under its own id, the ids from 1 on and
-- below the next one, and no two entries under one id, as long as no counter has reached the largest `int`.
pub create-IsValid :
    (u : User) (p : Project) (t : Task) (s : InMemoryStorage)
    → s.next_user_id <ℤ pos 2147483647
    → s.next_project_id <ℤ pos 2147483647
    → s.next_task_id <ℤ pos 2147483647
    → IsValid s
    → IsValid (create_user u s).0 × IsValid (create_project p s).0 × IsValid (create_task t s).0
unfolding create_user create_project create_task
create-IsValid u p t s lt_u lt_p lt_t v = (
  record {
    users = assign-Numbered _ s.next_user_id _ s.users refl lt_u v.users;
    projects = v.projects;
    tasks = v.tasks;
  },
  record {
    users = v.users;
    projects = assign-Numbered _ s.next_project_id _ s.projects refl lt_p v.projects;
    tasks = v.tasks;
  },
  record {
    users = v.users;
    projects = v.projects;
    tasks = assign-Numbered _ s.next_task_id _ s.tasks refl lt_t v.tasks;
  },
)

first_with_login-append :
    (login : Str) (id : ℤ) (new : User) (m : Dict ℤ User)
    → first_with_login login (m ++ (id, new) ∷ []) ≡ (elim (first_with_login login m) [
      | none ↦ if new.login == login then some new else none
      | some old ↦ some old
    ])
unfolding first_with_login
first_with_login-append login id new [] = refl
first_with_login-append login id new ((k, u) ∷ m) =
    ground (arith, first_with_login-append login id new m)

-- A look-up by login after a user was created: an older user with the login is still found first,
-- otherwise the new one is, with its new id, if it has the login.
pub get_user_by_login-create_user :
    (login : Str) (u : User) (s : InMemoryStorage)
    → IsValid s
    → get_user_by_login login (create_user u s).0 ≡ (elim (get_user_by_login login s) [
      | none ↦ if u.login == login then (create_user u s).1 else none
      | some old ↦ some old
    ])
unfolding get_user_by_login create_user
get_user_by_login-create_user login u s v =
    rw
      (assign-next (λ (u : User). u.id) s.next_user_id (record u { id = s.next_user_id }) s.users
        v.users)
      (first_with_login-append login s.next_user_id (record u { id = s.next_user_id }) s.users)

-- A project is found by the id it was created with, and creating it hides no other project.
get_project_by_id-create_project :
    (id : ℤ) (p : Project) (s : InMemoryStorage)
    → get_project_by_id id (create_project p s).0
      ≡ (if s.next_project_id == id then (create_project p s).1 else get_project_by_id id s)
unfolding get_project_by_id create_project
get_project_by_id-create_project id p s =
    find-assign s.next_project_id id (record p { id = s.next_project_id }) s.projects
