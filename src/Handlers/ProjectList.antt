-- ===== src/Handlers/ProjectList.antt =====
-- The cached list of projects against the database.
use temp_task.Prelude.{
  ◌≡◌, ◌∙◌, inl, inr, List, Option, none, some, arith, map, ℤ, pos, Str, Str_eq, find, find-assign,
  find-erase, ok, throw, Exception, Result-cases, Option-cases,
}
use temp_task.Models.{User, Project, Task}
use temp_task.Cache.{Cache, CacheEntry, get, set, deadline, invalidate}
use temp_task.Handlers.{
  Services, Request, Readings, World, Handler, HttpStatus, returned, respond, storing, caching,
  ◌>>=◌, ◌>>◌,
}
use temp_task.Handlers.Invariants.{Keeps, steps}
use temp_task.Handlers.Projects.{
  projects_key, project_json, publish_project, create_named_project, post_project, answer_projects,
  get_projects,
}

-- The body that lists the projects.
abbrev pub projects_text : (s : Services) → List Project → Str
projects_text s projects = s.json.to_text (s.json.array (map (project_json s.json) projects))

-- The list in the cache, whether its time is over or not, is the one in the database.
unfoldable pub IsCoherent : (s : Services) → s.storage.Db → Cache → Type 0
IsCoherent s db cache =
    (e : CacheEntry)
    → find projects_key cache ≡ some e
    → (projects : List Project) × (s.storage.get_all_projects db ≡ ok projects)
      × (e.value ≡ projects_text s projects)

abbrev pub Coherent : (s : Services) → World s → Type 0
Coherent s w = IsCoherent s w.db w.cache

module _ (s : Services) where
  get-IsCoherent :
      (db : s.storage.Db) (now : ℤ) (cache : Cache)
      → IsCoherent s db cache
      → IsCoherent s db (get projects_key now cache).0
  unfolding IsCoherent get
  get-IsCoherent db now cache h e found =
      h e (ground (arith, find-erase projects_key projects_key cache))

  absent-IsCoherent :
      (db : s.storage.Db) (cache : Cache) → IsCoherent s db (invalidate projects_key cache)
  unfolding IsCoherent invalidate
  absent-IsCoherent db cache e found =
      absurd (ground (arith, find-erase projects_key projects_key cache))

  set-IsCoherent :
      (db : s.storage.Db) (cache : Cache) (projects : List Project) (ttl now : ℤ)
      → s.storage.get_all_projects db ≡ ok projects
      → IsCoherent s db (set projects_key (projects_text s projects) ttl now cache)
  unfolding IsCoherent set
  set-IsCoherent db cache projects ttl now read e found = (
    projects,
    read,
    ground (
      arith,
      find-assign projects_key projects_key
          (record { value = projects_text s projects; expires_at = deadline now ttl }) cache,
    ),
  )

  pub moved-IsCoherent :
      (db db' : s.storage.Db) (cache : Cache)
      → s.storage.get_all_projects db' ≡ s.storage.get_all_projects db
      → IsCoherent s db cache
      → IsCoherent s db' cache
  unfolding IsCoherent
  moved-IsCoherent db db' cache same h e found =
      let (projects, read, text) = h e found in (projects, same ∙ read, text)

  respond-Coherent : (status : HttpStatus) (body : Str) → Keeps (Coherent s) (respond status body)
  unfolding Keeps
  respond-Coherent status body w h = h

module _ (s : Services) (request : Request) (at : Readings) where
  -- Where the cached list is the one in the database, the answer is the list in the database, from the
  -- cache or not, if the query for it works.
  pub get_projects-eq-projects_text :
      (w : World s) (projects : List Project)
      → IsCoherent s w.db w.cache
      → s.storage.get_all_projects w.db ≡ ok projects
      → (get_projects s request at w).0 ≡ returned (projects_text s projects)
  unfolding get_projects answer_projects get IsCoherent
  get_projects-eq-projects_text w projects h read =
      elim (Option-cases (find projects_key w.cache)) [
        | inl missing ↦ ground arith
        | inr (e, found) ↦ let (cached, stored, same) = h e found in ground arith
      ]

  -- Listing the projects keeps the cached list the one in the database.
  pub get_projects-IsCoherent :
      (w : World s)
      → IsCoherent s w.db w.cache
      → IsCoherent s (get_projects s request at w).1.db (get_projects s request at w).1.cache
  unfolding get_projects answer_projects
  get_projects-IsCoherent w h = elim (Option-cases (get projects_key at.read_at w.cache).1) [
    | inl missing ↦ elim (Result-cases (s.storage.get_all_projects w.db)) [
      | inl (projects, read) ↦
          rw (missing, read) (set-IsCoherent s w.db _ projects (pos 300) at.cached_at read)
      | inr (x, failed) ↦ rw (missing, failed) (get-IsCoherent s w.db at.read_at w.cache h)
    ]
    | inr (t, found) ↦ rw found (get-IsCoherent s w.db at.read_at w.cache h)
  ]

-- What the storage's methods leave alone: a creation of a project that throws, and every other creation,
-- changes no list of projects.
pub record ProjectLaws (s : Services) : Type 0 where
  pub create_project-throw :
      (p : Project) (db : s.storage.Db) (e : Exception)
      → (s.storage.create_project p db).0 ≡ throw e
      → s.storage.get_all_projects (s.storage.create_project p db).1 ≡ s.storage.get_all_projects db
  pub create_task :
      (t : Task) (db : s.storage.Db)
      → s.storage.get_all_projects (s.storage.create_task t db).1 ≡ s.storage.get_all_projects db
  pub create_user :
      (u : User) (db : s.storage.Db)
      → s.storage.get_all_projects (s.storage.create_user u db).1 ≡ s.storage.get_all_projects db

module _ (s : Services) (laws : ProjectLaws s) (request : Request) (at : Readings) where
  publish_project-Coherent :
      (o : Option Project) → Keeps (Coherent s) (publish_project s request at o)
  unfolding Keeps publish_project
  publish_project-Coherent none w h = h
  publish_project-Coherent (some p) w h = h

  create-Coherent :
      {B : Type 0} (p : Project) (next : Option Project → Handler s B)
      → ((o : Option Project) → Keeps (Coherent s) (next o))
      → Keeps (Coherent s) (
          storing (s.storage.create_project p) >>= λ o. caching (invalidate projects_key) >> next o)
  unfolding Keeps
  create-Coherent p next h w c = elim (Result-cases (s.storage.create_project p w.db).0) [
    | inl (o, made) ↦ rw made (h o _ (absent-IsCoherent s _ w.cache))
    | inr (e, failed) ↦
        rw failed (moved-IsCoherent s w.db _ w.cache (laws.create_project-throw p w.db e failed) c)
  ]

  create_named_project-Coherent :
      (user_id : ℤ) (body : s.json.Value)
      → Keeps (Coherent s) (create_named_project s request at user_id body)
  unfolding create_named_project
  create_named_project-Coherent user_id body =
      search (steps, create-Coherent, publish_project-Coherent, respond-Coherent) depth 20

  pub post_project-Coherent : Keeps (Coherent s) (post_project s request at)
  unfolding post_project
  post_project-Coherent = search (steps, create_named_project-Coherent, respond-Coherent) depth 20
