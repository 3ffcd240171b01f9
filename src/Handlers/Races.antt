-- ===== src/Handlers/Races.antt =====
-- GetProjectsHandler and CreateProjectHandler on different coroutines. Each call of the cache and of the database
-- is one step, and between two calls of a handler other handlers take theirs.
pub mod Staleness
pub mod Alone
mod Tests
use temp_task.Prelude.{
  ℕ, suc, Option, ◌≡◌, ◌⊎◌, List, ◌∷◌, ◌++◌, ℤ, pos, ◌+ℤ◌, ◌≤ℤ◌, Str, ok, throw, Exception,
}
use temp_task.Models.{Project}
use temp_task.Cache.{Cache, get, set, invalidate}
use temp_task.Handlers.{Services}
use temp_task.Handlers.Projects.{projects_key}
use temp_task.Handlers.ProjectList.{projects_text}
use temp_task.Handlers.Sparing.{Spares}

-- What the handlers share, the reading of the clock, and how far the requests that are being handled have got.
pub record Shared (s : Services) : Type 0 where
  pub db : s.storage.Db
  pub cache : Cache
  pub now : ℤ
  -- the answers that were read from the database and not put into the cache yet, with the times of the reads
  pub reads : List (ℤ × Str)
  -- the projects that were created, and have not yet outdated the cached list
  pub writes : ℕ

-- `delay` is the longest time from a handler's read of the database to its Set.
module _ (s : Services) (delay : ℤ) where
  -- The calls of GetProjectsHandler.
  pub data ListStep (m : Shared s) : Shared s → Type 0 where
    -- Get of the list, found or not
    looks_up : ListStep m (record m { cache = (get projects_key m.now m.cache).0 })
    -- GetAllProjects, and the text of the answer
    reads_list :
        (projects : List Project)
        → s.storage.get_all_projects m.db ≡ ok projects
        → ListStep m (record m { reads = (m.now, projects_text s projects) ∷ m.reads })
    -- Set of the text, for 300 seconds
    caches_list :
        (before : List (ℤ × Str)) (read_at : ℤ) (text : Str) (later : List (ℤ × Str))
        → m.reads ≡ before ++ ((read_at, text) ∷ later)
        → m.now ≤ℤ read_at +ℤ delay
        → ListStep m (record m {
          cache = set projects_key text (pos 300) m.now m.cache;
          reads = before ++ later;
        })

  -- The calls of CreateProjectHandler.
  pub data CreateStep (m : Shared s) : Shared s → Type 0 where
    -- CreateProject that returns: the list is to be outdated
    creates :
        (p : Project) (created : Option Project)
        → (s.storage.create_project p m.db).0 ≡ ok created
        → CreateStep m
            (record m { db = (s.storage.create_project p m.db).1; writes = suc m.writes })
    -- CreateProject that throws: the handler is over
    fails :
        (p : Project) (e : Exception)
        → (s.storage.create_project p m.db).0 ≡ throw e
        → CreateStep m (record m { db = (s.storage.create_project p m.db).1 })
    -- Invalidate of the list
    outdates :
        (n : ℕ)
        → m.writes ≡ suc n
        → CreateStep m (record m { cache = invalidate projects_key m.cache; writes = n })

  -- What is assumed of all else: calls of the cache that spare the list, and any change of the database.
  pub data OtherStep (m : Shared s) : Shared s → Type 0 where
    spares :
        (change : Cache → Cache) → Spares change → OtherStep m (record m { cache = change m.cache })
    stores : (db : s.storage.Db) → OtherStep m (record m { db = db })

  pub data Step (m : Shared s) : Shared s → Type 0 where
    by_lister : {n : Shared s} → ListStep m n → Step m n
    by_creator : {n : Shared s} → CreateStep m n → Step m n
    by_others : {n : Shared s} → OtherStep m n → Step m n
    waits : (later : ℤ) → m.now ≤ℤ later → Step m (record m { now = later })

  -- A sequence of steps, the last one outermost.
  pub data Run (first : Shared s) : Shared s → Type 0 where
    begins : Run first first
    goes_on : {m n : Shared s} → Run first m → Step m n → Run first n

  -- Nothing but calls of GetProjectsHandler, and time that goes by.
  abbrev pub IsByLister : {first last : Shared s} → Run first last → Type 0
  IsByLister begins = Unit {0}
  IsByLister (goes_on run (by_lister step)) = IsByLister run
  IsByLister (goes_on run (waits later le)) = IsByLister run
  IsByLister (goes_on run (by_creator step)) = ⊥
  IsByLister (goes_on run (by_others step)) = ⊥

  -- Nothing but calls of CreateProjectHandler.
  abbrev pub IsByCreator : {first last : Shared s} → Run first last → Type 0
  IsByCreator begins = Unit {0}
  IsByCreator (goes_on run (by_creator step)) = IsByCreator run
  IsByCreator (goes_on run (by_lister step)) = ⊥
  IsByCreator (goes_on run (by_others step)) = ⊥
  IsByCreator (goes_on run (waits later le)) = ⊥

  -- The database was in a state at a time of a run.
  abbrev pub Was : {first last : Shared s} → Run first last → ℤ → s.storage.Db → Type 0
  Was {first} begins t db = (t ≡ first.now) × (db ≡ first.db)
  Was {first} {last} (goes_on run step) t db = ((t ≡ last.now) × (db ≡ last.db)) ⊎ Was run t db

  -- A text was the list of the projects in the database at a time of a run.
  abbrev pub WasListed : {first last : Shared s} → Run first last → ℤ → Str → Type 0
  WasListed run t text =
      (db : s.storage.Db) × (projects : List Project) × (Was run t db)
      × (s.storage.get_all_projects db ≡ ok projects)
      × (text ≡ projects_text s projects)
