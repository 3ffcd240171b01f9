-- ===== src/Gateway/Acting.antt =====
-- What the handlers change in the name of one user.
use temp_task.Prelude.{◌≡◌, ℤ, Str, Str_eq, Result, ok}
use temp_task.Models.{Project, Task, Comment, Reply}
use temp_task.Cache.{Cache}
use temp_task.Handlers.{
  Services, World, Handler, HttpStatus, call, ◌>>=◌, set_status, publishing, storing, caching,
}
use temp_task.Handlers.Projects.{cached_text}
use temp_task.Handlers.Comments.{documenting, reading}
use temp_task.Handlers.Invariants.{Keeps}

module _ (s : Services) (id : ℤ) where
  -- The database after creations of projects that the user owns and of tasks that the user created.
  pub data DbBy (db : s.storage.Db) : s.storage.Db → Type 0 where
    as_was : DbBy db db
    project_by :
        (p : Project) (later : s.storage.Db)
        → p.owner_id ≡ id
        → DbBy db later
        → DbBy db (s.storage.create_project p later).1
    task_by :
        (t : Task) (later : s.storage.Db)
        → t.creator_id ≡ id
        → DbBy db later
        → DbBy db (s.storage.create_task t later).1

  -- The documents after insertions of comments with the user as their author, and replies.
  pub data DocumentsBy (documents : s.comment_store.Documents)
      : s.comment_store.Documents → Type 0 where
    as_were : DocumentsBy documents documents
    comment_by :
        (c : Comment) (later : s.comment_store.Documents)
        → c.author_id ≡ id
        → DocumentsBy documents later
        → DocumentsBy documents (s.comment_store.insert_comment c later).1
    reply_by :
        (comment_id : Str) (r : Reply) (later : s.comment_store.Documents)
        → DocumentsBy documents later
        → DocumentsBy documents (s.comment_store.add_reply comment_id r later).1

  -- The limiter of logins is left as it was.
  abbrev pub ActsAs : World s → World s → Type 0
  ActsAs w w' =
      DbBy w.db w'.db × DocumentsBy w.documents w'.documents × (w'.login_limiter ≡ w.login_limiter)

-- Each call of a handler keeps what was done so far in the name of the user.
module _ {s : Services} (id : ℤ) (before : World s) where
  pub project-ActsAs :
      (p : Project)
      → p.owner_id ≡ id
      → Keeps (ActsAs s id before) (storing {s = s} (s.storage.create_project p))
  unfolding Keeps
  project-ActsAs p e w h = (DbBy.project_by p w.db e h.0, h.1, h.2)

  pub task-ActsAs :
      (t : Task)
      → t.creator_id ≡ id
      → Keeps (ActsAs s id before) (storing {s = s} (s.storage.create_task t))
  unfolding Keeps
  task-ActsAs t e w h = (DbBy.task_by t w.db e h.0, h.1, h.2)

  pub comment-ActsAs :
      (c : Comment)
      → c.author_id ≡ id
      → Keeps (ActsAs s id before) (documenting {s = s} (s.comment_store.insert_comment c))
  unfolding Keeps
  comment-ActsAs c e w h = (h.0, DocumentsBy.comment_by c w.documents e h.1, h.2)

  pub reply-ActsAs :
      (comment_id : Str) (r : Reply)
      → Keeps (ActsAs s id before) (documenting {s = s} (s.comment_store.add_reply comment_id r))
  unfolding Keeps
  reply-ActsAs comment_id r w h = (h.0, DocumentsBy.reply_by comment_id r w.documents h.1, h.2)

  pub caching-ActsAs : (method : Cache → Cache) → Keeps (ActsAs s id before) (caching method)
  unfolding Keeps
  caching-ActsAs method w h = h

  pub publishing-ActsAs :
      (publish : s.kafka.Broker → Result (Unit {0}) × s.kafka.Broker)
      → Keeps (ActsAs s id before) (publishing publish)
  unfolding Keeps
  publishing-ActsAs publish w h = h

  pub set_status-ActsAs : (status : HttpStatus) → Keeps (ActsAs s id before) (set_status status)
  unfolding Keeps
  set_status-ActsAs status w h = h

  pub reading-ActsAs :
      {A : Type 0} (method : s.comment_store.Documents → Result A)
      → Keeps (ActsAs s id before) (reading {s = s} method)
  unfolding Keeps
  reading-ActsAs method w h = h

  pub cached_text-ActsAs :
      (key : Str) (now : ℤ) → Keeps (ActsAs s id before) (cached_text {s = s} key now)
  unfolding Keeps
  cached_text-ActsAs key now w h = h

  -- A read of the context, which has the user.
  pub given-ActsAs :
      {A B : Type 0} (a : A) (next : A → Handler s B)
      → Keeps (ActsAs s id before) (next a)
      → Keeps (ActsAs s id before) (call (ok a) >>= next)
  unfolding Keeps
  given-ActsAs a next k w h = k w h

-- The calls that name no user.
pub ruleset acts =
    (caching-ActsAs, publishing-ActsAs, set_status-ActsAs, reading-ActsAs, cached_text-ActsAs)
