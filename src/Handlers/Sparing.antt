-- ===== src/Handlers/Sparing.antt =====
-- What the other calls of a handler leave of the cached list of projects.
use temp_task.Prelude.{
  ◌≡◌, some, arith, ℤ, pos, Str, Str_eq, find, find-assign, find-erase, find-erase_if, starts_with,
  Result,
}
use temp_task.Cache.{Cache, CacheEntry, get, set, deadline, invalidate, invalidate_by_prefix}
use temp_task.Handlers.{Services, HttpStatus, set_status, set_header, publishing, caching}
use temp_task.Handlers.Projects.{projects_key}
use temp_task.Handlers.Comments.{comments_prefix, comments_key, documenting, reading}
use temp_task.Handlers.Invariants.{Keeps}
use temp_task.Handlers.ProjectList.{IsCoherent, Coherent}

-- A change of the cache that does not bring in a list of projects.
abbrev pub Spares : (Cache → Cache) → Type 0
Spares change =
    (cache : Cache) (e : CacheEntry)
    → find projects_key (change cache) ≡ some e
    → find projects_key cache ≡ some e

invalidate-Spares : (t : ℤ) → Spares (invalidate (comments_key t))
unfolding invalidate
invalidate-Spares t cache e h = ground (arith, find-erase (comments_key t) projects_key cache)

invalidate_by_prefix-Spares : Spares (invalidate_by_prefix comments_prefix)
unfolding invalidate_by_prefix
invalidate_by_prefix-Spares cache e h =
    ground (arith, find-erase_if (λ key. starts_with key comments_prefix) projects_key cache)

set-Spares : (t now : ℤ) (text : Str) → Spares (set (comments_key t) text (pos 60) now)
unfolding set
set-Spares t now text cache e h = ground (
  arith,
  find-assign (comments_key t) projects_key
      (record { value = text; expires_at = deadline now (pos 60) }) cache,
)

pub get-Spares : (t now : ℤ) → Spares (λ cache. (get (comments_key t) now cache).0)
unfolding get
get-Spares t now cache e h = ground (arith, find-erase (comments_key t) projects_key cache)

module _ (s : Services) where
  pub spared :
      (db : s.storage.Db) (change : Cache → Cache) (cache : Cache)
      → Spares change
      → IsCoherent s db cache
      → IsCoherent s db (change cache)
  unfolding IsCoherent
  spared db change cache spares h e found = h e (spares cache e found)

  pub invalidate-Coherent : (t : ℤ) → Keeps (Coherent s) (caching (invalidate (comments_key t)))
  unfolding Keeps
  invalidate-Coherent t w h = spared w.db _ w.cache (invalidate-Spares t) h

  pub invalidate_by_prefix-Coherent :
      Keeps (Coherent s) (caching (invalidate_by_prefix comments_prefix))
  unfolding Keeps
  invalidate_by_prefix-Coherent w h = spared w.db _ w.cache invalidate_by_prefix-Spares h

  pub set-Coherent :
      (t now : ℤ) (text : Str)
      → Keeps (Coherent s) (caching (set (comments_key t) text (pos 60) now))
  unfolding Keeps
  set-Coherent t now text w h = spared w.db _ w.cache (set-Spares t now text) h

  pub documenting-Coherent :
      {A : Type 0} (method : s.comment_store.Documents → Result A × s.comment_store.Documents)
      → Keeps (Coherent s) (documenting {s = s} method)
  unfolding Keeps
  documenting-Coherent method w h = h

  pub set_status-Coherent : (status : HttpStatus) → Keeps (Coherent s) (set_status status)
  unfolding Keeps
  set_status-Coherent status w h = h

  pub set_header-Coherent : (name value : Str) → Keeps (Coherent s) (set_header name value)
  unfolding Keeps
  set_header-Coherent name value w h = h

  pub publishing-Coherent :
      (publish : s.kafka.Broker → Result (Unit {0}) × s.kafka.Broker)
      → Keeps (Coherent s) (publishing publish)
  unfolding Keeps
  publishing-Coherent publish w h = h

  pub reading-Coherent :
      {A : Type 0} (method : s.comment_store.Documents → Result A)
      → Keeps (Coherent s) (reading {s = s} method)
  unfolding Keeps
  reading-Coherent method w h = h
