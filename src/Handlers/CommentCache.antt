-- ===== src/Handlers/CommentCache.antt =====
-- The cached lists of comments against the documents.
use temp_task.Prelude.{
  ◌≡◌, ◌≢◌, refl, sym, ◌∙◌, ap, inl, inr, List, some, arith, ℤ, ℤ_eq, ◌==◌, IsInt32, Str, Str_eq,
  to_string, to_string_injective, find, find-assign, find-erase, find-erase_if, starts_with,
  starts_with_iff, ok, Bool-cases, str_eq_iff, drop-append, drop,
}
use temp_task.Models.{Comment}
use temp_task.Cache.{Cache, CacheEntry, get, set, deadline, invalidate, invalidate_by_prefix}
use temp_task.Handlers.{Services, World}
use temp_task.Handlers.Comments.{comments_prefix, comments_key}
use temp_task.Handlers.CommentList.{comments_json}

comments_key_injective : (t u : ℤ) → IsInt32 t → IsInt32 u → comments_key t ≡ comments_key u → t ≡ u
comments_key_injective t u ht hu e = to_string_injective t u ht hu (
    sym (drop-append comments_prefix (to_string t))
    ∙ ap (λ s. drop 14 s) e
    ∙ drop-append comments_prefix (to_string u))

-- A text is the list of a task's comments.
abbrev pub ListsTask : (s : Services) → s.comment_store.Documents → ℤ → Str → Type 0
ListsTask s documents task text =
    (comments : List Comment) × (result : s.json.Value) × (s.comment_store.get_comments_by_task task
        documents
      ≡ ok comments)
    × (comments_json s.json comments ≡ ok result)
    × (text ≡ s.json.to_text result)

-- Every cached list of comments, whether its time is over or not, is the one in the documents.
unfoldable pub AreCoherent : (s : Services) → s.comment_store.Documents → Cache → Type 0
AreCoherent s documents cache =
    (task : ℤ) (e : CacheEntry)
    → IsInt32 task
    → find (comments_key task) cache ≡ some e
    → ListsTask s documents task e.value

abbrev pub Fresh : (s : Services) → World s → Type 0
Fresh s w = AreCoherent s w.documents w.cache

module _ (s : Services) where
  pub get-AreCoherent :
      (documents : s.comment_store.Documents) (key : Str) (now : ℤ) (cache : Cache)
      → AreCoherent s documents cache
      → AreCoherent s documents (get key now cache).0
  unfolding AreCoherent get
  get-AreCoherent documents key now cache h task e range found =
      h task e range (ground (arith, find-erase key (comments_key task) cache))

  -- Where only one task's list may have changed, dropping its list from the cache is enough.
  pub invalidate-AreCoherent :
      (before after : s.comment_store.Documents) (cache : Cache) (t : ℤ)
      → IsInt32 t
      → ((task : ℤ)
          → task ≢ t
          → s.comment_store.get_comments_by_task task after
            ≡ s.comment_store.get_comments_by_task task before)
      → AreCoherent s before cache
      → AreCoherent s after (invalidate (comments_key t) cache)
  unfolding AreCoherent invalidate
  invalidate-AreCoherent before after cache t range_t others h task e range found =
      let (comments, result, read, built, text) =
        h task e range (ground (arith, find-erase (comments_key t) (comments_key task) cache)) in
      (
        comments,
        result,
        others task (λ same. absurd (
              ground (
                arith,
                ap comments_key same,
                str_eq_iff (comments_key t) (comments_key task),
                find-erase (comments_key t) (comments_key task) cache,
              )))
            ∙ read,
        built,
        text,
      )

  -- Dropping every list of comments is always enough.
  pub invalidate_by_prefix-AreCoherent :
      (documents : s.comment_store.Documents) (cache : Cache)
      → AreCoherent s documents (invalidate_by_prefix comments_prefix cache)
  unfolding AreCoherent invalidate_by_prefix
  invalidate_by_prefix-AreCoherent documents cache task e range found = absurd (
      ground (
        arith,
        (starts_with_iff (comments_key task) comments_prefix).1 (to_string task, refl),
        find-erase_if (λ key. starts_with key comments_prefix) (comments_key task) cache,
      ))

  pub set-AreCoherent :
      (documents : s.comment_store.Documents) (cache : Cache) (t ttl now : ℤ) (text : Str)
      → IsInt32 t
      → ListsTask s documents t text
      → AreCoherent s documents cache
      → AreCoherent s documents (set (comments_key t) text ttl now cache)
  unfolding AreCoherent set
  set-AreCoherent documents cache t ttl now text range_t lists h task e range found =
      elim (Bool-cases (comments_key t == comments_key task)) [
        | inl same ↦
            let moved : ListsTask s documents task text =
              rw (← comments_key_injective t task range_t range ((str_eq_iff _ _).0 same)) lists in
            let text_e : text ≡ e.value = ground (
              arith,
              find-assign (comments_key t) (comments_key task)
                  (record { value = text; expires_at = deadline now ttl }) cache,
            ) in
            rw (← text_e) moved
        | inr other ↦ h task e range (
            ground (
              arith,
              find-assign (comments_key t) (comments_key task)
                  (record { value = text; expires_at = deadline now ttl }) cache,
            ))
      ]
