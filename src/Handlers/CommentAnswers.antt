-- ===== src/Handlers/CommentAnswers.antt =====
-- What GetCommentsHandler caches is what is in the documents (src/handlers/comment_handlers.cpp).
use temp_task.Prelude.{refl, inl, inr, ℤ, pos, IsInt32, Str_eq, Result-cases, Option-cases}
use temp_task.Cache.{get}
use temp_task.Handlers.{Services, Request, Readings, ◌>>=◌}
use temp_task.Handlers.Projects.{cached_text}
use temp_task.Handlers.Comments.{comments_key, answer_comments}
use temp_task.Handlers.CommentList.{comments_json}
use temp_task.Handlers.Invariants.{Keeps}
use temp_task.Handlers.CommentCache.{Fresh, get-AreCoherent, set-AreCoherent}

module _ (s : Services) (request : Request) (at : Readings) where
  pub listing-Fresh :
      (t : ℤ)
      → IsInt32 t
      → Keeps (Fresh s) (cached_text (comments_key t) at.read_at >>= answer_comments s request at t)
  unfolding Keeps answer_comments
  listing-Fresh t range w h =
      let kept = get-AreCoherent s w.documents (comments_key t) at.read_at w.cache h in
      elim (Option-cases (get (comments_key t) at.read_at w.cache).1) [
        | inl missing ↦ elim (Result-cases (s.comment_store.get_comments_by_task t w.documents)) [
          | inl (comments, read) ↦ elim (Result-cases (comments_json s.json comments)) [
            | inl (result, built) ↦
                rw (missing, read, built)
                  (set-AreCoherent s w.documents _ t (pos 60) at.cached_at (s.json.to_text result)
                    range (comments, result, read, built, refl) kept)
            | inr (e, failed) ↦ rw (missing, read, failed) kept
          ]
          | inr (e, failed) ↦ rw (missing, failed) kept
        ]
        | inr (text, found) ↦ rw found kept
      ]
