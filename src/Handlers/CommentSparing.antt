-- ===== src/Handlers/CommentSparing.antt =====
-- The handlers of comments keep the cached list of projects the one in the database.
use temp_task.Prelude.{Option, none, some, ℤ, Str, Str_eq}
use temp_task.Cache.{get}
use temp_task.Handlers.{Services, Request, Readings}
use temp_task.Handlers.Projects.{cached_text}
use temp_task.Handlers.Comments.{
  comments_key, outdate_comments, post_comment, answer_comments, get_comments, post_reply,
}
use temp_task.Handlers.Invariants.{Keeps, steps}
use temp_task.Handlers.Sparing.{
  spared, invalidate-Coherent, invalidate_by_prefix-Coherent, set-Coherent, documenting-Coherent,
  set_status-Coherent, publishing-Coherent, reading-Coherent, get-Spares,
}
use temp_task.Handlers.ProjectList.{Coherent}

module _ (s : Services) (request : Request) (at : Readings) where
  cached_text-Coherent : (t now : ℤ) → Keeps (Coherent s) (cached_text (comments_key t) now)
  unfolding Keeps
  cached_text-Coherent t now w h =
      spared s w.db (λ cache. (get (comments_key t) now cache).0) w.cache (get-Spares t now) h

  pub post_comment-Coherent : Keeps (Coherent s) (post_comment s request at)
  unfolding post_comment Keeps
  post_comment-Coherent =
      search
        (steps, documenting-Coherent, publishing-Coherent, invalidate-Coherent, set_status-Coherent)
        depth 24

  answer_comments-Coherent :
      (t : ℤ) (o : Option Str) → Keeps (Coherent s) (answer_comments s request at t o)
  unfolding answer_comments Keeps
  answer_comments-Coherent t none = search (steps, reading-Coherent, set-Coherent) depth 20
  answer_comments-Coherent t (some text) = search (steps)

  pub get_comments-Coherent : Keeps (Coherent s) (get_comments s request at)
  unfolding get_comments
  get_comments-Coherent = search (steps, cached_text-Coherent, answer_comments-Coherent) depth 20

  outdate_comments-Coherent : (t : ℤ) → Keeps (Coherent s) (outdate_comments t)
  unfolding outdate_comments
  outdate_comments-Coherent t =
      search (steps, invalidate-Coherent, invalidate_by_prefix-Coherent) depth 20

  pub post_reply-Coherent : Keeps (Coherent s) (post_reply s request at)
  unfolding post_reply Keeps
  post_reply-Coherent =
      search
        (
          steps, reading-Coherent, documenting-Coherent, publishing-Coherent,
          outdate_comments-Coherent, set_status-Coherent,
        )
        depth 24
