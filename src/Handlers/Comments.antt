-- ===== src/Handlers/Comments.antt =====
-- src/handlers/comment_handlers.cpp. Log lines are left out.
use temp_task.Prelude.{
  [], ◌++◌, Option, none, some, if◌then◌else◌, ℤ, pos, ltb_ℤ, Str, str, stoi, to_string, Result,
}
use temp_task.Json.{string_at}
use temp_task.Cache.{set, invalidate, invalidate_by_prefix}
use temp_task.Event.Ids.{generate_comment_id}
use temp_task.Event.Producer.{publish_comment_added}
use temp_task.Handlers.{
  Services, Request, Readings, Handler, outcome_of, created, return, call, ◌>>=◌, ◌>>◌, respond,
  publishing, caching,
}
use temp_task.Handlers.Projects.{cached_text}
use temp_task.Handlers.CommentList.{comments_json}

abbrev pub comments_prefix : Str
comments_prefix = str "comments:task:"

abbrev pub comments_key : ℤ → Str
comments_key task_id = comments_prefix ++ to_string task_id

-- A method of MongoStorage, on the documents.
abbrev pub documenting :
    {s : Services} {A : Type 0}
    → (s.comment_store.Documents → Result A × s.comment_store.Documents)
    → Handler s A
documenting method w =
    let (r, documents) = method w.documents in (outcome_of r, record w { documents = documents })

abbrev pub reading :
    {s : Services} {A : Type 0} → (s.comment_store.Documents → Result A) → Handler s A
reading method w = (outcome_of (method w.documents), w)

-- What a new reply of a task outdates: the task's list, or every list where the task is not known.
unfoldable pub outdate_comments : {s : Services} → ℤ → Handler s (Unit {0})
outdate_comments task_id =
    if ltb_ℤ (pos 0) task_id
    then caching (invalidate (comments_key task_id))
    else caching (invalidate_by_prefix comments_prefix)

module _ (s : Services) (request : Request) (at : Readings) where
  open s use {json, kafka, comment_store}
  open at use {read_at, cached_at, created_at, surroundings, comment_draws}

  -- AddCommentHandler::HandleRequestThrow
  unfoldable pub post_comment : Handler s Str
  post_comment = do
    user_id ← call request.user_id
    task_id ← call (stoi (request.path_arg (str "taskId")))
    body ← call (json.from_string request.body)
    author ← call (string_at json body (str "author"))
    text ← call (string_at json body (str "text"))
    documenting (
        comment_store.insert_comment (record {
          id = generate_comment_id comment_draws;
          task_id = task_id;
          author = author;
          author_id = user_id;
          text = text;
          created_at = created_at;
          updated_at = none;
          replies = [];
        }))
    publishing (
        publish_comment_added kafka json surroundings
          (record {
            comment_id = generate_comment_id comment_draws;
            task_id = task_id;
            author = author;
            text = text;
          })
          request.request_id)
    caching (invalidate (comments_key task_id))
    respond created (str "{\"status\": \"ok\"}")

  -- The rest of GetCommentsHandler after the look-up in the cache.
  unfoldable pub answer_comments : ℤ → Option Str → Handler s Str
  unfolding comments_json
  answer_comments task_id (some cached) = return cached
  answer_comments task_id none = do
    comments ← reading (comment_store.get_comments_by_task task_id)
    result ← call (comments_json json comments)
    caching (set (comments_key task_id) (json.to_text result) (pos 60) cached_at)
    return (json.to_text result)

  -- GetCommentsHandler::HandleRequestThrow
  unfoldable pub get_comments : Handler s Str
  unfolding answer_comments
  get_comments = do
    task_id ← call (stoi (request.path_arg (str "taskId")))
    cached ← cached_text (comments_key task_id) read_at
    answer_comments task_id cached

  -- AddReplyHandler::HandleRequestThrow
  unfoldable pub post_reply : Handler s Str
  unfolding outdate_comments
  post_reply =
      let comment_id = request.path_arg (str "commentId") in
      do
        body ← call (json.from_string request.body)
        author ← call (string_at json body (str "author"))
        text ← call (string_at json body (str "text"))
        task_id ← reading (comment_store.get_task_id_by_comment_id comment_id)
        documenting (
            comment_store.add_reply comment_id
              (record { author = author; text = text; created_at = created_at }))
        publishing (
            publish_comment_added kafka json surroundings
              (record { comment_id = comment_id; task_id = task_id; author = author; text = text })
              request.request_id)
        outdate_comments task_id
        respond created (str "{\"status\": \"ok\"}")
