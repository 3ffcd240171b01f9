-- ===== src/Handlers/CommentFreshness.antt =====
-- The handlers of comments keep every cached list of comments the one in the documents.
use temp_task.Prelude.{
  ◌≡◌, ◌≢◌, refl, ◌∙◌, ap, inl, inr, ℤ, pos, ltb_ℤ, IsInt32, Str, Str_eq, str, stoi, stoi-IsInt32,
  Result, ok, throw, Exception, foreign, Result-cases, Bool-cases,
}
use temp_task.Models.{Comment, Reply}
use temp_task.Json.{string_at}
use temp_task.Cache.{Cache, invalidate, invalidate_by_prefix}
use temp_task.Event.{CommentAddedEvent, comment_added_payload}
use temp_task.Event.Producer.{publish_comment_added, publish, catch_std, message_text}
use temp_task.Event.Batch.{catch_std-throw}
use temp_task.Handlers.{
  Services, Request, Readings, World, Handler, HttpStatus, created, respond, publishing, caching,
  ◌>>=◌, ◌>>◌,
}
use temp_task.Handlers.Comments.{
  comments_prefix, comments_key, documenting, reading, outdate_comments, post_comment, get_comments,
  post_reply,
}
use temp_task.Handlers.Invariants.{Keeps, call-bind-Keeps}
use temp_task.Handlers.CommentCache.{
  AreCoherent, Fresh, invalidate-AreCoherent, invalidate_by_prefix-AreCoherent,
}
use temp_task.Handlers.CommentAnswers.{listing-Fresh}
use temp_task.Handlers.CommentLaws.{Same, CommentLaws}

module _ (s : Services) (laws : CommentLaws s) where
  moved-AreCoherent :
      (before after : s.comment_store.Documents) (cache : Cache)
      → ((task : ℤ) → Same s after before task)
      → AreCoherent s before cache
      → AreCoherent s after cache
  unfolding AreCoherent
  moved-AreCoherent before after cache same h task e range found =
      let (comments, result, read, built, text) = h task e range found in
      (comments, result, same task ∙ read, built, text)

  respond-Fresh : (status : HttpStatus) (body : Str) → Keeps (Fresh s) (respond status body)
  unfolding Keeps
  respond-Fresh status body w h = h

  -- The publishing method always comes to its end.
  caught : (r : Result (Unit {0})) → r ≢ throw foreign → catch_std r ≡ ok tt
  caught (ok u) h = refl
  caught (throw e) h = catch_std-throw e (λ eq. h (ap throw eq))

  published :
      (at : Readings) (event : CommentAddedEvent) (trace : Str) (b : s.kafka.Broker)
      → (publish_comment_added s.kafka s.json at.surroundings event trace b).0 ≡ ok tt
  unfolding publish_comment_added publish
  published at event trace b =
      caught
        (s.kafka.send (str "comment-events") event.comment_id
          (message_text s.json at.surroundings (str "CommentAdded")
            (comment_added_payload s.json event) trace)
          b).0
        (laws.send-std _ _ _ b)

  -- A change of the documents, the event, and a change of the cache that makes up for it.
  changed-Fresh :
      {B : Type 0}
      (method : s.comment_store.Documents → Result (Unit {0}) × s.comment_store.Documents)
      (at : Readings) (event : CommentAddedEvent) (trace : Str) (change : Cache → Cache)
      (next : Handler s B) (w : World s)
      → ((e : Exception) (task : ℤ)
          → (method w.documents).0 ≡ throw e
          → Same s (method w.documents).1 w.documents task)
      → AreCoherent s (method w.documents).1 (change w.cache)
      → Keeps (Fresh s) next
      → Fresh s w
      → Fresh s
          ((documenting {s = s} method
              >> (publishing (publish_comment_added s.kafka s.json at.surroundings event trace)
                  >> (caching change >> next)))
            w).1
  unfolding Keeps
  changed-Fresh method at event trace change next w unchanged after k h =
      elim (Result-cases (method w.documents).0) [
        | inl (u, made) ↦ rw (made, published at event trace w.broker) (k _ after)
        | inr (e, failed) ↦
            rw failed (moved-AreCoherent w.documents _ w.cache (λ task. unchanged e task failed) h)
      ]

  module _ (request : Request) (at : Readings) where
    -- An insertion with its event, its invalidation and its answer.
    insertion-Fresh :
        (c : Comment) (event : CommentAddedEvent)
        → IsInt32 c.task_id
        → Keeps (Fresh s) (
            documenting {s = s} (s.comment_store.insert_comment c)
            >> (publishing
                  (publish_comment_added s.kafka s.json at.surroundings event request.request_id)
                >> (caching (invalidate (comments_key c.task_id))
                    >> respond created (str "{\"status\": \"ok\"}"))))
    unfolding Keeps
    insertion-Fresh c event range w h =
        changed-Fresh (s.comment_store.insert_comment c) at event request.request_id
          (invalidate (comments_key c.task_id)) (respond created (str "{\"status\": \"ok\"}")) w
          (λ e task failed. laws.insert-throw c w.documents e task failed)
          (invalidate-AreCoherent s w.documents (s.comment_store.insert_comment c w.documents).1
            w.cache c.task_id range (λ task other. laws.insert-other c w.documents task other) h)
          (respond-Fresh created (str "{\"status\": \"ok\"}")) h

    -- A reply with its event, its invalidation and its answer.
    reply-Fresh :
        (id : Str) (r : Reply) (event : CommentAddedEvent) (t : ℤ) (w : World s)
        → s.comment_store.get_task_id_by_comment_id id w.documents ≡ ok t
        → Fresh s w
        → Fresh s
            ((documenting {s = s} (s.comment_store.add_reply id r)
                >> (publishing (
                      publish_comment_added s.kafka s.json at.surroundings event request.request_id)
                    >> (outdate_comments t >> respond created (str "{\"status\": \"ok\"}"))))
              w).1
    unfolding outdate_comments
    reply-Fresh id r event t w is_task h =
        let go : (change : Cache → Cache)
            → AreCoherent s (s.comment_store.add_reply id r w.documents).1 (change w.cache)
            → Fresh s
                ((documenting {s = s} (s.comment_store.add_reply id r)
                    >> (publishing (
                          publish_comment_added s.kafka s.json at.surroundings event
                            request.request_id)
                        >> (caching change >> respond created (str "{\"status\": \"ok\"}"))))
                  w).1 =
          λ change after.
            changed-Fresh (s.comment_store.add_reply id r) at event request.request_id change
              (respond created (str "{\"status\": \"ok\"}")) w
              (λ e task failed. laws.reply-throw id r w.documents e task failed) after
              (respond-Fresh created (str "{\"status\": \"ok\"}")) h in
        elim (Bool-cases (ltb_ℤ (pos 0) t)) [
          | inl known ↦ rw known (
              go (invalidate (comments_key t)) (
                invalidate-AreCoherent s w.documents (s.comment_store.add_reply id r w.documents).1
                  w.cache t (laws.task_id-IsInt32 id w.documents t is_task)
                  (λ task other. laws.reply-other id r w.documents t task is_task known other) h))
          | inr unknown ↦ rw unknown (
              go (invalidate_by_prefix comments_prefix) (
                invalidate_by_prefix-AreCoherent s (s.comment_store.add_reply id r w.documents).1
                  w.cache))
        ]

    -- A reply changes no cached list of comments into one that is not the one in the documents.
    asked-Fresh :
        (id : Str) (r : Reply) (event : ℤ → CommentAddedEvent)
        → Keeps (Fresh s) (
            reading {s = s} (s.comment_store.get_task_id_by_comment_id id) >>= λ t.
            (documenting {s = s} (s.comment_store.add_reply id r)
              >> (publishing (
                    publish_comment_added s.kafka s.json at.surroundings
                      (event t)
                      request.request_id)
                  >> (outdate_comments t >> respond created (str "{\"status\": \"ok\"}")))))
    unfolding Keeps
    asked-Fresh id r event w h =
        elim (Result-cases (s.comment_store.get_task_id_by_comment_id id w.documents)) [
          | inl (t, is_task) ↦ rw is_task (reply-Fresh id r (event t) t w is_task h)
          | inr (e, failed) ↦ rw failed h
        ]

    post_comment-Fresh : Keeps (Fresh s) (post_comment s request at)
    unfolding post_comment
    post_comment-Fresh = call-bind-Keeps (Fresh s) request.user_id _ (λ user_id _.
        call-bind-Keeps (Fresh s) (stoi (request.path_arg (str "taskId"))) _ (λ task_id is_id.
          call-bind-Keeps (Fresh s) (s.json.from_string request.body) _ (λ body _.
            call-bind-Keeps (Fresh s) (string_at s.json body (str "author")) _ (λ author _.
              call-bind-Keeps (Fresh s) (string_at s.json body (str "text")) _
                (λ text _. insertion-Fresh _ _ (stoi-IsInt32 _ task_id is_id))))))

    post_reply-Fresh : Keeps (Fresh s) (post_reply s request at)
    unfolding post_reply
    post_reply-Fresh = call-bind-Keeps (Fresh s) (s.json.from_string request.body) _ (λ body _.
        call-bind-Keeps (Fresh s) (string_at s.json body (str "author")) _ (λ author _.
          call-bind-Keeps (Fresh s) (string_at s.json body (str "text")) _ (λ text _.
            asked-Fresh (request.path_arg (str "commentId"))
              (record { author = author; text = text; created_at = at.created_at })
              (λ t. record {
                comment_id = request.path_arg (str "commentId");
                task_id = t;
                author = author;
                text = text;
              }))))

    get_comments-Fresh : Keeps (Fresh s) (get_comments s request at)
    unfolding get_comments
    get_comments-Fresh =
        call-bind-Keeps (Fresh s) (stoi (request.path_arg (str "taskId"))) _
          (λ task_id is_id. listing-Fresh s request at task_id (stoi-IsInt32 _ task_id is_id))

    -- Adding a comment, listing comments and adding a reply, whether they succeed or throw, each keep
    -- every cached list of comments the one in the documents. This is over a store whose task
    -- ids are of type int, in which an insertion changes the list of its own task only, a reply to a
    -- comment whose task is known that of this task only, and a call that throws none, and over a
    -- producer that throws nothing but what derives from std::exception.
    pub comment_handlers-AreCoherent :
        (w : World s)
        → AreCoherent s w.documents w.cache
        → AreCoherent s
            (post_comment s request at w).1.documents
            (post_comment s request at w).1.cache
          × AreCoherent s
              (get_comments s request at w).1.documents
              (get_comments s request at w).1.cache
          × AreCoherent s
              (post_reply s request at w).1.documents
              (post_reply s request at w).1.cache
    unfolding Keeps
    comment_handlers-AreCoherent w h =
        (post_comment-Fresh w h, get_comments-Fresh w h, post_reply-Fresh w h)
