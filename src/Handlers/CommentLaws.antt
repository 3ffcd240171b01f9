-- ===== src/Handlers/CommentLaws.antt =====
-- What the handlers of comments rely on of the stores (src/storage/mongodb_storage.hpp) and the producer.
use temp_task.Prelude.{◌≡◌, ◌≢◌, true, ℤ, pos, ltb_ℤ, IsInt32, Str, ok, throw, Exception, foreign}
use temp_task.Models.{Comment, Reply}
use temp_task.Handlers.{Services}

-- Two states of the documents list the same comments for a task.
abbrev pub Same :
    (s : Services) → s.comment_store.Documents → s.comment_store.Documents → ℤ → Type 0
Same s after before task =
    s.comment_store.get_comments_by_task task after
    ≡ s.comment_store.get_comments_by_task task before

-- What the methods of MongoStorage leave alone: an insertion changes no other task's list, a reply no
-- list but that of the task that the comment's document names, and a method that throws changes none.
-- A producer throws nothing but what derives from std::exception.
pub record CommentLaws (s : Services) : Type 0 where
  pub insert-other :
      (c : Comment) (d : s.comment_store.Documents) (task : ℤ)
      → task ≢ c.task_id
      → Same s (s.comment_store.insert_comment c d).1 d task
  pub insert-throw :
      (c : Comment) (d : s.comment_store.Documents) (e : Exception) (task : ℤ)
      → (s.comment_store.insert_comment c d).0 ≡ throw e
      → Same s (s.comment_store.insert_comment c d).1 d task
  pub task_id-IsInt32 :
      (id : Str) (d : s.comment_store.Documents) (t : ℤ)
      → s.comment_store.get_task_id_by_comment_id id d ≡ ok t
      → IsInt32 t
  pub reply-other :
      (id : Str) (r : Reply) (d : s.comment_store.Documents) (t task : ℤ)
      → s.comment_store.get_task_id_by_comment_id id d ≡ ok t
      → ltb_ℤ (pos 0) t ≡ true
      → task ≢ t
      → Same s (s.comment_store.add_reply id r d).1 d task
  pub reply-throw :
      (id : Str) (r : Reply) (d : s.comment_store.Documents) (e : Exception) (task : ℤ)
      → (s.comment_store.add_reply id r d).0 ≡ throw e
      → Same s (s.comment_store.add_reply id r d).1 d task
  pub send-std :
      (topic key message : Str) (b : s.kafka.Broker)
      → (s.kafka.send topic key message b).0 ≢ throw foreign
