-- ===== src/Storage/Mongo/Documents.antt =====
-- The BSON conversions of src/models/comment.hpp.
use temp_task.Prelude.{
  Bool, if◌then◌else◌, List, [], ◌∷◌, ◌++◌, map, Option, none, some, Str, str, Dict, Result, ok,
  ◌>>=◌,
}
use temp_task.Models.{TimePoint, Reply, Comment}
use temp_task.Bson.{BsonLib, string_at, int_at, time_at}

module _ (bson : BsonLib) where
  open bson use {
    Value, has_member, index, items, as_oid, oid_text, of_string, of_int, of_time, object, array,
  }

  unfoldable pub reply_from_bson : Value → Result Reply
  reply_from_bson doc = do
    author ← string_at bson doc (str "author")
    text ← string_at bson doc (str "text")
    created_at ← time_at bson doc (str "created_at")
    ok (record { author = author; text = text; created_at = created_at })

  unfoldable pub reply_to_bson : Reply → Value
  reply_to_bson r = object (
      (str "author", of_string r.author)
      ∷ (str "text", of_string r.text)
      ∷ (str "created_at", of_time r.created_at)
      ∷ [])

  -- The loop over doc["replies"].
  unfoldable pub replies_from_bson : List Value → Result (List Reply)
  unfolding reply_from_bson
  replies_from_bson [] = ok []
  replies_from_bson (doc ∷ docs) = do
    reply ← reply_from_bson doc
    rest ← replies_from_bson docs
    ok (reply ∷ rest)

  -- The test of `updated_at` and the assignment under it.
  unfoldable pub updated_from_bson : Value → Bool → Result (Option TimePoint)
  updated_from_bson doc present =
      if present then (time_at bson doc (str "updated_at") >>= λ t. ok (some t)) else ok none

  unfoldable pub comment_from_bson : Value → Result Comment
  unfolding replies_from_bson updated_from_bson
  comment_from_bson doc = do
    id ← index doc (str "_id") >>= as_oid
    task_id ← int_at bson doc (str "task_id")
    author ← string_at bson doc (str "author")
    author_id ← int_at bson doc (str "author_id")
    text ← string_at bson doc (str "text")
    created_at ← time_at bson doc (str "created_at")
    updated_at ← has_member doc (str "updated_at") >>= updated_from_bson doc
    replies ← index doc (str "replies") >>= items >>= replies_from_bson
    ok (record {
      id = oid_text id;
      task_id = task_id;
      author = author;
      author_id = author_id;
      text = text;
      created_at = created_at;
      updated_at = updated_at;
      replies = replies;
    })

  unfoldable pub updated_entry : Option TimePoint → Dict Str Value
  updated_entry none = []
  updated_entry (some t) = (str "updated_at", of_time t) ∷ []

  -- The members that CommentToBson assigns, in their order.
  unfoldable pub comment_fields : Comment → Dict Str Value
  unfolding updated_entry
  comment_fields c =
      (str "task_id", of_int c.task_id)
      ∷ (str "author", of_string c.author)
      ∷ (str "author_id", of_int c.author_id)
      ∷ (str "text", of_string c.text)
      ∷ (str "created_at", of_time c.created_at)
      ∷ (updated_entry c.updated_at ++ (str "replies", array (map reply_to_bson c.replies)) ∷ [])

  unfoldable pub comment_to_bson : Comment → Value
  unfolding comment_fields
  comment_to_bson c = object (comment_fields c)
