-- ===== src/Storage/Mongo.antt =====
-- src/storage/mongodb_storage.cpp over the collection of comments, which is a parameter.
pub mod Documents
pub mod Laws
pub mod Inserts
pub mod Replies
pub mod TaskIds
pub mod Sample
mod Tests
use temp_task.Prelude.{
  List, [], ◌∷◌, Option, none, some, ℤ, negsuc, Str, str, Result, ok, throw, foreign, ◌>>=◌,
}
use temp_task.Models.{TimePoint, Reply, Comment}
use temp_task.Bson.{BsonLib, int_at}
use temp_task.Storage.Mongo.Documents.{comment_from_bson, comment_to_bson, reply_to_bson}

-- InsertOne, the documents that a loop over Find visits, FindOne, UpdateOne and DeleteOne.
pub record Collection (bson : BsonLib) : Type 1 where
  pub Db : Type 0
  pub insert_one : bson.Value → Db → Result (Unit {0}) × Db
  pub find_all : bson.Value → Db → Result (List bson.Value)
  pub find_one : bson.Value → Db → Result (Option bson.Value)
  pub update_one : bson.Value → bson.Value → Db → Result (Unit {0}) × Db
  pub delete_one : bson.Value → Db → Result (Unit {0}) × Db

-- `catch (const std::exception&) { return -1; }`
abbrev pub or_minus_one : Result ℤ → Result ℤ
or_minus_one (throw foreign) = throw foreign
or_minus_one (throw e) = ok (negsuc 0)
or_minus_one (ok z) = ok z

module _ (bson : BsonLib) (comments : Collection bson) where
  open bson use {Value, Oid, oid, object, of_oid, of_int, of_time}
  open comments use {Db, insert_one, find_all, find_one, update_one, delete_one}

  -- MakeDoc(key, value) as a filter.
  abbrev pub by : Str → Value → Value
  by key value = object ((key, value) ∷ [])

  -- A method that changes the collection runs on unless Oid(id) has thrown.
  abbrev pub with_oid : Result Oid → Db → (Oid → Result (Unit {0}) × Db) → Result (Unit {0}) × Db
  with_oid (ok o) db run = run o
  with_oid (throw e) db run = (throw e, db)

  unfoldable pub insert_comment : Comment → Db → Result (Unit {0}) × Db
  insert_comment comment db = insert_one (comment_to_bson bson comment) db

  unfoldable pub comments_from_bson : List Value → Result (List Comment)
  comments_from_bson [] = ok []
  comments_from_bson (doc ∷ docs) = do
    comment ← comment_from_bson bson doc
    rest ← comments_from_bson docs
    ok (comment ∷ rest)

  unfoldable pub get_comments_by_task : ℤ → Db → Result (List Comment)
  unfolding comments_from_bson
  get_comments_by_task task_id db =
      find_all (by (str "task_id") (of_int task_id)) db >>= comments_from_bson

  unfoldable pub found_comment : Option Value → Result (Option Comment)
  found_comment none = ok none
  found_comment (some doc) = do comment ← comment_from_bson bson doc; ok (some comment)

  unfoldable pub get_comment_by_id : Str → Db → Result (Option Comment)
  unfolding found_comment
  get_comment_by_id id db = do
    o ← oid id
    doc ← find_one (by (str "_id") (of_oid o)) db
    found_comment doc

  -- The update document of AddReply.
  abbrev pub push_reply : TimePoint → Reply → Value
  push_reply now reply = object (
      (str "$push", by (str "replies") (reply_to_bson bson reply))
      ∷ (str "$set", by (str "updated_at") (of_time now))
      ∷ [])

  -- `now` is the reading of the clock in AddReply.
  unfoldable pub add_reply : TimePoint → Str → Reply → Db → Result (Unit {0}) × Db
  add_reply now comment_id reply db =
      with_oid (oid comment_id) db
        (λ o. update_one (by (str "_id") (of_oid o)) (push_reply now reply) db)

  unfoldable pub delete_comment : Str → Db → Result (Unit {0}) × Db
  delete_comment id db = with_oid (oid id) db (λ o. delete_one (by (str "_id") (of_oid o)) db)

  -- The inner block, on what FindOne gave.
  unfoldable pub task_id_of : Option Value → Result ℤ
  task_id_of none = ok (negsuc 0)
  task_id_of (some doc) = or_minus_one (int_at bson doc (str "task_id"))

  unfoldable pub get_task_id_by_comment_id : Str → Db → Result ℤ
  unfolding task_id_of
  get_task_id_by_comment_id comment_id db =
      or_minus_one
        do o ← oid comment_id; result ← find_one (by (str "_id") (of_oid o)) db; task_id_of result
