-- ===== src/Handlers/OnMongo.antt =====
-- MongoStorage as the store of the comment handlers, as src/main.cpp gives it to them.
use temp_task.Prelude.{ℕ, suc, Str_eq}
use temp_task.Models.{TimePoint}
use temp_task.Bson.{BsonLib}
use temp_task.Storage.Mongo.{
  Collection, insert_comment, get_comments_by_task, add_reply, get_task_id_by_comment_id,
}
use temp_task.Handlers.{CommentStore}

-- The collection, and the readings of the clock that AddReply makes, in their order.
abbrev pub mongo_storage : (bson : BsonLib) → Collection bson → CommentStore
mongo_storage bson comments = record {
  Documents = comments.Db × (ℕ → TimePoint);
  insert_comment = λ c (db, clock).
      ((insert_comment bson comments c db).0, ((insert_comment bson comments c db).1, clock));
  get_comments_by_task = λ task (db, clock). get_comments_by_task bson comments task db;
  get_task_id_by_comment_id = λ id (db, clock). get_task_id_by_comment_id bson comments id db;
  add_reply = λ id r (db, clock). (
    (add_reply bson comments (clock 0) id r db).0,
    ((add_reply bson comments (clock 0) id r db).1, λ n. clock (suc n)),
  );
}
