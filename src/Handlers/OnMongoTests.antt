-- ===== src/Handlers/OnMongoTests.antt =====
-- The store of comments at the sample collection.
use temp_task.Prelude.{[], ◌∷◌, pos, str, none, some}
use temp_task.Models.{Comment, Reply}
use temp_task.Bson.Sample.{sample_bson}
use temp_task.Storage.Mongo.Sample.{sample_collection}
use temp_task.Handlers.OnMongo.{mongo_storage}

abbrev remark : Comment
remark = record {
  id = [];
  task_id = pos 3;
  author = str "ann";
  author_id = pos 7;
  text = str "ok?";
  created_at = pos 5;
  updated_at = none;
  replies = [];
}

abbrev agreed : Reply
agreed = record { author = str "bob"; text = str "yes"; created_at = pos 8 }

-- One comment, on task 3.
abbrev documents : (mongo_storage sample_bson sample_collection).Documents
documents = (
  some (
    str "1",
    (str "task_id", sample_bson.of_int (pos 3)) ∷ (str "replies", sample_bson.array []) ∷ [],
  ),
  λ n. pos 9,
)
