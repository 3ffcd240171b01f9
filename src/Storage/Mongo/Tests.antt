-- ===== src/Storage/Mongo/Tests.antt =====
-- The theorems on MongoStorage at the sample collection, with one comment in it.
use mathlib.Core.List.{Memᴰ}
use temp_task.Prelude.{
  ap, is_int32, ◌≡◌, ◌≢◌, refl, ◌⊎◌, [], ◌∷◌, Option, none, some, arith, ℤ, pos, negsuc, Str,
  Str_eq, str, Dict, find, assign, Result, ok, throw, foreign,
}
use temp_task.Prelude.Chunks.{chunk, body, read_body}
use temp_task.Models.{Reply, Comment}
use temp_task.Json.Sample.{members, over, text_of, number_of}
use temp_task.Bson.Sample.{sample_bson, sample_bson_laws, items_of, moment_of}
use temp_task.Storage.Mongo.{
  insert_comment, comments_from_bson, get_comments_by_task, found_comment, get_comment_by_id,
  add_reply, get_task_id_by_comment_id,
}
use temp_task.Storage.Mongo.Documents.{
  reply_from_bson, reply_to_bson, replies_from_bson, updated_from_bson, comment_from_bson,
  updated_entry, comment_fields, comment_to_bson,
}
use temp_task.Storage.Mongo.Inserts.{stored_comment, insert_comment-listed}
use temp_task.Storage.Mongo.Replies.{replied, get_comment_by_id-add_reply}
use temp_task.Storage.Mongo.TaskIds.{
  StdOnly, bind-std, foreign_of_throw, IsTaskOf, get_task_id_by_comment_id_total,
}
use temp_task.Storage.Mongo.Sample.{
  Stored, filter_of, pair_of, first_matching, sample_collection, insert_one, update_one, find_all,
  find_one,
}
use temp_task.Storage.Mongo.Sample.AllLaws.{sample_collection_laws}

abbrev first_reply : Reply
first_reply = record { author = str "bob"; text = str "yes"; created_at = pos 8 }

abbrev remark : Comment
remark = record {
  id = str "0a";
  task_id = pos 3;
  author = str "ann";
  author_id = pos 7;
  text = str "ok?";
  created_at = pos 5;
  updated_at = none;
  replies = first_reply ∷ [];
}

abbrev found_remark : Comment
found_remark = record remark { id = str "1" }

abbrev one_comment : Option Stored
one_comment = some (
  str "1",
  (str "task_id", sample_bson.of_int (pos 3))
      ∷ (str "author", sample_bson.of_string (str "ann"))
      ∷ (str "author_id", sample_bson.of_int (pos 7))
      ∷ (str "text", sample_bson.of_string (str "ok?"))
      ∷ (str "created_at", sample_bson.of_time (pos 5))
      ∷ (str "replies", sample_bson.array (reply_to_bson sample_bson first_reply ∷ []))
      ∷ [],
)

remark_inserted : insert_comment sample_bson sample_collection remark none ≡ (ok tt, one_comment)
unfolding insert_comment insert_one comment_to_bson comment_fields updated_entry reply_to_bson
    members body read_body chunk find
remark_inserted = refl

remark_done : (insert_comment sample_bson sample_collection remark none).0 ≡ ok tt
unfolding insert_comment insert_one comment_to_bson comment_fields updated_entry reply_to_bson
    members body read_body chunk find
remark_done = refl

remark_listed :
    get_comments_by_task sample_bson sample_collection remark.task_id
      (insert_comment sample_bson sample_collection remark none).1
    ≡ ok (found_remark ∷ [])
unfolding insert_comment insert_one comment_to_bson comment_fields updated_entry reply_to_bson
    members body read_body chunk find get_comments_by_task comments_from_bson comment_from_bson
    reply_from_bson replies_from_bson updated_from_bson find_all items_of text_of number_of
    moment_of
remark_listed = refl

insert_comment-listed_example :
    (o : Str) × Memᴰ (stored_comment sample_bson sample_bson_laws o remark) (found_remark ∷ [])
insert_comment-listed_example =
    insert_comment-listed sample_bson sample_bson_laws sample_collection sample_collection_laws
      remark none (found_remark ∷ []) (omega arith) (omega arith) remark_done remark_listed

abbrev second_reply : Reply
second_reply = record { author = str "cy"; text = str "no"; created_at = pos 9 }

remark_found :
    get_comment_by_id sample_bson sample_collection (str "1") one_comment ≡ ok (some found_remark)
unfolding get_comment_by_id found_comment members body read_body chunk find comment_from_bson
    reply_from_bson replies_from_bson updated_from_bson find_one items_of text_of number_of
    moment_of reply_to_bson
remark_found = refl

reply_done :
    (add_reply sample_bson sample_collection (pos 10) (str "1") second_reply one_comment).0 ≡ ok tt
unfolding add_reply update_one members body read_body chunk find assign items_of reply_to_bson
reply_done = refl

get_comment_by_id-add_reply_example :
    get_comment_by_id sample_bson sample_collection
      (str "1")
      (add_reply sample_bson sample_collection (pos 10) (str "1") second_reply one_comment).1
    ≡ ok (some (replied sample_bson sample_bson_laws (pos 10) second_reply found_remark))
get_comment_by_id-add_reply_example =
    get_comment_by_id-add_reply sample_bson sample_bson_laws sample_collection
      sample_collection_laws (pos 10) (str "1") second_reply one_comment found_remark remark_found
      reply_done

members-std : (v : Str) → members v ≢ throw foreign
unfolding members
members-std [] h = cc
members-std (t ∷ []) h = cc
members-std (t ∷ n ∷ s) h = ground arith

over-std {ℓ} :
    {B : Type ℓ} (f : Dict Str Str → B) (r : Result (Dict Str Str))
    → r ≢ throw foreign
    → over f r ≢ throw foreign
over-std f (ok m) h e = absurd (cc)
over-std f (throw x) h e = h (ap throw (foreign_of_throw x e))

number_of-std : (v : Str) → number_of is_int32 v ≢ throw foreign
unfolding number_of
number_of-std [] h = cc
number_of-std (t ∷ []) h = cc
number_of-std (t ∷ a ∷ []) h = cc
number_of-std (t ∷ a ∷ b ∷ s) h = ground arith

find_one-std : (f : Str) (db : Option Stored) → find_one f db ≢ throw foreign
unfolding find_one
find_one-std f db =
    bind-std (filter_of f) _ (bind-std (members f) pair_of (members-std f) pair-std)
      (λ p h. ok-ne-throw (first_matching db p) h)
  where
    pair-std : (m : Dict Str Str) → pair_of m ≢ throw foreign
    pair-std [] h = cc
    pair-std (p ∷ m) h = cc

    ok-ne-throw : (a : Option Str) → ◌≡◌ {A = Result (Option Str)} (ok a) (throw foreign) → ⊥
    ok-ne-throw a h = cc

sample-StdOnly : StdOnly sample_bson sample_collection
sample-StdOnly = record {
  oid = λ s h. cc;
  index = λ v k. over-std _ (members v) (members-std v);
  as_int = number_of-std;
  find_one = find_one-std;
}

get_task_id_by_comment_id_total_example :
    (t : ℤ) × (get_task_id_by_comment_id sample_bson sample_collection (str "1") one_comment ≡ ok t)
    × (IsTaskOf sample_bson sample_collection t (str "1") one_comment ⊎ (t ≡ negsuc 0))
get_task_id_by_comment_id_total_example =
    get_task_id_by_comment_id_total sample_bson sample_collection sample-StdOnly (str "1")
      one_comment
