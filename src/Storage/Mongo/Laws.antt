-- ===== src/Storage/Mongo/Laws.antt =====
-- What MongoStorage relies on of its collection.
use mathlib.Core.List.{Memᴰ}
use temp_task.Prelude.{
  ◌≡◌, ◌≢◌, true, List, [], ◌∷◌, ◌++◌, none, some, ℤ, Str, Str_eq, str, Dict, find, ok, ◌>>=◌,
}
use temp_task.Bson.{BsonLib}
use temp_task.Storage.Mongo.{Collection, by}

-- MakeDoc("$push", MakeDoc("replies", r), "$set", MakeDoc("updated_at", t))
abbrev pub push_and_set :
    (bson : BsonLib) (comments : Collection bson) → bson.Value → bson.Value → bson.Value
push_and_set bson comments r t = bson.object (
    (str "$push", by bson comments (str "replies") r)
    ∷ (str "$set", by bson comments (str "updated_at") t)
    ∷ [])

-- What $push of a value onto the replies and $set of a time make of a document: its other members stay.
pub record Pushed (bson : BsonLib) (r t d d' : bson.Value) (replies : List bson.Value)
    : Type 0 where
  pub pushed : (bson.index d' (str "replies") >>= bson.items) ≡ ok (replies ++ r ∷ [])
  pub present : bson.has_member d' (str "updated_at") ≡ ok true
  pub set_to : bson.index d' (str "updated_at") ≡ ok t
  pub others :
      (k : Str) → k ≢ str "replies" → k ≢ str "updated_at" → bson.index d' k ≡ bson.index d k

-- The documents of the collection, and when a member equals a value of a filter. An insertion stores the
-- document with an identifier of its own; it changes no answer to a filter that the document does not
-- meet. An update by identifier changes the document that FindOne gives as its operators say, and no answer
-- to a filter on another member that the document does not meet. What throws changes nothing.
pub record CollectionLaws (bson : BsonLib) (comments : Collection bson) : Type 1 where
  pub documents : comments.Db → List bson.Value
  pub Equals : bson.Value → bson.Value → Type 0
  pub Equals-refl : (v : bson.Value) → Equals v v
  pub Equals-of_int : (a b : ℤ) → Equals (bson.of_int a) (bson.of_int b) → a ≡ b
  pub Equals-as_int :
      (v : bson.Value) (a b : ℤ) → bson.as_int v ≡ ok a → Equals v (bson.of_int b) → a ≡ b
  pub find_all-complete :
      (k : Str) (v w d : bson.Value) (db : comments.Db) (found : List bson.Value)
      → comments.find_all (by bson comments k v) db ≡ ok found
      → Memᴰ d (documents db)
      → bson.index d k ≡ ok w
      → Equals w v
      → Memᴰ d found
  pub insert-stores :
      (fields : Dict Str bson.Value) (db : comments.Db)
      → find (str "_id") fields ≡ none
      → (comments.insert_one (bson.object fields) db).0 ≡ ok tt
      → (o : bson.Oid) × Memᴰ
          (bson.object ((str "_id", bson.of_oid o) ∷ fields))
          (documents (comments.insert_one (bson.object fields) db).1)
  pub insert-other :
      (fields : Dict Str bson.Value) (k : Str) (v w : bson.Value) (db : comments.Db)
      → k ≢ str "_id"
      → find k fields ≡ some w
      → (Equals w v → ⊥)
      → comments.find_all (by bson comments k v) (comments.insert_one (bson.object fields) db).1
        ≡ comments.find_all (by bson comments k v) db
  pub update-other :
      (o : bson.Oid) (r t : bson.Value) (k : Str) (v w d : bson.Value) (db : comments.Db)
      → comments.find_one (by bson comments (str "_id") (bson.of_oid o)) db ≡ ok (some d)
      → k ≢ str "replies"
      → k ≢ str "updated_at"
      → bson.index d k ≡ ok w
      → (Equals w v → ⊥)
      → comments.find_all
          (by bson comments k v)
          (comments.update_one
            (by bson comments (str "_id") (bson.of_oid o))
            (push_and_set bson comments r t)
            db).1
        ≡ comments.find_all (by bson comments k v) db
  pub update-sets :
      (o : bson.Oid) (r t : bson.Value) (d : bson.Value) (replies : List bson.Value)
      (db : comments.Db)
      → comments.find_one (by bson comments (str "_id") (bson.of_oid o)) db ≡ ok (some d)
      → (bson.index d (str "replies") >>= bson.items) ≡ ok replies
      → (comments.update_one
          (by bson comments (str "_id") (bson.of_oid o))
          (push_and_set bson comments r t)
          db).0
        ≡ ok tt
      → (d' : bson.Value) × (comments.find_one
            (by bson comments (str "_id") (bson.of_oid o))
            (comments.update_one
              (by bson comments (str "_id") (bson.of_oid o))
              (push_and_set bson comments r t)
              db).1
          ≡ ok (some d'))
        × Pushed bson r t d d' replies
