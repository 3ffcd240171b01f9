-- ===== src/Storage/Mongo/Sample.antt =====
-- A collection that meets the laws: it has room for one document.
mod Laws
mod Updates
pub mod AllLaws
use temp_task.Prelude.{
  ◌≡◌, ◌≢◌, refl, sym, ap, ◌∙◌, inl, inr, Bool, true, false, List, [], ◌∷◌, ◌++◌, Option, none,
  some, arith, if◌then◌else◌, Str, Str_eq, str, str_eq, str_eq_iff, Dict, find, assign, find-assign,
  Result, ok, throw, std_exception, Exception, ◌>>=◌, bind-ok, ok_injective, Bool-cases,
  Option-cases, Result-cases,
}
use temp_task.Models.{TimePoint, Reply}
use temp_task.Json.Sample.{sample_json, members, members-object_of, mismatch}
use temp_task.Bson.Sample.{sample_bson, sample_bson_laws}
use temp_task.Storage.Mongo.{Collection, by, push_reply}
use temp_task.Storage.Mongo.Documents.{reply_to_bson}
use temp_task.Storage.Mongo.Laws.{CollectionLaws, Pushed}

-- An identifier and the members that were inserted under it.
abbrev pub Stored : Type 0
Stored = Str × Dict Str Str

abbrev pub document : Stored → Str
document (o, fields) = sample_json.object ((str "_id", 1 ∷ o) ∷ fields)

abbrev pub all_documents : Option Stored → List Str
all_documents none = []
all_documents (some s) = document s ∷ []

-- The key and the value of a filter.
abbrev pub pair_of : Dict Str Str → Result (Str × Str)
pair_of [] = mismatch
pair_of (p ∷ more) = ok p

abbrev pub filter_of : Str → Result (Str × Str)
filter_of f = members f >>= pair_of

abbrev pub is_value : Str → Result Str → Bool
is_value v (ok w) = str_eq w v
is_value v (throw e) = false

abbrev pub meets : Str × Str → Stored → Bool
meets (k, v) s = is_value v (sample_json.index (document s) k)

abbrev pub matching : Option Stored → Str × Str → List Str
matching none p = []
matching (some s) p = if meets p s then document s ∷ [] else []

abbrev pub first_matching : Option Stored → Str × Str → Option Str
first_matching none p = none
first_matching (some s) p = if meets p s then some (document s) else none

-- Both operators of an update on one document.
abbrev pub updated : Str → Stored → Result Stored
updated u (o, fields) = do
  p ← sample_json.index u (str "$push")
  s ← sample_json.index u (str "$set")
  r ← sample_json.index p (str "replies")
  t ← sample_json.index s (str "updated_at")
  old ← sample_json.index (document (o, fields)) (str "replies") >>= sample_bson.items
  ok (
    o,
    assign (str "updated_at") t (assign (str "replies") (sample_json.array (old ++ r ∷ [])) fields),
  )

abbrev pub room_for : Option Str → Option Stored → Bool
room_for none none = true
room_for _ _ = false

abbrev pub inserted : Dict Str Str → Option Stored → Result (Unit {0}) × Option Stored
inserted fields db =
    if room_for (find (str "_id") fields) db
    then (ok tt, some (str "1", fields))
    else (mismatch, db)

abbrev pub insert_read : Option Stored → Result (Dict Str Str) → Result (Unit {0}) × Option Stored
insert_read db (ok fields) = inserted fields db
insert_read db (throw e) = (throw e, db)

unfoldable pub insert_one : Str → Option Stored → Result (Unit {0}) × Option Stored
insert_one d db = insert_read db (members d)

abbrev pub changed : Str → Option Stored → Str × Str → Result (Option Stored)
changed u none p = ok none
changed u (some s) p = if meets p s then (updated u s >>= λ s'. ok (some s')) else ok (some s)

abbrev pub kept_on_throw :
    Option Stored → Result (Option Stored) → Result (Unit {0}) × Option Stored
kept_on_throw db (ok db') = (ok tt, db')
kept_on_throw db (throw e) = (throw e, db)

unfoldable pub update_one : Str → Str → Option Stored → Result (Unit {0}) × Option Stored
update_one f u db = kept_on_throw db (filter_of f >>= changed u db)

abbrev pub without : Option Stored → Str × Str → Option Stored
without none p = none
without (some s) p = if meets p s then none else some s

unfoldable pub find_all : Str → Option Stored → Result (List Str)
find_all f db = filter_of f >>= λ p. ok (matching db p)

unfoldable pub find_one : Str → Option Stored → Result (Option Str)
find_one f db = filter_of f >>= λ p. ok (first_matching db p)

abbrev pub sample_collection : Collection sample_bson
sample_collection = record {
  Db = Option Stored;
  insert_one = insert_one;
  find_all = find_all;
  find_one = find_one;
  update_one = update_one;
  delete_one = λ f db. kept_on_throw db (filter_of f >>= λ p. ok (without db p));
}

filter_of-by : (k v : Str) → filter_of (by sample_bson sample_collection k v) ≡ ok (k, v)
filter_of-by k v = rw (members-object_of ((k, v) ∷ []))

pub find_all-by :
    (k v : Str) (db : Option Stored)
    → find_all (by sample_bson sample_collection k v) db ≡ ok (matching db (k, v))
unfolding find_all
find_all-by k v db = ap (λ r. r >>= λ p. ok (matching db p)) (filter_of-by k v)

pub find_one-by :
    (k v : Str) (db : Option Stored)
    → find_one (by sample_bson sample_collection k v) db ≡ ok (first_matching db (k, v))
unfolding find_one
find_one-by k v db = ap (λ r. r >>= λ p. ok (first_matching db p)) (filter_of-by k v)

pub update_one-by :
    (k v u : Str) (db : Option Stored)
    → update_one (by sample_bson sample_collection k v) u db
      ≡ kept_on_throw db (changed u db (k, v))
unfolding update_one
update_one-by k v u db = ap (λ r. kept_on_throw db (r >>= changed u db)) (filter_of-by k v)

pub insert_one-object :
    (fields : Dict Str Str) (db : Option Stored)
    → insert_one (sample_json.object fields) db ≡ inserted fields db
unfolding insert_one
insert_one-object fields db = ap (insert_read db) (members-object_of fields)
