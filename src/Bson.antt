-- ===== src/Bson.antt =====
-- The BSON library (userver::formats::bson) as a parameter, and what the service relies on.
pub mod Sample
use temp_task.Prelude.{
  is_some, ◌≡◌, Bool, true, false, List, ◌∷◌, [], Option, none, some, ℤ, IsInt32, Str, Str_eq, Dict,
  find, Result, ok, ◌>>=◌,
}
use temp_task.Models.{TimePoint}

-- A value may stand for a missing member; `as_…` throws on it, and on a value of another type.
pub record BsonLib : Type 1 where
  pub Value : Type 0
  pub Oid : Type 0
  -- Oid(text), which throws on a text that names none, and ToString
  pub oid : Str → Result Oid
  pub oid_text : Oid → Str
  -- v.HasMember(k), v[k], and the items that a loop over v visits
  pub has_member : Value → Str → Result Bool
  pub index : Value → Str → Result Value
  pub items : Value → Result (List Value)
  pub as_oid : Value → Result Oid
  pub as_string : Value → Result Str
  pub as_int : Value → Result ℤ
  pub as_time : Value → Result TimePoint
  pub of_oid : Oid → Value
  pub of_string : Str → Value
  pub of_int : ℤ → Value
  pub of_time : TimePoint → Value
  -- what a ValueBuilder extracts after assignments to its members, which is also MakeDoc, and after
  -- PushBack of its items
  pub object : Dict Str Value → Value
  pub array : List Value → Value

-- A member of an object that was built is found under its key, the items of an array are those that
-- were pushed, and values of the types are read back; a time is rounded to a millisecond.
pub record BsonLaws (bson : BsonLib) : Type 0 where
  pub rounded : TimePoint → TimePoint
  pub index-object :
      (fields : Dict Str bson.Value) (k : Str) (v : bson.Value)
      → find k fields ≡ some v
      → bson.index (bson.object fields) k ≡ ok v
  pub has_member-object :
      (fields : Dict Str bson.Value) (k : Str)
      → bson.has_member (bson.object fields) k ≡ ok (is_some (find k fields))
  pub items-array : (vs : List bson.Value) → bson.items (bson.array vs) ≡ ok vs
  pub as_oid-of_oid : (o : bson.Oid) → bson.as_oid (bson.of_oid o) ≡ ok o
  pub as_string-of_string : (s : Str) → bson.as_string (bson.of_string s) ≡ ok s
  pub as_int-of_int : (z : ℤ) → IsInt32 z → bson.as_int (bson.of_int z) ≡ ok z
  pub as_int-IsInt32 : (v : bson.Value) (z : ℤ) → bson.as_int v ≡ ok z → IsInt32 z
  pub as_time-of_time : (t : TimePoint) → bson.as_time (bson.of_time t) ≡ ok (rounded t)

-- v[k].As<T>()
module _ (bson : BsonLib) where
  abbrev pub string_at : bson.Value → Str → Result Str
  string_at v k = bson.index v k >>= bson.as_string

  abbrev pub int_at : bson.Value → Str → Result ℤ
  int_at v k = bson.index v k >>= bson.as_int

  abbrev pub time_at : bson.Value → Str → Result TimePoint
  time_at v k = bson.index v k >>= bson.as_time
