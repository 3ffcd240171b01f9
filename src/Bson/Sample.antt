-- ===== src/Bson/Sample.antt =====
-- A BSON library that meets the laws, on the values of the sample JSON library: an identifier is a text,
-- and a time has a tag of its own.
use temp_task.Prelude.{
  is_some, ◌≡◌, refl, sym, ap, List, [], ◌∷◌, map, arith, if◌then◌else◌, length, nat_eq, ℤ, sub_ℕ,
  pos_part, neg_part, IsInt32, is_int32, Str, Str_eq, Dict, find, Result, ok,
}
use temp_task.Prelude.Chunks.{read_body, read_body-body}
use temp_task.Models.{TimePoint}
use temp_task.Json.Sample.{
  sample_json, sample_json_laws, mismatch, members-object_of, text_of, number_of, sub_ℕ-parts,
  is_int32_of,
}
use temp_task.Bson.{BsonLib, BsonLaws}

unfoldable pub items_of : Str → Result (List Str)
items_of (tag ∷ n ∷ s) = if nat_eq tag 4 then ok (map (λ p. p.1) (read_body n s)) else mismatch
items_of _ = mismatch

unfoldable pub moment_of : Str → Result TimePoint
moment_of (tag ∷ a ∷ b ∷ s) = if nat_eq tag 6 then ok (sub_ℕ a b) else mismatch
moment_of _ = mismatch

abbrev pub sample_bson : BsonLib
sample_bson = record {
  Value = Str;
  Oid = Str;
  oid = ok;
  oid_text = λ o. o;
  has_member = sample_json.has_member;
  index = sample_json.index;
  items = items_of;
  as_oid = text_of;
  as_string = text_of;
  as_int = number_of is_int32;
  as_time = moment_of;
  of_oid = λ o. 1 ∷ o;
  of_string = λ s. 1 ∷ s;
  of_int = sample_json.of_int;
  of_time = λ t. 6 ∷ pos_part t ∷ neg_part t ∷ [];
  object = sample_json.object;
  array = sample_json.array;
}

abbrev tagged : List Str → Dict Str Str
tagged = map (λ v. ([], v))

length-tagged : (vs : List Str) → length (tagged vs) ≡ length vs
length-tagged [] = refl
length-tagged (v ∷ vs) = omega (arith, length-tagged vs)

untagged : (vs : List Str) → map (λ p. p.1) (tagged vs) ≡ vs
untagged [] = refl
untagged (v ∷ vs) = ap (◌∷◌ v) (untagged vs)

items_of-array : (vs : List Str) → items_of (sample_json.array vs) ≡ ok vs
unfolding items_of
items_of-array vs = rw (sym (length-tagged vs), read_body-body (tagged vs)) (ap ok (untagged vs))

has_member-object :
    (fields : Dict Str Str) (k : Str)
    → sample_json.has_member (sample_json.object fields) k ≡ ok (is_some (find k fields))
has_member-object fields k = rw (members-object_of fields)

number_of-IsInt32 : (v : Str) (z : ℤ) → number_of is_int32 v ≡ ok z → IsInt32 z
unfolding number_of
number_of-IsInt32 [] z h = absurd (cc)
number_of-IsInt32 (t ∷ []) z h = absurd (cc)
number_of-IsInt32 (t ∷ a ∷ []) z h = absurd (cc)
number_of-IsInt32 (t ∷ a ∷ b ∷ s) z h = ground arith

pub sample_bson_laws : BsonLaws sample_bson
unfolding text_of number_of moment_of
sample_bson_laws = record {
  rounded = λ t. t;
  index-object = λ fields k v h. sample_json_laws.index-object fields k v h;
  has_member-object = has_member-object;
  items-array = items_of-array;
  as_oid-of_oid = λ o. refl;
  as_string-of_string = λ s. refl;
  as_int-of_int = λ z h. ground (arith, sub_ℕ-parts z, is_int32_of z h);
  as_int-IsInt32 = number_of-IsInt32;
  as_time-of_time = λ t. ground (arith, sub_ℕ-parts t);
}
