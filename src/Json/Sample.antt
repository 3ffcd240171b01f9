-- ===== src/Json/Sample.antt =====
-- A JSON library that meets the laws: a value is its own text, a tag and what the tag says. Only the
-- laws are proved of it; the service's code does not depend on it.
use temp_task.Prelude.{
  is_some, ◌≡◌, refl, Bool, true, [], ◌∷◌, Option, none, some, arith, if◌then◌else◌, map, length,
  nat_eq, ℤ, pos, sub_ℕ, pos_part, neg_part, IsInt32, is_int32, leb_ℤ, negsuc, ◌&&◌, Str, Str_eq,
  str, Dict, find, Result, ok, throw, std_exception,
}
use temp_task.Prelude.Chunks.{body, read_body, read_body-body}
use temp_task.Json.{JsonLib, JsonLaws}

abbrev pub mismatch {ℓ} : {A : Type ℓ} → Result A
mismatch = throw (std_exception (str "wrong type"))

-- Tags: 1 a text, 2 a number, 3 an object, 4 an array, 5 null; the empty text is a missing value.
abbrev pub object_of : Dict Str Str → Str
object_of fields = 3 ∷ length fields ∷ body fields

unfoldable pub members : Str → Result (Dict Str Str)
members (tag ∷ n ∷ s) = if nat_eq tag 3 then ok (read_body n s) else mismatch
members _ = mismatch

abbrev pub or_missing : Option Str → Str
or_missing none = []
or_missing (some v) = v

abbrev pub over {ℓ} : {B : Type ℓ} → (Dict Str Str → B) → Result (Dict Str Str) → Result B
over f (ok m) = ok (f m)
over f (throw e) = throw e

unfoldable pub text_of : Str → Result Str
text_of [] = mismatch
text_of (tag ∷ s) = if nat_eq tag 1 then ok s else mismatch

unfoldable pub number_of : (ℤ → Bool) → Str → Result ℤ
number_of in_range (tag ∷ a ∷ b ∷ s) =
    if nat_eq tag 2 && in_range (sub_ℕ a b) then ok (sub_ℕ a b) else mismatch
number_of in_range _ = mismatch

abbrev pub is_int64 : ℤ → Bool
is_int64 z = leb_ℤ (negsuc 9223372036854775807) z && leb_ℤ z (pos 9223372036854775807)

abbrev text_or : Str → Str → Result Str
text_or [] d = ok d
text_or v d = text_of v

abbrev number_or : Str → ℤ → Result ℤ
number_or [] d = ok d
number_or v d = number_of is_int32 v

abbrev pub sample_json : JsonLib
sample_json = record {
  Value = Str;
  from_string = ok;
  to_text = λ v. v;
  has_member = λ v k. over (λ m. is_some (find k m)) (members v);
  index = λ v k. over (λ m. or_missing (find k m)) (members v);
  as_string = text_of;
  as_int = number_of is_int32;
  as_int64 = number_of is_int64;
  as_string_or = text_or;
  as_int_or = number_or;
  null = 5 ∷ [];
  of_string = λ s. 1 ∷ s;
  of_int = λ z. 2 ∷ pos_part z ∷ neg_part z ∷ [];
  object = object_of;
  array = λ vs. 4 ∷ length vs ∷ body (map (λ v. ([], v)) vs);
  assign_at = λ path v b. mismatch;
}

pub members-object_of : (fields : Dict Str Str) → members (object_of fields) ≡ ok fields
unfolding members
members-object_of fields = rw (read_body-body fields)

pub sub_ℕ-parts : (z : ℤ) → sub_ℕ (pos_part z) (neg_part z) ≡ z
sub_ℕ-parts z = ground arith

pub is_int32_of : (z : ℤ) → IsInt32 z → is_int32 z ≡ true
is_int32_of (pos n) h = ground arith
is_int32_of (negsuc n) h = ground arith

index-object :
    (fields : Dict Str Str) (k v : Str)
    → find k fields ≡ some v
    → sample_json.index (object_of fields) k ≡ ok v
index-object fields k v e = rw (members-object_of fields, e)

pub sample_json_laws : JsonLaws sample_json
unfolding text_of number_of
sample_json_laws = record {
  from_string-to_text = λ v. refl;
  index-object = index-object;
  as_string-of_string = λ s. refl;
  as_int-of_int = λ z h. ground (arith, sub_ℕ-parts z, is_int32_of z h);
  as_int64-of_int = λ z h. ground (arith, sub_ℕ-parts z);
}
