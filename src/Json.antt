-- ===== src/Json.antt =====
-- The JSON library (userver::formats::json) as a parameter, and what the service relies on.
pub mod Sample
use temp_task.Prelude.{
  ◌≡◌, ℕ, Bool, true, false, List, [], ◌∷◌, if◌then◌else◌, Option, some, ℤ, IsInt32, ◌≤ℤ◌, pos,
  negsuc, Str, Str_eq, Dict, find, Result, ok, ◌>>=◌,
}

-- The range of int64_t.
abbrev pub IsInt64 : ℤ → Type 0
IsInt64 z = (negsuc 9223372036854775807 ≤ℤ z) × (z ≤ℤ pos 9223372036854775807)

-- One subscript of a path into a builder.
pub data PathStep : Type 0 where
  element : ℕ → PathStep
  member : Str → PathStep

-- A value may stand for a missing member; `as_…` throws on it, and on a value of another type.
pub record JsonLib : Type 1 where
  pub Value : Type 0
  -- FromString, ToString
  pub from_string : Str → Result Value
  pub to_text : Value → Str
  -- v.HasMember(k), v[k]
  pub has_member : Value → Str → Result Bool
  pub index : Value → Str → Result Value
  -- v.As<std::string>(), v.As<int>(), v.As<int64_t>(), and v.As<T>(default)
  pub as_string : Value → Result Str
  pub as_int : Value → Result ℤ
  pub as_int64 : Value → Result ℤ
  pub as_string_or : Value → Str → Result Str
  pub as_int_or : Value → ℤ → Result ℤ
  -- what a ValueBuilder extracts: nothing assigned, a text, a number, an object after assignments to
  -- its members, and an array after PushBack of its items
  pub null : Value
  pub of_string : Str → Value
  pub of_int : ℤ → Value
  pub object : Dict Str Value → Value
  pub array : List Value → Value
  -- what `b[…]…[…] = v` makes of a ValueBuilder b
  pub assign_at : List PathStep → Value → Value → Result Value

-- A text that was printed is read back to the value; a member of an object that was built is found
-- under its key; texts and numbers of the type's range are read back.
pub record JsonLaws (json : JsonLib) : Type 0 where
  pub from_string-to_text : (v : json.Value) → json.from_string (json.to_text v) ≡ ok v
  pub index-object :
      (fields : Dict Str json.Value) (k : Str) (v : json.Value)
      → find k fields ≡ some v
      → json.index (json.object fields) k ≡ ok v
  pub as_string-of_string : (s : Str) → json.as_string (json.of_string s) ≡ ok s
  pub as_int-of_int : (z : ℤ) → IsInt32 z → json.as_int (json.of_int z) ≡ ok z
  pub as_int64-of_int : (z : ℤ) → IsInt64 z → json.as_int64 (json.of_int z) ≡ ok z

-- v[k].As<std::string>() and the like.
module _ (json : JsonLib) where
  abbrev pub string_at : json.Value → Str → Result Str
  string_at v k = json.index v k >>= json.as_string

  abbrev pub int_at : json.Value → Str → Result ℤ
  int_at v k = json.index v k >>= json.as_int

  abbrev pub int64_at : json.Value → Str → Result ℤ
  int64_at v k = json.index v k >>= json.as_int64

  -- !v.HasMember(k) || …, which stops at the first member that is missing.
  abbrev pub has_members : json.Value → List Str → Result Bool
  has_members v [] = ok true
  has_members v (k ∷ ks) = do
    present ← json.has_member v k
    if present then has_members v ks else ok false
