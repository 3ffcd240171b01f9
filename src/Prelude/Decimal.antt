-- ===== src/Prelude/Decimal.antt =====
-- std::to_string and std::stoi on `int`.
use Prim.Native.Nat.{ℕ, zero, suc, ◌+◌, ◌-◌, ◌*◌, ◌/◌, ◌%◌, ◌<◌}
use mathlib.Core.Path.{◌≡◌, refl, ap, ◌∙◌, sym}
use mathlib.Core.Bool.{Bool, true, false, ◌&&◌, ◌||◌}
use mathlib.Core.Logic.{inl, inr}
use mathlib.Core.List.{[], ◌∷◌, ◌++◌, append_assoc, append-nil}
use native.Mathlib.Omega.{arith}
use temp_task.Prelude.Tests.{ltb, leb, nat_eq, if◌then◌else◌, Bool-cases}
use temp_task.Prelude.Int.{ℤ, pos, negsuc, is_int32, IsInt32}
use temp_task.Prelude.Text.{Str, str}
use temp_task.Prelude.Results.{Result, ok, throw, invalid_argument, out_of_range}

-- The decimal digits of n, with fuel above n.
unfoldable pub decimal : ℕ → ℕ → Str
decimal zero n = []
decimal (suc f) n =
    let rest = decimal f (n / 10) in if ltb n 10 then (48 + n) ∷ [] else rest ++ (48 + n % 10) ∷ []

unfoldable pub to_string : ℤ → Str
unfolding decimal
to_string (pos n) = decimal (suc n) n
to_string (negsuc n) = b'-' ∷ decimal (suc (suc n)) (suc n)

abbrev pub is_digit : ℕ → Bool
is_digit c = leb b'0' c && leb c b'9'

abbrev pub is_space : ℕ → Bool
is_space c = nat_eq c 32 || (leb 9 c && leb c 13)

unfoldable pub skip_spaces : Str → Str
skip_spaces [] = []
skip_spaces (c ∷ s) = if is_space c then skip_spaces s else c ∷ s

-- The digits at the front; what follows them is left unread.
unfoldable pub read_digits : ℕ → Str → ℕ
read_digits acc [] = acc
read_digits acc (c ∷ s) = if is_digit c then read_digits (acc * 10 + (c - 48)) s else acc

abbrev pub signed : Bool → ℕ → ℤ
signed false n = pos n
signed true zero = pos 0
signed true (suc n) = negsuc n

unfoldable pub read_magnitude : Bool → Str → Result ℤ
unfolding read_digits
read_magnitude negative [] = throw (invalid_argument (str "stoi"))
read_magnitude negative (c ∷ s) =
    let value = signed negative (read_digits 0 (c ∷ s)) in
    if is_digit c
    then (if is_int32 value then ok value else throw (out_of_range (str "stoi")))
    else throw (invalid_argument (str "stoi"))

unfoldable pub read_signed : Str → Result ℤ
unfolding read_magnitude
read_signed [] = throw (invalid_argument (str "stoi"))
read_signed (c ∷ s) =
    if nat_eq c b'-'
    then read_magnitude true s
    else if nat_eq c b'+'
    then read_magnitude false s
    else read_magnitude false (c ∷ s)

unfoldable pub stoi : Str → Result ℤ
unfolding skip_spaces read_signed
stoi s = read_signed (skip_spaces s)

read_digit :
    (acc d : ℕ) (t : Str) → d < 10 → read_digits acc ((48 + d) ∷ t) ≡ read_digits (acc * 10 + d) t
unfolding read_digits
read_digit acc d t h = ground (arith, ap (λ v. read_digits v t) (place acc d))
  where
    place : (acc d : ℕ) → acc * 10 + ((48 + d) - 48) ≡ acc * 10 + d
    place acc d = omega arith

read_digits-decimal :
    (f n : ℕ) (t : Str) → n < f → read_digits 0 (decimal f n ++ t) ≡ read_digits n t
unfolding decimal
read_digits-decimal zero n t h = elim h [ ]
read_digits-decimal (suc f) n t h = elim (Bool-cases (ltb n 10)) [
  | inl small ↦ rw small (read_digit 0 n t (ground arith) ∙ ap (λ v. read_digits v t) (omega arith))
  | inr large ↦
      rw (large, append_assoc)
        (read_digits-decimal f (n / 10) ((48 + n % 10) ∷ t) (ground arith)
          ∙ read_digit (n / 10) (n % 10) t (omega arith)
          ∙ ap (λ v. read_digits v t) (omega arith))
]

-- A decimal begins with a digit.
decimal_head : (f n : ℕ) → n < f → (c : ℕ) × (r : Str) × (decimal f n ≡ c ∷ r) × (is_digit c ≡ true)
unfolding decimal
decimal_head zero n h = elim h [ ]
decimal_head (suc f) n h = elim (Bool-cases (ltb n 10)) [
  | inl small ↦ (48 + n, [], rw small, ground arith)
  | inr large ↦
      let (c, r, e, d) = decimal_head f (n / 10) (ground arith) in
      (c, r ++ (48 + n % 10) ∷ [], rw (large, e), d)
]

read_magnitude-decimal :
    (negative : Bool) (f n : ℕ)
    → n < f
    → is_int32 (signed negative n) ≡ true
    → read_magnitude negative (decimal f n) ≡ ok (signed negative n)
unfolding read_magnitude read_digits
read_magnitude-decimal negative f n h range =
    let (c, r, e, d) = decimal_head f n h in
    let value : read_digits 0 (c ∷ r) ≡ n =
      ap (read_digits 0) (sym e ∙ sym (append-nil (decimal f n))) ∙ read_digits-decimal f n [] h in
    rw (e, read_magnitude) (ground (arith, value))

is_int32_of_IsInt32 : (z : ℤ) → IsInt32 z → is_int32 z ≡ true
is_int32_of_IsInt32 (pos n) h = ground arith
is_int32_of_IsInt32 (negsuc n) h = ground arith

-- stoi reads back what to_string prints of an `int`.
pub stoi-to_string : (z : ℤ) → IsInt32 z → stoi (to_string z) ≡ ok z
unfolding stoi to_string
stoi-to_string (pos n) h =
    let (c, r, e, d) = decimal_head (suc n) n (omega arith) in
    let read =
      read_magnitude-decimal false (suc n) n (omega arith) (is_int32_of_IsInt32 (pos n) h) in
    rw e (ground (arith, ap (read_magnitude false) e, read))
stoi-to_string (negsuc n) h =
    read_magnitude-decimal true (suc (suc n)) (suc n) (omega arith)
      (is_int32_of_IsInt32 (negsuc n) h)

read_magnitude-is_int32 :
    (negative : Bool) (s : Str) (z : ℤ) → read_magnitude negative s ≡ ok z → is_int32 z ≡ true
unfolding read_magnitude
read_magnitude-is_int32 negative [] z h = absurd (cc)
read_magnitude-is_int32 negative (c ∷ s) z h = ground arith

is_int32-IsInt32 : (z : ℤ) → is_int32 z ≡ true → IsInt32 z
is_int32-IsInt32 (pos n) h = ground arith
is_int32-IsInt32 (negsuc n) h = ground arith

read_signed-is_int32 : (s : Str) (z : ℤ) → read_signed s ≡ ok z → is_int32 z ≡ true
unfolding read_signed
read_signed-is_int32 [] z h = absurd (cc)
read_signed-is_int32 (c ∷ s) z h = ground (
  arith,
  read_magnitude-is_int32 true s z,
  read_magnitude-is_int32 false s z,
  read_magnitude-is_int32 false (c ∷ s) z,
)

-- What stoi returns is an `int`.
pub stoi-IsInt32 : (s : Str) (z : ℤ) → stoi s ≡ ok z → IsInt32 z
unfolding stoi
stoi-IsInt32 s z h = is_int32-IsInt32 z (read_signed-is_int32 (skip_spaces s) z h)

pub to_string_injective : (a b : ℤ) → IsInt32 a → IsInt32 b → to_string a ≡ to_string b → a ≡ b
to_string_injective a b ha hb e =
    let same : ◌≡◌ {A = Result ℤ} (ok a) (ok b) =
      sym (stoi-to_string a ha) ∙ ap stoi e ∙ stoi-to_string b hb in
    cc same

decimal_tests :
    (to_string (pos 0) ≡ str "0")
    × (to_string (negsuc 2147483647) ≡ str "-2147483648")
    × (stoi (str "  +42abc") ≡ ok (pos 42))
    × (stoi (str "2147483648") ≡ throw (out_of_range (str "stoi")))
    × (stoi (str "-") ≡ throw (invalid_argument (str "stoi")))
unfolding to_string stoi
decimal_tests = (refl, refl, refl, refl, refl)
