-- ===== src/Event/Ids.antt =====
-- EventProducer::GenerateEventId and models::GenerateCommentId. The draws of the random device are
-- a sequence: `draw n` is the value of the (n + 1)st call of the distribution.
use temp_task.Prelude.{
  ℕ, zero, suc, ◌+◌, ◌%◌, ◌<◌, ◌≤◌, ◌≡◌, refl, inl, inr, Bool, ◌||◌, ◌&&◌, true, [], ◌∷◌, arith,
  if◌then◌else◌, ap, leb, leb→le, Bool-cases, nat_eq, length, All, Str, str,
}
use mathlib.Core.Bool.{and-eq-true_iff}

abbrev get_or : Str → ℕ → ℕ → ℕ
get_or [] i d = d
get_or (c ∷ s) zero d = c
get_or (c ∷ s) (suc i) d = get_or s i d

abbrev hex : ℕ → ℕ
hex i = get_or (str "0123456789abcdef") i 0

-- The loop over the template, after n draws.
unfoldable fill : (ℕ → ℕ) → ℕ → Str → Str
fill draw n [] = []
fill draw n (c ∷ s) =
    (if nat_eq c b'x' then hex (draw n) else if nat_eq c b'y' then hex (4 + draw n % 4) else c)
    ∷ fill draw (if nat_eq c b'x' || nat_eq c b'y' then suc n else n) s

unfoldable pub generate_event_id : (ℕ → ℕ) → Str
unfolding fill
generate_event_id draw = fill draw 0 (str "xxxxxxxx-xxxx-4xxx-yxxx-xxxxxxxxxxxx")

-- GenerateCommentId: the loop with `rounds` left.
unfoldable hex_digits : (ℕ → ℕ) → ℕ → ℕ → Str
hex_digits draw n zero = []
hex_digits draw n (suc rounds) = hex (draw n) ∷ hex_digits draw (suc n) rounds

unfoldable pub generate_comment_id : (ℕ → ℕ) → Str
unfolding hex_digits
generate_comment_id draw = hex_digits draw 0 24

abbrev pub is_hex : ℕ → Bool
is_hex c = (leb b'0' c && leb c b'9') || (leb b'a' c && leb c b'f')

-- A text has the shape of a template: a hexadecimal digit for each x, one of 4, 5, 6 and 7 for each y,
-- and every other byte as it stands.
abbrev pub Fits : Str → Str → Type 0
Fits [] [] = Unit {0}
Fits [] (_ ∷ _) = ⊥
Fits (_ ∷ _) [] = ⊥
Fits (c ∷ t) (d ∷ s) =
    (if nat_eq c b'x'
      then is_hex d ≡ true
      else if nat_eq c b'y'
      then (b'4' ≤ d) × (d ≤ b'7')
      else d ≡ c)
    × Fits t s

-- Over a small range every value is checked by evaluation.
passes_all : (ℕ → Bool) → ℕ → Bool
passes_all test zero = true
passes_all test (suc k) = passes_all test k && test k

passes_all-below : (test : ℕ → Bool) (k i : ℕ) → passes_all test k ≡ true → i < k → test i ≡ true
unfolding passes_all
passes_all-below test zero i all below = absurd (omega arith)
passes_all-below test (suc k) i all below = ground (arith, passes_all-below test k i)

hex_table : passes_all (λ i. is_hex (hex i)) 16 ≡ true
unfolding passes_all
hex_table = refl

variant_table : passes_all (λ i. leb b'4' (hex (4 + i)) && leb (hex (4 + i)) b'7') 4 ≡ true
unfolding passes_all
variant_table = refl

module _ (draw : ℕ → ℕ) (in_range : (n : ℕ) → draw n < 16) where
  variant_bounds : (n : ℕ) → (b'4' ≤ hex (4 + draw n % 4)) × (hex (4 + draw n % 4) ≤ b'7')
  variant_bounds n =
      let (lo, hi) = (and-eq-true_iff _ _).0 (
        passes_all-below (λ i. leb b'4' (hex (4 + i)) && leb (hex (4 + i)) b'7') 4 (draw n % 4)
          variant_table (omega arith)) in
      (leb→le _ _ lo, leb→le _ _ hi)

  fill-Fits : (n : ℕ) (t : Str) → Fits t (fill draw n t)
  unfolding fill
  fill-Fits n [] = tt
  fill-Fits n (c ∷ t) = elim (Bool-cases (nat_eq c b'x')) [
    | inl x ↦ rw x (
      passes_all-below (λ i. is_hex (hex i)) 16 (draw n) hex_table (in_range n),
      fill-Fits (suc n) t,
    )
    | inr other ↦ elim (Bool-cases (nat_eq c b'y')) [
      | inl y ↦ rw (other, y) (variant_bounds n, fill-Fits (suc n) t)
      | inr plain ↦ rw (other, plain) (refl, fill-Fits n t)
    ]
  ]

-- An event id has the shape of its template, and so 36 bytes, a '4' for the version, and the variant
-- digit between '4' and '7'. The draws must be below 16, as the distribution's are.
pub generate_event_id-Fits :
    (draw : ℕ → ℕ)
    → ((n : ℕ) → draw n < 16)
    → Fits (str "xxxxxxxx-xxxx-4xxx-yxxx-xxxxxxxxxxxx") (generate_event_id draw)
unfolding generate_event_id
generate_event_id-Fits draw h = fill-Fits draw h 0 (str "xxxxxxxx-xxxx-4xxx-yxxx-xxxxxxxxxxxx")

hex_digits-All :
    (draw : ℕ → ℕ) (n rounds : ℕ)
    → ((n : ℕ) → draw n < 16)
    → (length (hex_digits draw n rounds) ≡ rounds)
      × All (λ c. is_hex c ≡ true) (hex_digits draw n rounds)
unfolding hex_digits
hex_digits-All draw n zero h = (refl, tt)
hex_digits-All draw n (suc rounds) h =
    let (len, rest) = hex_digits-All draw (suc n) rounds h in
    (ap suc len, (passes_all-below (λ i. is_hex (hex i)) 16 (draw n) hex_table (h n), rest))

-- A comment id is a valid text of an ObjectId: 24 bytes, each a hexadecimal digit.
pub generate_comment_id-All :
    (draw : ℕ → ℕ)
    → ((n : ℕ) → draw n < 16)
    → (length (generate_comment_id draw) ≡ 24)
      × All (λ c. is_hex c ≡ true) (generate_comment_id draw)
unfolding generate_comment_id
generate_comment_id-All draw h = hex_digits-All draw 0 24 h
