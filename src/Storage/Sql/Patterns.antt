-- ===== src/Storage/Sql/Patterns.antt =====
-- The patterns of ILIKE, as the documentation of PostgreSQL has them: `%` stands for any text, `_` for
-- one byte, and a backslash for the byte after it.
use temp_task.Prelude.{
  ℕ, ◌≡◌, refl, ap, ◌∙◌, Bool, true, false, ◌&&◌, ◌||◌, not, List, [], ◌∷◌, ◌++◌, map, arith,
  if◌then◌else◌, nat_eq, Str, is_empty, starts_with, All,
}

pub data Token : Type 0 where
  any_text any_byte : Token
  byte : ℕ → Token

-- Whether the byte before was a backslash is carried along.
unfoldable pub tokens : Bool → Str → List Token
tokens escaped [] = []
tokens true (c ∷ p) = byte c ∷ tokens false p
tokens false (c ∷ p) =
    if nat_eq c b'%'
    then any_text ∷ tokens false p
    else if nat_eq c b'_'
    then any_byte ∷ tokens false p
    else if nat_eq c b'\\'
    then tokens true p
    else byte c ∷ tokens false p

-- Some end of the text passes.
abbrev pub any_end : (Str → Bool) → Str → Bool
any_end test [] = test []
any_end test (c ∷ s) = test (c ∷ s) || any_end test s

abbrev pub after_byte : (ℕ → Bool) → (Str → Bool) → Str → Bool
after_byte here later [] = false
after_byte here later (c ∷ s) = here c && later s

unfoldable pub fits : List Token → Str → Bool
fits [] s = is_empty s
fits (any_text ∷ p) s = any_end (fits p) s
fits (any_byte ∷ p) s = after_byte (λ c. true) (fits p) s
fits (byte d ∷ p) s = after_byte (nat_eq d) (fits p) s

-- s LIKE p
unfoldable pub like : Str → Str → Bool
unfolding tokens fits
like s p = fits (tokens false p) s

-- No byte of the text has a meaning of its own in a pattern.
abbrev pub is_plain_byte : ℕ → Bool
is_plain_byte c = not (nat_eq c b'%' || (nat_eq c b'_' || nat_eq c b'\\'))

abbrev pub IsPlain : Str → Type 0
IsPlain = All (λ c. is_plain_byte c ≡ true)

pub tokens-plain :
    (mask rest : Str)
    → IsPlain mask
    → tokens false (mask ++ rest) ≡ map byte mask ++ tokens false rest
unfolding tokens
tokens-plain [] rest h = refl
tokens-plain (c ∷ mask) rest h = ground (arith, tokens-plain mask rest h.1)

any_end-always : (p : List Token) (s : Str) → fits p [] ≡ true → any_end (fits p) s ≡ true
any_end-always p [] h = h
any_end-always p (c ∷ s) h = ground (arith, any_end-always p s h)

-- Bytes and then any text: the text begins with the bytes.
pub fits-bytes : (mask s : Str) → fits (map byte mask ++ any_text ∷ []) s ≡ starts_with s mask
unfolding fits
fits-bytes [] s = any_end-always [] s refl
fits-bytes (d ∷ mask) [] = refl
fits-bytes (d ∷ mask) (c ∷ s) = ground (arith, fits-bytes mask s)

any_end-fits :
    (mask s : Str)
    → any_end (fits (map byte mask ++ any_text ∷ [])) s ≡ any_end (λ t. starts_with t mask) s
any_end-fits mask [] = fits-bytes mask []
any_end-fits mask (c ∷ s) = ground (arith, fits-bytes mask (c ∷ s), any_end-fits mask s)

-- A plain text between two `%` fits exactly where some end of the text begins with it.
pub like-part :
    (s mask : Str)
    → IsPlain mask
    → like s (b'%' ∷ (mask ++ b'%' ∷ [])) ≡ any_end (λ t. starts_with t mask) s
unfolding like fits tokens
like-part s mask h =
    ap (λ p. any_end (fits p) s) (tokens-plain mask (b'%' ∷ []) h) ∙ any_end-fits mask s
