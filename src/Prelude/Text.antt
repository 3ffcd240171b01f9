-- ===== src/Prelude/Text.antt =====
-- std::string as the list of its bytes.
use Prim.Native.Char.{code}
use Prim.Native.Nat.{ℕ, suc}
use Prim.Native.String.{String}
use mathlib.Core.Path.{◌≡◌, refl, ap₂}
use mathlib.Core.Logic.{◌↔◌}
use mathlib.Core.Bool.{Bool, true, false, ◌&&◌}
use mathlib.Core.Option.{Option, none, some}
use mathlib.Core.List.{List, [], ◌∷◌, ◌++◌}
use native.Mathlib.Omega.{arith}
use temp_task.Prelude.Tests.{nat_eq, if◌then◌else◌, Eq}

abbrev pub Str : Type 0
Str = List ℕ

-- An ASCII literal of the source.
abbrev pub str : String → Str
str String.[] = []
str (String.◌∷◌ c s) = code c ∷ str s

abbrev pub str_eq : Str → Str → Bool
str_eq [] [] = true
str_eq [] (_ ∷ _) = false
str_eq (_ ∷ _) [] = false
str_eq (a ∷ s) (b ∷ t) = nat_eq a b && str_eq s t

pub str_eq_iff : (s t : Str) → (str_eq s t ≡ true) ↔ (s ≡ t)
str_eq_iff [] [] = ground arith
str_eq_iff [] (b ∷ t) = ground arith
str_eq_iff (a ∷ s) [] = ground arith
str_eq_iff (a ∷ s) (b ∷ t) = ground (arith, str_eq_iff s t)

instance abbrev pub Str_eq : Eq Str
Str_eq = record { beq = str_eq; beq_iff = str_eq_iff }

-- s.empty()
abbrev pub is_empty : Str → Bool
is_empty [] = true
is_empty (_ ∷ _) = false

-- s.rfind(p, 0) == 0, and s.starts_with(p)
abbrev pub starts_with : Str → Str → Bool
starts_with s [] = true
starts_with [] (_ ∷ _) = false
starts_with (c ∷ s) (d ∷ p) = nat_eq c d && starts_with s p

-- s.find(p): the first place at which p stands in s, or npos.
unfoldable pub find_from : ℕ → Str → Str → Option ℕ
find_from i [] p = if starts_with [] p then some i else none
find_from i (c ∷ s) p = if starts_with (c ∷ s) p then some i else find_from (suc i) s p

unfoldable pub find_str : Str → Str → Option ℕ
unfolding find_from
find_str s p = find_from 0 s p

pub starts_with_iff : (s p : Str) → (starts_with s p ≡ true) ↔ ((r : Str) × (s ≡ p ++ r))
starts_with_iff s p = (sound s p, λ (r, e). rw e (complete p r))
  where
    sound : (s p : Str) → starts_with s p ≡ true → (r : Str) × (s ≡ p ++ r)
    sound s [] h = (s, refl)
    sound [] (d ∷ p) h = cc
    sound (c ∷ s) (d ∷ p) h =
        let t : (r : Str) × (s ≡ p ++ r) = sound s p (ground arith) in
        (t.0, ap₂ ◌∷◌ (ground arith) t.1)

    complete : (p r : Str) → starts_with (p ++ r) p ≡ true
    complete [] r = refl
    complete (d ∷ p) r = ground (arith, complete p r)
