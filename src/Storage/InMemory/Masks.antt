-- ===== src/Storage/InMemory/Masks.antt =====
-- A mask matches exactly the texts that hold it.
use temp_task.Prelude.{
  ℕ, suc, ◌≡◌, refl, ap, ◌↔◌, inl, inr, Bool, true, false, [], ◌∷◌, ◌++◌, Option, none, some, arith,
  Bool-cases, Str, starts_with, starts_with_iff, find_from, find_str,
}
use temp_task.Storage.InMemory.{matches_mask}

-- `mask` stands somewhere in `value`.
abbrev pub Holds : Str → Str → Type 0
Holds value mask = (before : Str) × (after : Str) × (value ≡ before ++ (mask ++ after))

abbrev pub found : Option ℕ → Bool
found none = false
found (some i) = true

find_from_sound : (i : ℕ) (s p : Str) → found (find_from i s p) ≡ true → Holds s p
unfolding find_from
find_from_sound i [] p h = elim (Bool-cases (starts_with [] p)) [
  | inl hit ↦ let (r, e) = (starts_with_iff [] p).0 hit in ([], r, e)
  | inr miss ↦ ground arith
]
find_from_sound i (c ∷ s) p h = elim (Bool-cases (starts_with (c ∷ s) p)) [
  | inl hit ↦ let (r, e) = (starts_with_iff (c ∷ s) p).0 hit in ([], r, e)
  | inr miss ↦
      let (a, b, e) = find_from_sound (suc i) s p (ground arith) in (c ∷ a, b, ap (◌∷◌ c) e)
]

find_from_at :
    (i : ℕ) (before p after s : Str) → s ≡ before ++ (p ++ after) → found (find_from i s p) ≡ true
unfolding find_from
find_from_at i [] p after [] e = ground (arith, (starts_with_iff [] p).1 (after, e))
find_from_at i [] p after (c ∷ s) e = ground (arith, (starts_with_iff (c ∷ s) p).1 (after, e))
find_from_at i (b ∷ before) p after [] e = cc
find_from_at i (b ∷ before) p after (c ∷ s) e =
    ground (arith, find_from_at (suc i) before p after s (cc))

-- The search by mask is the search for a part of the text, and the empty mask matches everything.
pub matches_mask_iff : (value mask : Str) → (matches_mask value mask ≡ true) ↔ Holds value mask
unfolding matches_mask find_str
matches_mask_iff value [] = (λ h. ([], value, refl), λ h. refl)
matches_mask_iff value (c ∷ mask) = (
  λ h. find_from_sound 0 value (c ∷ mask) (ground arith),
  λ (a, b, e). rw e (ground (arith, find_from_at 0 a (c ∷ mask) b _ refl)),
)
