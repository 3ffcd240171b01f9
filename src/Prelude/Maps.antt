-- ===== src/Prelude/Maps.antt =====
-- std::unordered_map as an association list. The order of its entries is the order in which a loop
-- over the map meets them; the container leaves that order open.
use mathlib.Core.Path.{◌≡◌, refl}
use mathlib.Core.Bool.{Bool}
use mathlib.Core.Option.{Option, none, some}
use mathlib.Core.List.{List, [], ◌∷◌}
use native.Mathlib.Omega.{arith}
use temp_task.Prelude.Tests.{if◌then◌else◌, Eq, ◌==◌}

abbrev pub Dict {ℓ κ} : Type ℓ → Type κ → Type (ℓ ⊔ κ)
Dict K V = List (K × V)

module _ {ℓ κ} {K : Type ℓ} {V : Type κ} ⦃e : Eq K⦄ where
  -- m.find(k)
  unfoldable pub find : K → Dict K V → Option V
  find k [] = none
  find k ((j, v) ∷ m) = if j == k then some v else find k m

  -- m[k] = v
  unfoldable pub assign : K → V → Dict K V → Dict K V
  assign k v [] = (k, v) ∷ []
  assign k v ((j, w) ∷ m) = if j == k then (j, v) ∷ m else (j, w) ∷ assign k v m

  -- The loop `it = m.erase(it)` over the entries whose key passes the test.
  unfoldable pub erase_if : (K → Bool) → Dict K V → Dict K V
  erase_if p [] = []
  erase_if p ((j, v) ∷ m) = if p j then erase_if p m else (j, v) ∷ erase_if p m

  -- m.erase(k)
  unfoldable pub erase : K → Dict K V → Dict K V
  unfolding erase_if
  erase k m = erase_if (λ j. j == k) m

  pub find-assign :
      (k j : K) (v : V) (m : Dict K V)
      → find j (assign k v m) ≡ (if k == j then some v else find j m)
  unfolding find assign
  find-assign k j v [] = refl
  find-assign k j v ((i, w) ∷ m) =
      ground (arith, e.beq_iff k j, e.beq_iff i k, e.beq_iff i j, find-assign k j v m)

  pub find-erase_if :
      (p : K → Bool) (k : K) (m : Dict K V)
      → find k (erase_if p m) ≡ (if p k then none else find k m)
  unfolding find erase_if
  find-erase_if p k [] = ground arith
  find-erase_if p k ((i, w) ∷ m) = ground (arith, e.beq_iff i k, find-erase_if p k m)

  pub find-erase :
      (j k : K) (m : Dict K V) → find k (erase j m) ≡ (if j == k then none else find k m)
  unfolding erase
  find-erase j k m = ground (arith, find-erase_if (λ i. i == j) k m, e.beq_iff j k, e.beq_iff k j)
