-- ===== src/Storage/Postgres/Results.antt =====
-- Lists of rows that are read and cut.
use mathlib.Core.List.{Memᴰ}
use mathlib.Core.Path.{subst}
use temp_task.Prelude.{
  bind-ok, ℕ, zero, suc, ◌≤◌, ◌<◌, ◌≡◌, refl, sym, ap, ◌∙◌, List, [], ◌∷◌, map, arith, take, length,
  Result, ok,
}
use temp_task.Storage.Sql.{Row}
use temp_task.Storage.Sql.Semantics.{read_all}

module _ {ℓ} {A : Type ℓ} where
  pub read_cons :
      (read : Row → Result A) (r : Row) (rows : List Row) (found : List A)
      → read_all read (r ∷ rows) ≡ ok found
      → (a : A) × (rest : List A) × (read r ≡ ok a)
        × (read_all read rows ≡ ok rest)
        × (found ≡ a ∷ rest)
  read_cons read r rows found h =
      let (a, one, h1) = bind-ok (read r) _ found h in
      let (rest, others, h2) = bind-ok (read_all read rows) _ found h1 in
      (a, rest, one, others, cc h2)

  pub length-read_all :
      (read : Row → Result A) (rows : List Row) (found : List A)
      → read_all read rows ≡ ok found
      → length found ≡ length rows
  length-read_all read [] found h = let e : found ≡ [] = cc h in ap length e
  length-read_all read (r ∷ rows) found h =
      let (a, rest, one, others, e) = read_cons read r rows found h in
      omega (arith, ap length e, length-read_all read rows rest others)

  -- Whatever was read comes from a row, and every row was read.
  pub read_all_sound :
      (read : Row → Result A) (rows : List Row) (found : List A) (a : A)
      → read_all read rows ≡ ok found
      → Memᴰ a found
      → (r : Row) × Memᴰ r rows × (read r ≡ ok a)
  read_all_sound read [] [] a h m = elim m [ ]
  read_all_sound read [] (b ∷ found) a h m = absurd (cc)
  read_all_sound read (r ∷ rows) found a h m =
      let (b, rest, one, others, e) = read_cons read r rows found h in
      head_or_tail b rest (subst (Memᴰ a) e m) one (read_all_sound read rows rest a others)
    where
      head_or_tail :
          (b : A) (rest : List A)
          → Memᴰ a (b ∷ rest)
          → read r ≡ ok b
          → (Memᴰ a rest → (r' : Row) × Memᴰ r' rows × (read r' ≡ ok a))
          → (r' : Row) × Memᴰ r' (r ∷ rows) × (read r' ≡ ok a)
      head_or_tail b rest (Memᴰ.head e) one ih = (r, Memᴰ.head refl, one ∙ ap ok (sym e))
      head_or_tail b rest (Memᴰ.tail t) one ih = let (r', m', e') = ih t in (r', Memᴰ.tail m', e')

  pub read_all_complete :
      (read : Row → Result A) (rows : List Row) (found : List A) (r : Row)
      → read_all read rows ≡ ok found
      → Memᴰ r rows
      → (a : A) × Memᴰ a found × (read r ≡ ok a)
  read_all_complete read [] found r h m = elim m [ ]
  read_all_complete read (r' ∷ rows) found r h (Memᴰ.head e) =
      let (a, rest, one, others, e') = read_cons read r' rows found h in
      (a, subst (Memᴰ a) (sym e') (Memᴰ.head refl), ap read e ∙ one)
  read_all_complete read (r' ∷ rows) found r h (Memᴰ.tail m) =
      let (a, rest, one, others, e') = read_cons read r' rows found h in
      let (b, m', e) = read_all_complete read rows rest r others m in
      (b, subst (Memᴰ b) (sym e') (Memᴰ.tail m'), e)

module _ {ℓ κ} {A : Type ℓ} {B : Type κ} where
  pub mem_map_sound :
      (f : A → B) (xs : List A) (b : B) → Memᴰ b (map f xs) → (a : A) × Memᴰ a xs × (b ≡ f a)
  mem_map_sound f [] b m = elim m [ ]
  mem_map_sound f (x ∷ xs) b (Memᴰ.head e) = (x, Memᴰ.head refl, e)
  mem_map_sound f (x ∷ xs) b (Memᴰ.tail m) =
      let (a, m', e) = mem_map_sound f xs b m in (a, Memᴰ.tail m', e)

  pub mem_map : (f : A → B) (xs : List A) (a : A) → Memᴰ a xs → Memᴰ (f a) (map f xs)
  mem_map f [] a m = elim m [ ]
  mem_map f (x ∷ xs) a (Memᴰ.head e) = Memᴰ.head (ap f e)
  mem_map f (x ∷ xs) a (Memᴰ.tail m) = Memᴰ.tail (mem_map f xs a m)

  pub length-map-take : (f : A → B) (n : ℕ) (xs : List A) → length (map f (take n xs)) ≤ n
  length-map-take f zero xs = omega arith
  length-map-take f (suc n) [] = omega arith
  length-map-take f (suc n) (x ∷ xs) = omega (arith, length-map-take f n xs)

  -- A list that did not reach the limit was not cut.
  pub take_all : (f : A → B) (n : ℕ) (xs : List A) → length (map f (take n xs)) < n → take n xs ≡ xs
  take_all f zero xs h = absurd (omega arith)
  take_all f (suc n) [] h = refl
  take_all f (suc n) (x ∷ xs) h = ap (◌∷◌ x) (take_all f n xs (omega arith))

module _ {ℓ} {A : Type ℓ} where
  pub mem_take : (n : ℕ) (xs : List A) (a : A) → Memᴰ a (take n xs) → Memᴰ a xs
  mem_take zero xs a m = elim m [ ]
  mem_take (suc n) [] a m = elim m [ ]
  mem_take (suc n) (x ∷ xs) a (Memᴰ.head e) = Memᴰ.head e
  mem_take (suc n) (x ∷ xs) a (Memᴰ.tail m) = Memᴰ.tail (mem_take n xs a m)
