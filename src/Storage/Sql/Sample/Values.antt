-- ===== src/Storage/Sql/Sample/Values.antt =====
-- The rows that the sample cluster stores have the values of their insertions.
use temp_task.Prelude.{
  ◌≡◌, refl, sym, ap, ◌∙◌, true, false, List, [], ◌∷◌, Option, none, some, arith, ==_refl, ℤ,
  is_int32, IsInt32, All, Str, Str_eq, str, str_eq, find, Result, ok, throw, Exception,
}
use temp_task.Storage.Sql.{Cell, Row, Insert, Value, text, int, boolean, time, null}
use temp_task.Storage.Sql.Semantics.{HasValues, cell_at, kept, value_of}
use temp_task.Storage.Sql.Laws.{InRange}
use temp_task.Storage.Sql.Sample.{all_in_range, is_absent, all_distinct, row_of, stored_row}

pub cell_at-cons_same : (k : Str) (v : Cell) (row : Row) → cell_at k ((k, v) ∷ row) ≡ v
unfolding find
cell_at-cons_same k v row = ground (arith, ==_refl k)

cell_at-cons_other :
    (c k : Str) (v : Cell) (row : Row)
    → str_eq k c ≡ false
    → cell_at c ((k, v) ∷ row) ≡ cell_at c row
unfolding find
cell_at-cons_other c k v row h =
    let other : find c ((k, v) ∷ row) ≡ find c row = ground arith in
    ap (λ (o : Option Cell). elim o [ none ↦ null | some w ↦ w ]) other

kept_same : (v : Cell) → kept (λ t. t) v ≡ v
kept_same (text s) = refl
kept_same (int z) = refl
kept_same (boolean b) = refl
kept_same (time t) = refl
kept_same null = refl

module _ (args : List Cell) where
  HasValues-cons :
      (k : Str) (w : Cell) (cs : List Str) (vs : List Value) (row : Row)
      → is_absent k cs ≡ true
      → HasValues (λ t. t) args cs vs row
      → HasValues (λ t. t) args cs vs ((k, w) ∷ row)
  HasValues-cons k w [] [] row h v = tt
  HasValues-cons k w [] (x ∷ vs) row h v = tt
  HasValues-cons k w (c ∷ cs) [] row h v = tt
  HasValues-cons k w (c ∷ cs) (x ∷ vs) row h v =
      let (differs, absent) : (str_eq k c ≡ false) × (is_absent k cs ≡ true) = ground arith in
      (cell_at-cons_other c k w row differs ∙ v.0, HasValues-cons k w cs vs row absent v.1)

  row_of-HasValues :
      (cs : List Str) (vs : List Value)
      → all_distinct cs ≡ true
      → HasValues (λ t. t) args cs vs (row_of args cs vs)
  row_of-HasValues [] [] h = tt
  row_of-HasValues [] (x ∷ vs) h = tt
  row_of-HasValues (c ∷ cs) [] h = tt
  row_of-HasValues (c ∷ cs) (v ∷ vs) h =
      let absent : is_absent c cs ≡ true = ground arith in
      let distinct : all_distinct cs ≡ true = ground arith in
      (
        cell_at-cons_same c (value_of args v) (row_of args cs vs)
            ∙ sym (kept_same (value_of args v)),
        HasValues-cons c (value_of args v) cs vs (row_of args cs vs) absent
            (row_of-HasValues cs vs distinct),
      )

pub all_in_range-InRange : (args : List Cell) → all_in_range args ≡ true → All InRange args
all_in_range-InRange [] h = tt
all_in_range-InRange (text s ∷ args) h = (tt, all_in_range-InRange args h)
all_in_range-InRange (int z ∷ args) h =
    let rest : all_in_range args ≡ true = ground arith in
    (ground arith, all_in_range-InRange args rest)
all_in_range-InRange (boolean b ∷ args) h = (tt, all_in_range-InRange args h)
all_in_range-InRange (time t ∷ args) h = (tt, all_in_range-InRange args h)
all_in_range-InRange (null ∷ args) h = (tt, all_in_range-InRange args h)

pub row_values :
    (i : Insert) (args : List Cell) (id : ℤ)
    → all_distinct (str "id" ∷ i.columns) ≡ true
    → HasValues (λ t. t) args i.columns i.values (stored_row i args id)
row_values i args id h =
    let absent : is_absent (str "id") i.columns ≡ true = ground arith in
    let distinct : all_distinct i.columns ≡ true = ground arith in
    HasValues-cons args (str "id") (int id) i.columns i.values (row_of args i.columns i.values)
      absent (row_of-HasValues args i.columns i.values distinct)

pub is_int32-IsInt32 : (z : ℤ) → is_int32 z ≡ true → IsInt32 z
is_int32-IsInt32 z h = ground arith

pub ok-ne-throw {ℓ} : {A : Type ℓ} (a : A) (e : Exception) → ◌≡◌ {A = Result A} (ok a) (throw e) → ⊥
ok-ne-throw a e h = cc
