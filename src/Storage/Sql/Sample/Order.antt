-- ===== src/Storage/Sql/Sample/Order.antt =====
-- The rows of a select of the sample cluster: those that meet its conditions, in its order.
use mathlib.Core.List.{Memᴰ}
use mathlib.Core.List.Memᴰ
use mathlib.Core.Path.{subst}
use temp_task.Prelude.{
  ◌≡◌, sym, ap, ◌∙◌, ◌↔◌, inl, inr, Bool, true, false, List, [], ◌∷◌, Option, none, some, arith,
  keep_if, Bool-cases, leb_ℤ, ℤ, Str,
}
use temp_task.Storage.Sql.{Cell, Row, text, int, boolean, time, null}
use temp_task.Storage.Sql.Semantics.{NotOlder, cell_at, IsNewestFirst, IsOrdered}
use temp_task.Storage.Sql.Sample.{time_in, time_at, place, newest_first, in_order}

keep_if_hit :
    (p : Row → Bool) (x : Row) (rows : List Row)
    → p x ≡ true
    → keep_if p (x ∷ rows) ≡ x ∷ keep_if p rows
keep_if_hit p x rows h = ground arith

keep_if_miss :
    (p : Row → Bool) (x : Row) (rows : List Row)
    → p x ≡ false
    → keep_if p (x ∷ rows) ≡ keep_if p rows
keep_if_miss p x rows h = ground arith

kept_sound :
    (p : Row → Bool) (r : Row) (rows : List Row)
    → Memᴰ r (keep_if p rows)
    → Memᴰ r rows × (p r ≡ true)
kept_sound p r [] h = elim h [ ]
kept_sound p r (x ∷ rows) h = elim (Bool-cases (p x)) [
  | inl hit ↦ elim (Memᴰ.cases_cons (subst (Memᴰ r) (keep_if_hit p x rows hit) h)) [
    | inl e ↦ (Memᴰ.head e, ap p e ∙ hit)
    | inr m ↦ let (stored, met) = kept_sound p r rows m in (Memᴰ.tail stored, met)
  ]
  | inr miss ↦
      let (stored, met) = kept_sound p r rows (subst (Memᴰ r) (keep_if_miss p x rows miss) h) in
      (Memᴰ.tail stored, met)
]

kept_complete :
    (p : Row → Bool) (r : Row) (rows : List Row)
    → Memᴰ r rows
    → p r ≡ true
    → Memᴰ r (keep_if p rows)
kept_complete p r [] m met = elim m [ ]
kept_complete p r (x ∷ rows) (Memᴰ.head e) met =
    subst (Memᴰ r) (sym (keep_if_hit p x rows (ap p (sym e) ∙ met))) (Memᴰ.head e)
kept_complete p r (x ∷ rows) (Memᴰ.tail m) met = elim (Bool-cases (p x)) [
  | inl hit ↦
      subst (Memᴰ r) (sym (keep_if_hit p x rows hit)) (Memᴰ.tail (kept_complete p r rows m met))
  | inr miss ↦ subst (Memᴰ r) (sym (keep_if_miss p x rows miss)) (kept_complete p r rows m met)
]

module _ (column : Str) (r : Row) where
  place_stop :
      (x : Row) (rows : List Row)
      → leb_ℤ (time_at column x) (time_at column r) ≡ true
      → place column r (x ∷ rows) ≡ r ∷ x ∷ rows
  unfolding place
  place_stop x rows h = rw h

  place_go :
      (x : Row) (rows : List Row)
      → leb_ℤ (time_at column x) (time_at column r) ≡ false
      → place column r (x ∷ rows) ≡ x ∷ place column r rows
  unfolding place
  place_go x rows h = rw h

  place_mem : (y : Row) (rows : List Row) → Memᴰ y (place column r rows) ↔ Memᴰ y (r ∷ rows)
  unfolding place
  place_mem y [] = (λ m. m, λ m. m)
  place_mem y (x ∷ rows) = elim (Bool-cases (leb_ℤ (time_at column x) (time_at column r))) [
    | inl stop ↦
        (subst (Memᴰ y) (place_stop x rows stop), subst (Memᴰ y) (sym (place_stop x rows stop)))
    | inr go ↦ (
      λ m. elim (Memᴰ.cases_cons (subst (Memᴰ y) (place_go x rows go) m)) [
        | inl e ↦ Memᴰ.tail (Memᴰ.head e)
        | inr m' ↦ elim (Memᴰ.cases_cons ((place_mem y rows).0 m')) [
          | inl e ↦ Memᴰ.head e
          | inr m'' ↦ Memᴰ.tail (Memᴰ.tail m'')
        ]
      ],
      λ m. subst (Memᴰ y) (sym (place_go x rows go)) (elim (Memᴰ.cases_cons m) [
        | inl e ↦ Memᴰ.tail ((place_mem y rows).1 (Memᴰ.head e))
        | inr m' ↦ elim (Memᴰ.cases_cons m') [
          | inl e ↦ Memᴰ.head e
          | inr m'' ↦ Memᴰ.tail ((place_mem y rows).1 (Memᴰ.tail m''))
        ]
      ]),
    )
  ]

newest_first_mem :
    (column : Str) (y : Row) (rows : List Row) → Memᴰ y (newest_first column rows) ↔ Memᴰ y rows
unfolding newest_first
newest_first_mem column y [] = (λ m. m, λ m. m)
newest_first_mem column y (r ∷ rows) = (
  λ m. elim (Memᴰ.cases_cons ((place_mem column r y (newest_first column rows)).0 m)) [
    | inl e ↦ Memᴰ.head e
    | inr m' ↦ Memᴰ.tail ((newest_first_mem column y rows).0 m')
  ],
  λ m. (place_mem column r y (newest_first column rows)).1 (elim (Memᴰ.cases_cons m) [
    | inl e ↦ Memᴰ.head e
    | inr m' ↦ Memᴰ.tail ((newest_first_mem column y rows).1 m')
  ]),
)

in_order_mem : (o : Option Str) (y : Row) (rows : List Row) → Memᴰ y (in_order o rows) ↔ Memᴰ y rows
in_order_mem none y rows = (λ m. m, λ m. m)
in_order_mem (some column) y rows = newest_first_mem column y rows

-- The rows that are listed are those that meet the conditions.
pub listed_mem :
    (o : Option Str) (p : Row → Bool) (r : Row) (rows : List Row)
    → Memᴰ r (in_order o (keep_if p rows)) ↔ (Memᴰ r rows × (p r ≡ true))
listed_mem o p r rows = (
  λ m. kept_sound p r rows ((in_order_mem o r (keep_if p rows)).0 m),
  λ (m, met). (in_order_mem o r (keep_if p rows)).1 (kept_complete p r rows m met),
)

NotOlder-cell : (a b : Cell) → leb_ℤ (time_in b) (time_in a) ≡ true → NotOlder a b
NotOlder-cell (time a) (time b) h = ground arith
NotOlder-cell (time a) (text s) h = tt
NotOlder-cell (time a) (int z) h = tt
NotOlder-cell (time a) (boolean b) h = tt
NotOlder-cell (time a) null h = tt
NotOlder-cell (text s) b h = tt
NotOlder-cell (int z) b h = tt
NotOlder-cell (boolean x) b h = tt
NotOlder-cell null b h = tt

leb_ℤ_swap : (a b : ℤ) → leb_ℤ a b ≡ false → leb_ℤ b a ≡ true
leb_ℤ_swap a b h = ground arith

module _ (column : Str) (r : Row) where
  older_of_go :
      (x : Row)
      → leb_ℤ (time_at column x) (time_at column r) ≡ false
      → NotOlder (cell_at column x) (cell_at column r)
  older_of_go x go =
      NotOlder-cell (cell_at column x) (cell_at column r)
        (leb_ℤ_swap (time_at column x) (time_at column r) go)

  place-IsNewestFirst :
      (rows : List Row) → IsNewestFirst column rows → IsNewestFirst column (place column r rows)
  unfolding place
  place-IsNewestFirst [] h = tt
  place-IsNewestFirst (x ∷ []) h = elim (Bool-cases (leb_ℤ (time_at column x) (time_at column r))) [
    | inl stop ↦
        subst (IsNewestFirst column) (sym (place_stop column r x [] stop))
          (NotOlder-cell (cell_at column r) (cell_at column x) stop, tt)
    | inr go ↦ subst (IsNewestFirst column) (sym (place_go column r x [] go)) (older_of_go x go, tt)
  ]
  place-IsNewestFirst (x ∷ y ∷ rows) h =
      let rest = place-IsNewestFirst (y ∷ rows) h.1 in
      elim (Bool-cases (leb_ℤ (time_at column x) (time_at column r))) [
        | inl stop ↦
            subst (IsNewestFirst column) (sym (place_stop column r x (y ∷ rows) stop))
              (NotOlder-cell (cell_at column r) (cell_at column x) stop, h)
        | inr go ↦
            subst (IsNewestFirst column) (sym (place_go column r x (y ∷ rows) go))
              (elim (Bool-cases (leb_ℤ (time_at column y) (time_at column r))) [
                | inl stop ↦
                    subst (λ t. IsNewestFirst column (x ∷ t))
                      (sym (place_stop column r y rows stop))
                      (
                        older_of_go x go,
                        subst (IsNewestFirst column) (place_stop column r y rows stop) rest,
                      )
                | inr go' ↦
                    subst (λ t. IsNewestFirst column (x ∷ t)) (sym (place_go column r y rows go'))
                      (h.0, subst (IsNewestFirst column) (place_go column r y rows go') rest)
              ])
      ]

newest_first-IsNewestFirst :
    (column : Str) (rows : List Row) → IsNewestFirst column (newest_first column rows)
unfolding newest_first
newest_first-IsNewestFirst column [] = tt
newest_first-IsNewestFirst column (r ∷ rows) =
    place-IsNewestFirst column r (newest_first column rows) (newest_first-IsNewestFirst column rows)

pub in_order-IsOrdered : (o : Option Str) (rows : List Row) → IsOrdered o (in_order o rows)
in_order-IsOrdered none rows = tt
in_order-IsOrdered (some column) rows = newest_first-IsNewestFirst column rows
