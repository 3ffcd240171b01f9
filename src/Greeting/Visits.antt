-- ===== src/Greeting/Visits.antt =====
-- Whom the handler of src/hello_postgres.cpp greets as known.
use mathlib.Core.Path.{subst}
use temp_task.Prelude.{
  ◌≡◌, refl, sym, ap, ◌∙◌, inl, inr, false, List, [], ◌∷◌, ◌++◌, arith, Bool-cases, Result-cases,
  is_empty, ℤ, pos, ◌≤ℤ◌, ◌+ℤ◌, +ℤ_parts, Option, none, some, Str, str, str_eq, str_eq_iff, ok,
  bind-ok, ok_injective,
}
use temp_task.Greeting.{
  first_time, known, say_hello_to, Executor, UpsertLaws, upserted, hello_upsert, known_above,
  hello_postgres,
}

known_above-first : known_above (pos 1) (pos 1) ≡ first_time
known_above-first = refl

known_above-later : (m : ℤ) → pos 1 ≤ℤ m → known_above (pos 1) (m +ℤ pos 1) ≡ known
known_above-later m h = ground (arith, +ℤ_parts m (pos 1))

say_hello_to-first :
    (name : Str)
    → is_empty name ≡ false
    → say_hello_to name first_time ≡ str "Hello, " ++ (name ++ str "!\n")
unfolding say_hello_to
say_hello_to-first [] h = absurd (cc)
say_hello_to-first (c ∷ name) h = refl

say_hello_to-known :
    (name : Str)
    → is_empty name ≡ false
    → say_hello_to name known ≡ str "Hi again, " ++ (name ++ str "!\n")
unfolding say_hello_to
say_hello_to-known [] h = absurd (cc)
say_hello_to-known (c ∷ name) h = refl

module _ (pg : Executor) (laws : UpsertLaws pg) where
  -- The number in the row of a name in hello_schema.users.
  abbrev pub count_of : pg.Db → Str → Option ℤ
  count_of = laws.number_at (str "hello_schema.users") (str "name") (str "count")

  -- The table after visits, whatever they were answered.
  unfoldable pub after : List Str → pg.Db → pg.Db
  after [] db = db
  after (name ∷ names) db = after names (hello_postgres pg name db).1

  -- The name has a row, and a number of at least one in it.
  abbrev IsCounted : Str → pg.Db → Type 0
  IsCounted name db = (m : ℤ) × (count_of db name ≡ some m) × (pos 1 ≤ℤ m)

  own-IsCounted :
      (name : Str) (db : pg.Db)
      → IsCounted name db
      → IsCounted name (pg.upsert hello_upsert name db).1
  unfolding hello_upsert
  own-IsCounted name db (m, at, positive) = elim (Result-cases (pg.upsert hello_upsert name db).0) [
    | inl (n, ran) ↦
        let (is, stored) = laws.upsert-ok hello_upsert name db n ran in
        let e : n ≡ m +ℤ pos 1 = is ∙ ap (upserted hello_upsert) at in
        (n, stored, subst (λ z. pos 1 ≤ℤ z) (sym e) (omega (arith, +ℤ_parts m (pos 1))))
    | inr (e, failed) ↦ elim (laws.upsert-throw hello_upsert name db e failed) [
      | inl same ↦ (m, same ∙ at, positive)
      | inr done ↦ (
        m +ℤ pos 1,
        done ∙ ap (λ o. some (upserted hello_upsert o)) at,
        omega (arith, +ℤ_parts m (pos 1)),
      )
    ]
  ]

  upsert-IsCounted :
      (name other : Str) (db : pg.Db)
      → IsCounted name db
      → IsCounted name (pg.upsert hello_upsert other db).1
  unfolding hello_upsert
  upsert-IsCounted name other db h = elim (Bool-cases (str_eq name other)) [
    | inr apart ↦
        (h.0, laws.upsert-other hello_upsert other name db (λ e. differ e apart) ∙ h.1, h.2)
    | inl same ↦
        subst (λ n. IsCounted name (pg.upsert hello_upsert n db).1) ((str_eq_iff name other).0 same)
          (own-IsCounted name db h)
  ]
    where
      differ : name ≡ other → str_eq name other ≡ false → ⊥
      differ e h = ground (arith, str_eq_iff name other)

  hello-IsCounted :
      (name other : Str) (db : pg.Db)
      → IsCounted name db
      → IsCounted name (hello_postgres pg other db).1
  unfolding hello_postgres
  hello-IsCounted name [] db h = h
  hello-IsCounted name (c ∷ other) db h = upsert-IsCounted name (c ∷ other) db h

  after-IsCounted :
      (names : List Str) (name : Str) (db : pg.Db)
      → IsCounted name db
      → IsCounted name (after names db)
  unfolding after
  after-IsCounted [] name db h = h
  after-IsCounted (other ∷ names) name db h =
      after-IsCounted names name (hello_postgres pg other db).1 (hello-IsCounted name other db h)

  -- An answer, by the number that is in the row before it.
  answer-eq :
      (name : Str) (db : pg.Db) (answer : Str)
      → is_empty name ≡ false
      → (hello_postgres pg name db).0 ≡ ok answer
      → let n = upserted hello_upsert (count_of db name) in
        (answer ≡ say_hello_to name (known_above (pos 1) n))
        × (count_of (hello_postgres pg name db).1 name ≡ some n)
  unfolding hello_postgres hello_upsert
  answer-eq [] db answer named h = absurd (cc)
  answer-eq (c ∷ name) db answer named h =
      let (n, ran, said) = bind-ok (pg.upsert hello_upsert (c ∷ name) db).0 _ answer h in
      let (is, stored) = laws.upsert-ok hello_upsert (c ∷ name) db n ran in
      (
        sym (ok_injective said) ∙ ap (λ n. say_hello_to (c ∷ name) (known_above (pos 1) n)) is,
        stored ∙ ap some is,
      )

  -- Whoever gives a name that has no row in the table yet is greeted as new, and on any later visit that is answered as
  -- known, whoever else has come in between, answered or not.
  pub greeted_again :
      (name : Str) (db : pg.Db) (between : List Str) (first later : Str)
      → is_empty name ≡ false
      → count_of db name ≡ none
      → (hello_postgres pg name db).0 ≡ ok first
      → (hello_postgres pg name (after between (hello_postgres pg name db).1)).0 ≡ ok later
      → (first ≡ str "Hello, " ++ (name ++ str "!\n"))
        × (later ≡ str "Hi again, " ++ (name ++ str "!\n"))
  unfolding hello_upsert
  greeted_again name db between first later named new once again =
      let (is_first, counted) = answer-eq name db first named once in
      let visited = after between (hello_postgres pg name db).1 in
      let (is_later, more) = answer-eq name visited later named again in
      let one : IsCounted name (hello_postgres pg name db).1 =
        (pos 1, counted ∙ ap (λ o. some (upserted hello_upsert o)) new, omega arith) in
      let (m, at, positive) = after-IsCounted between name (hello_postgres pg name db).1 one in
      (
        is_first
            ∙ ap (λ o. say_hello_to name (known_above (pos 1) (upserted hello_upsert o))) new
            ∙ ap (say_hello_to name) known_above-first
            ∙ say_hello_to-first name named,
        is_later
            ∙ ap (λ o. say_hello_to name (known_above (pos 1) (upserted hello_upsert o))) at
            ∙ ap (say_hello_to name) (known_above-later m positive)
            ∙ say_hello_to-known name named,
      )
