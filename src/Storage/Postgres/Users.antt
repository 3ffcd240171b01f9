-- ===== src/Storage/Postgres/Users.antt =====
-- The users that PostgresStorage finds.
use mathlib.Core.List.{Memᴰ}
use mathlib.Core.Path.{ap₂, subst}
use temp_task.Prelude.{
  Bool, ◌≡◌, ◌≢◌, refl, sym, ap, ◌∙◌, Bool, true, false, ◌&&◌, List, [], ◌∷◌, map, none, some,
  arith, Str, str, str_eq, str_eq_iff, take, ok, ◌>>=◌, bind-ok,
}
use temp_task.Models.{User}
use temp_task.Storage.Sql.{Row, Cluster, text, boolean, slave}
use temp_task.Storage.Sql.Semantics.{
  meets_all, project, cells, cell_at, user_cells, is_false_cell, equal_cells,
}
use temp_task.Storage.Sql.Laws.{ClusterLaws, ReadingLaws}
use temp_task.Storage.Postgres.{optional_row, get_user_by_login}
use temp_task.Storage.Postgres.Statements.{user_columns, select_user_by_login}

-- A stored row is the row of a user.
abbrev pub IsRowOf : User → Row → Type 0
IsRowOf u row = cells (project user_columns row) ≡ user_cells u

one_listed :
    (f : Row → Row) (listed : List Row) (r : Row)
    → r ∷ [] ≡ map f listed
    → (x : Row) × (listed ≡ x ∷ []) × (r ≡ f x)
one_listed f [] r h = absurd (cc)
one_listed f (x ∷ []) r h = (x, refl, cc)
one_listed f (x ∷ y ∷ listed) r h = absurd (cc)

none_listed : (f : Row → Row) (listed : List Row) (r : Row) → Memᴰ r listed → [] ≢ map f listed
none_listed f [] r m h = elim m [ ]
none_listed f (x ∷ listed) r m h = cc

false_of_cell : (b : Bool) → is_false_cell (boolean b) ≡ true → b ≡ false
false_of_cell true h = cc
false_of_cell false h = refl

-- The columns of a user's row.
pub columns_of_user :
    (u : User) (row : Row)
    → IsRowOf u row
    → (cell_at (str "login") row ≡ text u.login)
      × (cell_at (str "first_name") row ≡ text u.first_name)
      × (cell_at (str "last_name") row ≡ text u.last_name)
      × (cell_at (str "is_deleted") row ≡ boolean u.is_deleted)
columns_of_user u row h = (cc, cc, cc, cc)

-- What the conditions on the login and on deletion say of a user.
login_met :
    (test : Str → Str → Bool) (u : User) (login : Str) (row : Row)
    → IsRowOf u row
    → meets_all test (text login ∷ []) select_user_by_login.conditions row ≡ true
    → (u.login ≡ login) × (u.is_deleted ≡ false)
login_met test u login row is_row met =
    let (l, f, n, d) = columns_of_user u row is_row in
    let named : (str_eq u.login login && (is_false_cell (boolean u.is_deleted) && true)) ≡ true =
      sym (ap₂ (λ a b. equal_cells a (text login) && (is_false_cell b && true)) l d) ∙ met in
    ground (arith, str_eq_iff u.login login)

module _ (c : Cluster) (sql : ClusterLaws c) (reading : ReadingLaws c) where
  found_row :
      (rows : List Row) (u : User)
      → optional_row c (λ rs. c.single_row rs >>= c.user_of) rows ≡ ok (some u)
      → (r : Row) × (rows ≡ r ∷ []) × (c.user_of r ≡ ok u)
  unfolding optional_row
  found_row [] u h = absurd (cc)
  found_row (r ∷ rows) u h =
      let (a, read, same) =
        bind-ok (c.single_row (r ∷ rows) >>= c.user_of) (λ b. ok (some b)) (some u) h in
      let (r', one, is_user) = bind-ok (c.single_row (r ∷ rows)) c.user_of a read in
      (r', reading.single-sound (r ∷ rows) r' one, is_user ∙ ap ok (cc same))

  no_rows :
      (rows : List Row)
      → optional_row c (λ rs. c.single_row rs >>= c.user_of) rows ≡ ok none
      → rows ≡ []
  unfolding optional_row
  no_rows [] h = refl
  no_rows (r ∷ rows) h =
      let (a, read, same) =
        bind-ok (c.single_row (r ∷ rows) >>= c.user_of) (λ b. ok (some b)) none h in
      absurd (cc same)

  -- A look-up by login gives a user of a row that the replica has: its login is the one asked for, and
  -- it is not deleted.
  pub get_user_by_login_sound :
      (login : Str) (db : c.Db) (u : User)
      → get_user_by_login c login db ≡ ok (some u)
      → (row : Row) × Memᴰ row (sql.rows_of slave db (str "users"))
        × IsRowOf u row
        × ((u.login ≡ login) × (u.is_deleted ≡ false))
  unfolding get_user_by_login
  get_user_by_login_sound login db u h =
      let (rows, run, rest) = bind-ok _ _ (some u) h in
      let (r, one, read) = found_row rows u rest in
      let answers = sql.select-answers slave select_user_by_login (text login ∷ []) db rows run in
      let (x, listed, r_eq) =
        one_listed (project user_columns) answers.listed r (sym one ∙ answers.cut) in
      let (stored, met) = (answers.chosen x).0 (subst (Memᴰ x) (sym listed) (Memᴰ.head refl)) in
      let is_row : IsRowOf u x =
        ap (λ t. take 8 (cells t)) (sym r_eq) ∙ reading.user_of-cells r u read in
      (x, stored, is_row, login_met sql.ilike_test u login x is_row met)

  -- Where a look-up by login finds nobody, the replica has no row with that login that is not deleted.
  pub get_user_by_login_complete :
      (login : Str) (db : c.Db) (u : User) (row : Row)
      → get_user_by_login c login db ≡ ok none
      → Memᴰ row (sql.rows_of slave db (str "users"))
      → IsRowOf u row
      → u.login ≡ login
      → u.is_deleted ≢ false
  unfolding get_user_by_login
  get_user_by_login_complete login db u row h stored is_row named deleted =
      let (rows, run, rest) = bind-ok _ _ none h in
      let answers = sql.select-answers slave select_user_by_login (text login ∷ []) db rows run in
      let (l, f, n, d) = columns_of_user u row is_row in
      let met : (str_eq u.login login && (is_false_cell (boolean u.is_deleted) && true)) ≡ true =
        ground (arith, str_eq_iff u.login login) in
      let listed =
        (answers.chosen row).1 (
          stored,
          ap₂ (λ a b. equal_cells a (text login) && (is_false_cell b && true)) l d ∙ met,
        ) in
      none_listed (project user_columns) answers.listed row listed
        (sym (no_rows rows rest) ∙ answers.cut)
