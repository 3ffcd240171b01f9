-- ===== src/Storage/Postgres/Searches.antt =====
-- The searches by mask of PostgresStorage.
use mathlib.Core.List.{Memᴰ}
use mathlib.Core.Path.{subst, ap₂}
use temp_task.Prelude.{
  bind-ok, ◌≤◌, ◌<◌, ◌≡◌, sym, ap, ◌∙◌, true, false, ◌&&◌, List, [], ◌∷◌, some, arith, Str, str,
  take, length, ok, ◌>>=◌,
}
use temp_task.Models.{User}
use temp_task.Storage.Sql.{Cell, Row, Cluster, Condition, text, boolean, slave, select}
use temp_task.Storage.Sql.Patterns.{IsPlain}
use temp_task.Storage.Sql.Semantics.{
  meets_all, project, cells, cell_at, is_false_cell, like_cells, read_all, HasPart,
}
use temp_task.Storage.Sql.Laws.{ClusterLaws, ReadingLaws}
use temp_task.Storage.Postgres.{
  make_like_pattern, search_users_by_login, search_users_by_first_name_last_name,
}
use temp_task.Storage.Postgres.Statements.{
  user_columns, users_where, select_users_by_login, select_users_by_names,
}
use temp_task.Storage.Postgres.Masks.{make_like_pattern_iff}
use temp_task.Storage.Postgres.Users.{IsRowOf, columns_of_user}
use temp_task.Storage.Postgres.Results.{
  length-read_all, read_all_sound, read_all_complete, mem_map_sound, mem_map, mem_take,
  length-map-take, take_all,
}

-- The answer to a query on users with a limit of 100: whom it lists, how many, and when it is whole.
module _ (c : Cluster) (sql : ClusterLaws c) (reading : ReadingLaws c) (conditions : List Condition)
    (args : List Cell) (db : c.Db) (users : List User) where
  abbrev Asked : Type 0
  Asked =
      ((c.execute slave (select (users_where conditions (some 100))) args db).0 >>= c.users_of)
      ≡ ok users

  listed_sound :
      (u : User)
      → Asked
      → Memᴰ u users
      → (row : Row) × Memᴰ row (sql.rows_of slave db (str "users"))
        × (meets_all sql.ilike_test args conditions row ≡ true)
        × IsRowOf u row
  listed_sound u h m =
      let (rows, run, read) = bind-ok _ c.users_of users h in
      let answers = sql.select-answers slave (users_where conditions (some 100)) args db rows run in
      let (r, in_rows, is_user) =
        read_all_sound c.user_of rows users u (sym (reading.users_of-rows rows) ∙ read) m in
      let (x, in_listed, r_eq) =
        mem_map_sound (project user_columns) (take 100 answers.listed) r
          (subst (Memᴰ r) answers.cut in_rows) in
      let (stored, met) = (answers.chosen x).0 (mem_take 100 answers.listed x in_listed) in
      (x, stored, met, ap (λ t. take 8 (cells t)) (sym r_eq) ∙ reading.user_of-cells r u is_user)

  listed_bound : Asked → length users ≤ 100
  listed_bound h =
      let (rows, run, read) = bind-ok _ c.users_of users h in
      let answers = sql.select-answers slave (users_where conditions (some 100)) args db rows run in
      omega (
        arith,
        length-read_all c.user_of rows users (sym (reading.users_of-rows rows) ∙ read),
        ap length answers.cut,
        length-map-take (project user_columns) 100 answers.listed,
      )

  -- Fewer than 100 users are all that the replica has.
  listed_complete :
      (row : Row)
      → Asked
      → length users < 100
      → Memᴰ row (sql.rows_of slave db (str "users"))
      → meets_all sql.ilike_test args conditions row ≡ true
      → (u : User) × Memᴰ u users × IsRowOf u row
  listed_complete row h few stored met =
      let (rows, run, read) = bind-ok _ c.users_of users h in
      let answers = sql.select-answers slave (users_where conditions (some 100)) args db rows run in
      let all_read : read_all c.user_of rows ≡ ok users = sym (reading.users_of-rows rows) ∙ read in
      let whole : take 100 answers.listed ≡ answers.listed =
        take_all (project user_columns) 100 answers.listed
          (omega (arith, length-read_all c.user_of rows users all_read, ap length answers.cut)) in
      let in_listed = subst (Memᴰ row) (sym whole) ((answers.chosen row).1 (stored, met)) in
      let in_rows =
        subst (Memᴰ (project user_columns row)) (sym answers.cut)
          (mem_map (project user_columns) (take 100 answers.listed) row in_listed) in
      let (u, in_users, is_user) =
        read_all_complete c.user_of rows users (project user_columns row) all_read in_rows in
      (u, in_users, reading.user_of-cells (project user_columns row) u is_user)

module _ (c : Cluster) (sql : ClusterLaws c) (reading : ReadingLaws c) where
  -- What the conditions of the search by login say of the row of a user.
  login_matches :
      (pattern : Str) (u : User) (row : Row)
      → IsRowOf u row
      → meets_all sql.ilike_test (text pattern ∷ []) select_users_by_login.conditions row
        ≡ (sql.ilike_test u.login pattern && (is_false_cell (boolean u.is_deleted) && true))
  login_matches pattern u row is_row =
      let (l, f, n, d) = columns_of_user u row is_row in
      ap₂ (λ a b. like_cells sql.ilike_test a (text pattern) && (is_false_cell b && true)) l d

  -- A search by login gives at most 100 users, each of them one that the replica has, whose login has the
  -- mask in it but for case, and who is not deleted. This is for a mask without the special characters of a pattern.
  pub search_users_by_login_sound :
      (mask : Str) (db : c.Db) (users : List User) (u : User)
      → IsPlain mask
      → search_users_by_login c mask db ≡ ok users
      → Memᴰ u users
      → (length users ≤ 100)
        × (row : Row) × Memᴰ row (sql.rows_of slave db (str "users"))
        × IsRowOf u row
        × (HasPart sql.same_but_case u.login mask × (u.is_deleted ≡ false))
  unfolding search_users_by_login
  search_users_by_login_sound mask db users u plain h m =
      let asked = text (make_like_pattern mask) ∷ [] in
      let (row, stored, met, is_row) =
        listed_sound c sql reading select_users_by_login.conditions asked db users u h m in
      let holds = sym (login_matches (make_like_pattern mask) u row is_row) ∙ met in
      (
        listed_bound c sql reading select_users_by_login.conditions asked db users h,
        row,
        stored,
        is_row,
        (
          (make_like_pattern_iff c sql u.login mask plain).0 (ground (arith, holds)),
          ground (arith, holds),
        ),
      )

  -- A search by login that gives fewer than 100 users gives every one that the replica has whose login has
  -- the mask in it but for case and who is not deleted, for a mask without the special characters of a pattern.
  pub search_users_by_login_complete :
      (mask : Str) (db : c.Db) (users : List User) (u : User) (row : Row)
      → IsPlain mask
      → search_users_by_login c mask db ≡ ok users
      → length users < 100
      → Memᴰ row (sql.rows_of slave db (str "users"))
      → IsRowOf u row
      → HasPart sql.same_but_case u.login mask
      → u.is_deleted ≡ false
      → (v : User) × Memᴰ v users × IsRowOf v row
  unfolding search_users_by_login
  search_users_by_login_complete mask db users u row plain h few stored is_row holds kept =
      let fits = (make_like_pattern_iff c sql u.login mask plain).1 holds in
      listed_complete c sql reading select_users_by_login.conditions
        (text (make_like_pattern mask) ∷ []) db users row h few stored
        (login_matches (make_like_pattern mask) u row is_row ∙ ground (arith, fits))

  names_match :
      (first last : Str) (u : User) (row : Row)
      → IsRowOf u row
      → meets_all sql.ilike_test (text first ∷ text last ∷ []) select_users_by_names.conditions row
        ≡ (sql.ilike_test u.first_name first
            && (sql.ilike_test u.last_name last && (is_false_cell (boolean u.is_deleted) && true)))
  names_match first last u row is_row =
      let (l, f, n, d) = columns_of_user u row is_row in
      let fits = λ (a b : Cell).
        like_cells sql.ilike_test a (text first)
        && (like_cells sql.ilike_test b (text last)
            && (is_false_cell (cell_at (str "is_deleted") row) && true)) in
      ap₂ fits f n
      ∙ ap
          (λ b.
            sql.ilike_test u.first_name first
            && (sql.ilike_test u.last_name last && (is_false_cell b && true)))
          d

  -- A search by names gives at most 100 users, each of them one that the replica has, both of whose names
  -- have their masks in them but for case, and who is not deleted. This is for masks without the special
  -- characters of a pattern.
  pub search_users_by_names_sound :
      (first last : Str) (db : c.Db) (users : List User) (u : User)
      → IsPlain first
      → IsPlain last
      → search_users_by_first_name_last_name c first last db ≡ ok users
      → Memᴰ u users
      → (length users ≤ 100)
        × (row : Row) × Memᴰ row (sql.rows_of slave db (str "users"))
        × IsRowOf u row
        × (HasPart sql.same_but_case u.first_name first
            × HasPart sql.same_but_case u.last_name last
            × (u.is_deleted ≡ false))
  unfolding search_users_by_first_name_last_name
  search_users_by_names_sound first last db users u plain_first plain_last h m =
      let asked = text (make_like_pattern first) ∷ text (make_like_pattern last) ∷ [] in
      let (row, stored, met, is_row) =
        listed_sound c sql reading select_users_by_names.conditions asked db users u h m in
      let holds =
        sym (names_match (make_like_pattern first) (make_like_pattern last) u row is_row) ∙ met in
      (
        listed_bound c sql reading select_users_by_names.conditions asked db users h,
        row,
        stored,
        is_row,
        (
          (make_like_pattern_iff c sql u.first_name first plain_first).0 (ground (arith, holds)),
          (make_like_pattern_iff c sql u.last_name last plain_last).0 (ground (arith, holds)),
          ground (arith, holds),
        ),
      )
