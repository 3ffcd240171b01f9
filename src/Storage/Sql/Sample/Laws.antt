-- ===== src/Storage/Sql/Sample/Laws.antt =====
-- The sample cluster meets the laws of a cluster.
use mathlib.Core.List.{Memᴰ}
use mathlib.Core.Path.{subst}
use temp_task.Prelude.{
  str_eq, str_eq_iff, ◌≡◌, refl, sym, ap, ◌∙◌, inl, inr, Bool, true, false, ◌&&◌, List, [], ◌∷◌,
  map, Option, none, some, arith, ◌==◌, ==_refl, ℤ, pos, ◌+ℤ◌, is_int32, IsInt32, All, Str, Str_eq,
  str, find, assign, find-assign, keep_if, ok, throw, Exception, std_exception, Bool-cases,
}
use temp_task.Storage.Sql.Patterns.{like}
use temp_task.Storage.Postgres.Masks.{like-all, like_iff}
use temp_task.Storage.Sql.{Cell, Row, HostType, Select, Insert, int, master, select, insert}
use temp_task.Storage.Sql.Semantics.{Answers, HasValues, cell_at, project, meets_all, up_to}
use temp_task.Storage.Sql.Laws.{ClusterLaws, InRange}
use temp_task.Storage.Sql.Sample.{
  Tables, rows_at, in_order, all_in_range, all_distinct, row_of, stored_row, execute,
  sample_cluster,
}
use temp_task.Storage.Sql.Sample.Values.{
  cell_at-cons_same, row_values, all_in_range-InRange, is_int32-IsInt32, ok-ne-throw,
}
use temp_task.Storage.Sql.Sample.Order.{listed_mem, in_order-IsOrdered}

abbrev accepts : Insert → List Cell → Tables → Bool
accepts i args db =
    all_in_range args && (is_int32 db.next_id && all_distinct (str "id" ∷ i.columns))

abbrev after_insert : Insert → List Cell → Tables → Tables
after_insert i args db = record {
  rows = assign i.table (stored_row i args db.next_id ∷ rows_at db i.table) db.rows;
  next_id = db.next_id +ℤ pos 1;
}

insert_accepted :
    (i : Insert) (args : List Cell) (db : Tables)
    → accepts i args db ≡ true
    → execute master (insert i) args db
      ≡ (ok (project i.returning (stored_row i args db.next_id) ∷ []), after_insert i args db)
unfolding execute
insert_accepted i args db h = rw h

insert_refused :
    (i : Insert) (args : List Cell) (db : Tables)
    → accepts i args db ≡ false
    → (e : Exception) × (execute master (insert i) args db ≡ (throw e, db))
unfolding execute
insert_refused i args db h = (std_exception (str "no result"), rw h)

rows_at_same :
    (i : Insert) (args : List Cell) (db : Tables)
    → rows_at (after_insert i args db) i.table ≡ stored_row i args db.next_id ∷ rows_at db i.table
rows_at_same i args db =
    let rows = stored_row i args db.next_id ∷ rows_at db i.table in
    let found : find i.table (assign i.table rows db.rows) ≡ some rows =
      ground (arith, find-assign i.table i.table rows db.rows, ==_refl i.table) in
    ap (λ (o : Option (List Row)). elim o [ none ↦ [] | some w ↦ w ]) found

rows_at_other :
    (i : Insert) (args : List Cell) (db : Tables) (table : Str)
    → (i.table == table) ≡ false
    → rows_at (after_insert i args db) table ≡ rows_at db table
rows_at_other i args db table h =
    let rows = stored_row i args db.next_id ∷ rows_at db i.table in
    let found : find table (assign i.table rows db.rows) ≡ find table db.rows =
      ground (arith, find-assign i.table table rows db.rows) in
    ap (λ (o : Option (List Row)). elim o [ none ↦ [] | some w ↦ w ]) found

pub select-Answers :
    (h : HostType) (q : Select) (args : List Cell) (db : Tables) (rows : List Row)
    → (execute h (select q) args db).0 ≡ ok rows
    → Answers like q args (rows_at db q.table) rows
unfolding execute
select-Answers h q args db rows run = record {
  listed =
      in_order q.newest_first (keep_if (meets_all like args q.conditions) (rows_at db q.table));
  chosen = λ r. listed_mem q.newest_first (meets_all like args q.conditions) r (rows_at db q.table);
  ordered =
      in_order-IsOrdered q.newest_first
        (keep_if (meets_all like args q.conditions) (rows_at db q.table));
  cut = cc;
}

pub insert_stores :
    (i : Insert) (args : List Cell) (db : Tables) (rows : List Row)
    → (execute master (insert i) args db).0 ≡ ok rows
    → (row : Row) × (id : ℤ) × Memᴰ row (rows_at (execute master (insert i) args db).1 i.table)
      × (cell_at (str "id") row ≡ int id)
      × IsInt32 id
      × All InRange args
      × HasValues (λ t. t) args i.columns i.values row
      × (rows ≡ project i.returning row ∷ [])
insert_stores i args db rows run = elim (Bool-cases (accepts i args db)) [
  | inr refused ↦
      let (e, failed) = insert_refused i args db refused in
      absurd (ok-ne-throw rows e (sym run ∙ ap (λ r. r.0) failed))
  | inl accepted ↦
      let (numbers, id, distinct) : (all_in_range args ≡ true)
          × (is_int32 db.next_id ≡ true)
          × (all_distinct (str "id" ∷ i.columns) ≡ true) =
        ground arith in
      let done = insert_accepted i args db accepted in
      (
        stored_row i args db.next_id,
        db.next_id,
        subst (Memᴰ (stored_row i args db.next_id))
            (sym (ap (λ r. rows_at r.1 i.table) done ∙ rows_at_same i args db)) (Memᴰ.head refl),
        cell_at-cons_same (str "id") (int db.next_id) (row_of args i.columns i.values),
        is_int32-IsInt32 db.next_id id,
        all_in_range-InRange args numbers,
        row_values i args db.next_id distinct,
        cc (sym run ∙ ap (λ r. r.0) done),
      )
]

pub insert_throw :
    (i : Insert) (args more : List Cell) (db : Tables) (e : Exception) (h : HostType) (q : Select)
    → (execute master (insert i) args db).0 ≡ throw e
    → (execute h (select q) more (execute master (insert i) args db).1).0
      ≡ (execute h (select q) more db).0
insert_throw i args more db e h q run = elim (Bool-cases (accepts i args db)) [
  | inr refused ↦
      let (e', failed) = insert_refused i args db refused in
      ap (λ r. (execute h (select q) more r.1).0) failed
  | inl accepted ↦
      absurd (ok-ne-throw _ e (sym (ap (λ r. r.0) (insert_accepted i args db accepted)) ∙ run))
]

select_same :
    (h : HostType) (q : Select) (more : List Cell) (db db' : Tables)
    → rows_at db' q.table ≡ rows_at db q.table
    → (execute h (select q) more db').0 ≡ (execute h (select q) more db).0
unfolding execute
select_same h q more db db' e =
    ap
      (λ stored. ok (
        map (project q.columns) (
          up_to q.limit
            (in_order q.newest_first (keep_if (meets_all like more q.conditions) stored)))))
      e

pub insert_other :
    (i : Insert) (args more : List Cell) (db : Tables) (h : HostType) (q : Select)
    → (i.table == q.table) ≡ false
    → (execute h (select q) more (execute master (insert i) args db).1).0
      ≡ (execute h (select q) more db).0
insert_other i args more db h q differs = elim (Bool-cases (accepts i args db)) [
  | inr refused ↦
      let (e', failed) = insert_refused i args db refused in
      ap (λ r. (execute h (select q) more r.1).0) failed
  | inl accepted ↦
      ap (λ r. (execute h (select q) more r.1).0) (insert_accepted i args db accepted)
      ∙ select_same h q more db (after_insert i args db) (rows_at_other i args db q.table differs)
]

unfoldable pub sample_cluster_laws : ClusterLaws sample_cluster
sample_cluster_laws = record {
  rows_of = λ h db table. rows_at db table;
  ilike_test = like;
  same_but_case = str_eq;
  rounded = λ t. t;
  same_but_case-refl = λ s. (str_eq_iff s s).1 refl;
  ilike_test-percent = like-all;
  ilike_test-part = like_iff;
  select-answers = select-Answers;
  insert-stores = insert_stores;
}
