-- ===== src/Storage/Postgres/Projects.antt =====
-- The list of projects of PostgresStorage.
use mathlib.Core.List.{Memᴰ}
use mathlib.Core.Path.{subst}
use temp_task.Prelude.{
  ℕ, zero, suc, ◌≤◌, ◌≡◌, refl, sym, ap, ◌∙◌, List, [], ◌∷◌, map, arith, All, ◌≤ℤ◌, Str, str, take,
  length, ok, bind-ok,
}
use temp_task.Models.{Project}
use temp_task.Storage.Sql.{Row, Cluster, time, slave}
use temp_task.Storage.Sql.Semantics.{
  project, cells, cell_at, project_cells, read_all, NotOlder, IsNewestFirst,
}
use temp_task.Storage.Sql.Laws.{ClusterLaws, ReadingLaws}
use temp_task.Storage.Postgres.{get_all_projects}
use temp_task.Storage.Postgres.Statements.{project_columns, select_all_projects}
use temp_task.Storage.Postgres.Results.{
  read_cons, length-read_all, read_all_sound, mem_map_sound, mem_take, length-map-take,
}

-- No project is older than the one after it.
abbrev pub NewestFirst : List Project → Type 0
NewestFirst [] = Unit {0}
NewestFirst (p ∷ []) = Unit {0}
NewestFirst (p ∷ q ∷ ps) = (q.created_at ≤ℤ p.created_at) × NewestFirst (q ∷ ps)

-- A stored row is the row of a project.
abbrev pub IsProjectRow : Project → Row → Type 0
IsProjectRow p row = cells (project project_columns row) ≡ project_cells p

take-IsNewestFirst :
    (column : Str) (n : ℕ) (rows : List Row)
    → IsNewestFirst column rows
    → IsNewestFirst column (take n rows)
take-IsNewestFirst column zero rows h = tt
take-IsNewestFirst column (suc n) [] h = tt
take-IsNewestFirst column (suc zero) (r ∷ rows) h = tt
take-IsNewestFirst column (suc (suc n)) (r ∷ []) h = tt
take-IsNewestFirst column (suc (suc n)) (r ∷ r' ∷ rows) h =
    (h.0, take-IsNewestFirst column (suc n) (r' ∷ rows) h.1)

All-of_mem {ℓ κ} :
    {A : Type ℓ} (P : A → Type κ) (xs : List A) → ((a : A) → Memᴰ a xs → P a) → All P xs
All-of_mem P [] h = tt
All-of_mem P (x ∷ xs) h = (h x (Memᴰ.head refl), All-of_mem P xs (λ a m. h a (Memᴰ.tail m)))

created_at_cell :
    (p : Project) (row : Row)
    → IsProjectRow p row
    → cell_at (str "created_at") row ≡ time p.created_at
created_at_cell p row h = cc

module _ (c : Cluster) (sql : ClusterLaws c) (reading : ReadingLaws c) where
  read-NewestFirst :
      (listed : List Row) (projects : List Project)
      → read_all c.project_of (map (project project_columns) listed) ≡ ok projects
      → IsNewestFirst (str "created_at") listed
      → NewestFirst projects
  read-NewestFirst [] projects h sorted = let e : [] ≡ projects = cc h in subst NewestFirst e tt
  read-NewestFirst (r ∷ []) projects h sorted =
      let (a, rest, one, others, e) = read_cons c.project_of _ [] projects h in
      let none_left : [] ≡ rest = cc others in
      subst NewestFirst (sym e) (subst (λ t. NewestFirst (a ∷ t)) none_left tt)
  read-NewestFirst (r ∷ r' ∷ listed) projects h sorted =
      let later = map (project project_columns) listed in
      let (a, rest, one, others, e) =
        read_cons c.project_of (project project_columns r) (project project_columns r' ∷ later)
          projects h in
      let (b, rest', two, others', e') =
        read_cons c.project_of (project project_columns r') later rest others in
      let pair_ordered =
        subst (λ x. NotOlder x (cell_at (str "created_at") r'))
          (created_at_cell a r (reading.project_of-cells (project project_columns r) a one))
          sorted.0 in
      let ordered : b.created_at ≤ℤ a.created_at =
        subst (NotOlder (time a.created_at))
          (created_at_cell b r' (reading.project_of-cells (project project_columns r') b two))
          pair_ordered in
      subst NewestFirst (sym e) (
        subst (λ t. NewestFirst (a ∷ t)) (sym e')
          (ordered, subst NewestFirst e' (read-NewestFirst (r' ∷ listed) rest others sorted.1)))

  -- A list of projects has at most 100, the newest first, each of them one that the replica has.
  pub get_all_projects_sound :
      (db : c.Db) (projects : List Project)
      → get_all_projects c db ≡ ok projects
      → (length projects ≤ 100)
        × NewestFirst projects
        × All
            (λ p.
              (row : Row) × Memᴰ row (sql.rows_of slave db (str "projects")) × IsProjectRow p row)
            projects
  unfolding get_all_projects
  get_all_projects_sound db projects h =
      let (rows, run, read_rows) = bind-ok _ c.projects_of projects h in
      let answers = sql.select-answers slave select_all_projects [] db rows run in
      let read = sym (reading.projects_of-rows rows) ∙ read_rows in
      let cut = answers.cut in
      (
        omega (
          arith,
          length-read_all c.project_of rows projects read,
          ap length cut,
          length-map-take (project project_columns) 100 answers.listed,
        ),
        read-NewestFirst (take 100 answers.listed) projects
            (sym (ap (read_all c.project_of) cut) ∙ read)
            (take-IsNewestFirst (str "created_at") 100 answers.listed answers.ordered),
        All-of_mem _ projects (λ p m.
            let (r, in_rows, is_project) = read_all_sound c.project_of rows projects p read m in
            let (x, in_listed, r_eq) =
              mem_map_sound (project project_columns) (take 100 answers.listed) r
                (subst (Memᴰ r) cut in_rows) in
            (
              x,
              ((answers.chosen x).0 (mem_take 100 answers.listed x in_listed)).0,
              ap (λ t. take 6 (cells t)) (sym r_eq) ∙ reading.project_of-cells r p is_project,
            )),
      )
