-- ===== src/Storage/Postgres/Tests/Projects.antt =====
-- The list of projects of PostgresStorage at the sample cluster, with two projects in it.
use mathlib.Core.List.{Memᴰ}
use temp_task.Prelude.{◌≤◌, ◌≡◌, refl, [], ◌∷◌, length, pos, All, str, find, ok}
use temp_task.Models.{Project}
use temp_task.Storage.Sql.{Row, text, int, time, slave}
use temp_task.Storage.Sql.Sample.{Tables, sample_cluster, execute, place, newest_first}
use temp_task.Storage.Sql.Sample.Reading.{project_of, all_projects}
use temp_task.Storage.Sql.Sample.Laws.{sample_cluster_laws}
use temp_task.Storage.Sql.Sample.ReadingLaws.{sample_reading_laws}
use temp_task.Storage.Postgres.{get_all_projects}
use temp_task.Storage.Postgres.Projects.{NewestFirst, IsProjectRow, get_all_projects_sound}

abbrev site : Project
site = record {
  id = pos 1;
  name = str "Site";
  description = str "new";
  key = str "SITE";
  owner_id = pos 7;
  created_at = pos 9;
}

abbrev shop : Project
shop = record {
  id = pos 2;
  name = str "Shop";
  description = str "";
  key = str "SHOP";
  owner_id = pos 7;
  created_at = pos 12;
}

abbrev row_of_project : Project → Row
row_of_project p =
    (str "id", int p.id)
    ∷ (str "name", text p.name)
    ∷ (str "description", text p.description)
    ∷ (str "key", text p.key)
    ∷ (str "owner_id", int p.owner_id)
    ∷ (str "created_at", time p.created_at)
    ∷ []

abbrev two_projects : Tables
two_projects = record {
  rows = (str "projects", row_of_project site ∷ row_of_project shop ∷ []) ∷ [];
  next_id = pos 3;
}

both_listed : get_all_projects sample_cluster two_projects ≡ ok (shop ∷ site ∷ [])
unfolding get_all_projects execute all_projects project_of find newest_first place
both_listed = refl

get_all_projects_sound_example :
    (length (shop ∷ site ∷ []) ≤ 100)
    × NewestFirst (shop ∷ site ∷ [])
    × All
        (λ p.
          (row : Row) × Memᴰ row (sample_cluster_laws.rows_of slave two_projects (str "projects"))
          × IsProjectRow p row)
        (shop ∷ site ∷ [])
get_all_projects_sound_example =
    get_all_projects_sound sample_cluster sample_cluster_laws sample_reading_laws two_projects
      (shop ∷ site ∷ []) both_listed
