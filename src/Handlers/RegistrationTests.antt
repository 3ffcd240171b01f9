-- ===== src/Handlers/RegistrationTests.antt =====
-- A registration on PostgresStorage at the sample cluster.
use temp_task.Prelude.{
  ◌≡◌, ◌⊎◌, refl, [], ◌∷◌, pos, ◌+ℤ◌, Str_eq, str, find, assign, length, std_exception,
}
use temp_task.Prelude.Chunks.{body, read_body}
use temp_task.Json.Sample.{sample_json, members, text_of}
use temp_task.Storage.Sql.Sample.{sample_cluster, execute, rows_at}
use temp_task.Storage.Sql.Sample.Reading.{user_of}
use temp_task.Storage.Postgres.{optional_row, create_user, get_user_by_login}
use temp_task.Handlers.{Services, Request, World, thrown}
use temp_task.Handlers.Users.{register}
use temp_task.Handlers.OnPostgres.{postgres_storage}
use temp_task.Handlers.Registration.{IsRefused, Asked, register_ends}
use temp_task.Handlers.Sample.{sample_services, start, at_zero, request_of}

abbrev register_request : Request
register_request = request_of (
    sample_json.to_text (
      sample_json.object (
        (str "login", sample_json.of_string (str "ann"))
        ∷ (str "password", sample_json.of_string (str "pw"))
        ∷ (str "first_name", sample_json.of_string (str "Ann"))
        ∷ (str "last_name", sample_json.of_string (str "Lee"))
        ∷ (str "email", sample_json.of_string (str "a@b"))
        ∷ [])))

-- The handlers on PostgresStorage, with empty tables.
abbrev on_tables : Services
on_tables = record sample_services { storage = postgres_storage sample_cluster }

abbrev no_rows : World on_tables
no_rows = record {
  db = (record { rows = []; next_id = pos 8 }, λ n. pos 0);
  documents = start.documents;
  broker = start.broker;
  cache = start.cache;
  login_limiter = start.login_limiter;
  response = start.response;
}

-- The row is stored, and the registration throws all the same.
ann_throws :
    ((register on_tables register_request at_zero no_rows).0
      ≡ thrown (std_exception (str "no result")))
    × (length (rows_at (register on_tables register_request at_zero no_rows).1.db.0 (str "users"))
        ≡ 1)
unfolding register members find read_body body text_of create_user optional_row execute
    get_user_by_login user_of assign ◌+ℤ◌
ann_throws = (refl, refl)

register_ends_example :
    let end = register on_tables register_request at_zero no_rows in
    IsRefused on_tables register_request at_zero no_rows end
    ⊎ Asked on_tables register_request at_zero no_rows end
register_ends_example = register_ends on_tables register_request at_zero no_rows
