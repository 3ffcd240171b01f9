-- ===== src/Handlers.antt =====
-- src/handlers: what the HTTP handlers share. A handler is a function of the request, of what it reads
-- of the clocks and the random devices, and of the service's state; it returns a body, throws, or
-- does what the language leaves undefined (it dereferences an empty optional).
pub mod Users
pub mod Projects
pub mod CommentList
pub mod Invariants
pub mod Returned
pub mod ProjectCreation
pub mod TaskCreation
pub mod Registration
pub mod ProjectList
pub mod Service
pub mod Sparing
pub mod ProjectCache
pub mod CommentSparing
pub mod Histories
pub mod Memory
pub mod OnPostgres
pub mod OnMongo
pub mod Logins
pub mod CommentCache
pub mod CommentAnswers
pub mod CommentLaws
pub mod CommentFreshness
pub mod Races
pub mod Sample
mod Tests
mod CreationTests
mod RegistrationTests
mod OnMongoTests
pub mod Comments
use temp_task.Prelude.{
  ℕ, Bool, true, false, List, [], ◌∷◌, Option, none, some, ℤ, Str, Str_eq, str, Dict, assign,
  Result, ok, throw, Exception,
}
use temp_task.Models.{TimePoint, User, Project, Task, Comment, Reply}
use temp_task.Json.{JsonLib}
use temp_task.Auth.{JwtLib}
use temp_task.Cache.{Cache}
use temp_task.RateLimit.{SlidingWindowLimiter}
use temp_task.Event.Producer.{KafkaProducer, Surroundings}

-- The store of users, projects and tasks that the handlers are given (PostgresStorage; the in-memory
-- storage has the same methods).
pub record Storage : Type 1 where
  pub Db : Type 0
  pub create_user : User → Db → Result (Option User) × Db
  pub get_user_by_login : Str → Db → Result (Option User)
  pub search_users_by_login : Str → Db → Result (List User)
  pub search_users_by_first_name_last_name : Str → Str → Db → Result (List User)
  pub create_project : Project → Db → Result (Option Project) × Db
  pub get_project_by_id : ℤ → Db → Result (Option Project)
  pub get_all_projects : Db → Result (List Project)
  pub create_task : Task → Db → Result (Option Task) × Db

-- The methods of MongoStorage that the handlers call.
pub record CommentStore : Type 1 where
  pub Documents : Type 0
  pub insert_comment : Comment → Documents → Result (Unit {0}) × Documents
  pub get_comments_by_task : ℤ → Documents → Result (List Comment)
  pub get_task_id_by_comment_id : Str → Documents → Result ℤ
  pub add_reply : Str → Reply → Documents → Result (Unit {0}) × Documents

-- The libraries and stores that the handlers use; `sha256` is userver::crypto::hash::Sha256.
pub record Services : Type 1 where
  pub json : JsonLib
  pub jwt : JwtLib
  pub kafka : KafkaProducer
  pub storage : Storage
  pub comment_store : CommentStore
  pub sha256 : Str → Str

-- What a handler reads of a request: a header or a query argument that is missing is empty, and
-- `user_id` is what GetData<int>("user_id") gives.
pub record Request : Type 0 where
  pub body : Str
  pub client_ip : Str
  pub request_id : Str
  pub path_arg : Str → Str
  pub arg : Str → Str
  pub user_id : Result ℤ

-- The readings of the clocks and the random devices, in the order of their use; `unset` is the value of
-- an `int` that is not initialised.
pub record Readings : Type 0 where
  pub cleaned_at : ℤ
  pub pushed_at : ℤ
  pub info_at : ℤ
  pub read_at : ℤ
  pub cached_at : ℤ
  pub created_at : TimePoint
  pub issued_at : ℤ
  pub expires_at : ℤ
  pub surroundings : Surroundings
  pub comment_draws : ℕ → ℕ
  pub unset : ℤ

pub data HttpStatus : Type 0 where
  http_ok created bad_request unauthorized not_found conflict too_many_requests : HttpStatus

pub record Response : Type 0 where
  pub status : HttpStatus
  pub headers : Dict Str Str

pub data Outcome {ℓ} (A : Type ℓ) : Type ℓ where
  returned : A → Outcome A
  thrown : Exception → Outcome A
  undefined : Outcome A

pub record World (s : Services) : Type 0 where
  pub db : s.storage.Db
  pub documents : s.comment_store.Documents
  pub broker : s.kafka.Broker
  pub cache : Cache
  pub login_limiter : SlidingWindowLimiter
  pub response : Response

abbrev pub Handler : Services → Type 0 → Type 0
Handler s A = World s → Outcome A × World s

abbrev pub outcome_of {ℓ} : {A : Type ℓ} → Result A → Outcome A
outcome_of (ok a) = returned a
outcome_of (throw e) = thrown e

module _ {s : Services} {A : Type 0} where
  abbrev pub return : A → Handler s A
  return a w = (returned a, w)

  -- A call that may throw and changes no state.
  abbrev pub call : Result A → Handler s A
  call r w = (outcome_of r, w)

  -- `*o` of a std::optional
  abbrev pub dereference : Option A → Handler s A
  dereference none w = (undefined, w)
  dereference (some a) w = (returned a, w)

module _ {s : Services} {A B : Type 0} where
  abbrev pub run_next : Outcome A × World s → (A → Handler s B) → Outcome B × World s
  run_next (returned a, w) next = next a w
  run_next (thrown e, w) next = (thrown e, w)
  run_next (undefined, w) next = (undefined, w)

  infixl 5 ◌>>=◌ ◌>>◌
  abbrev pub ◌>>=◌ : Handler s A → (A → Handler s B) → Handler s B
  ◌>>=◌ first next w = run_next (first w) next

  abbrev pub ◌>>◌ : Handler s A → Handler s B → Handler s B
  ◌>>◌ first next w = run_next (first w) (λ _. next)

module _ {s : Services} where
  abbrev pub set_status : HttpStatus → Handler s (Unit {0})
  set_status status w = (returned tt, record w { response = record w.response { status = status } })

  abbrev pub set_header : Str → Str → Handler s (Unit {0})
  set_header name value w = (
    returned tt,
    record w { response = record w.response { headers = assign name value w.response.headers } },
  )

  -- A status and a body.
  abbrev pub respond : HttpStatus → Str → Handler s Str
  respond status body = set_status status >> return body

  -- A publishing method of the producer, on the broker.
  abbrev pub publishing :
      (s.kafka.Broker → Result (Unit {0}) × s.kafka.Broker) → Handler s (Unit {0})
  publishing publish w =
      let (sent, broker) = publish w.broker in (outcome_of sent, record w { broker = broker })

  -- A method of the storage, on the database.
  abbrev pub storing : {A : Type 0} → (s.storage.Db → Result A × s.storage.Db) → Handler s A
  storing method w = let (r, db) = method w.db in (outcome_of r, record w { db = db })

  abbrev pub querying : {A : Type 0} → (s.storage.Db → Result A) → Handler s A
  querying method w = (outcome_of (method w.db), w)

  -- A method of the cache that returns nothing.
  abbrev pub caching : (Cache → Cache) → Handler s (Unit {0})
  caching method w = (returned tt, record w { cache = method w.cache })
