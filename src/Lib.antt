-- ===== src/Lib.antt =====
-- A verification library for the project manager service (paths are from the repository's root).
--
-- The service is an HTTP server on the userver framework. Its handlers (src/handlers) check a request,
-- read and write the stores (src/storage), keep answers in a cache (src/cache), limit the attempts
-- to log in (src/rate_limit), issue and check tokens (src/auth), and publish events to Kafka, which
-- a consumer in the same process writes to MongoDB (src/event).
--
-- Files and what they model:
--   RateLimit         src/rate_limit/sliding_window.{hpp,cpp}. TryAcquire is try_acquire, CleanExpired
--                     is clean_expired (its loop pop_expired), GetInfo is get_info. Calls has
--                     histories of both.
--   Cache             src/cache/cache_manager.{hpp,cpp}. Get, Set, Invalidate and InvalidateByPrefix are
--                     get, set, invalidate and invalidate_by_prefix. Model has the specification.
--   Models            src/models/user.hpp, project.hpp, task.hpp, comment.hpp.
--   Storage.InMemory  src/storage/in_memory_storage.{hpp,cpp}, each method under its name.
--   Storage.Postgres  src/storage/postgres_storage.{hpp,cpp}, each method under its name, with its SQL
--                     as terms of Storage.Sql: the conditions, orders, limits and columns of the
--                     queries, and the values and returned columns of the insertions.
--   Storage.Mongo     src/storage/mongodb_storage.{hpp,cpp}, each method under its name, and with
--                     Storage.Mongo.Documents the BSON conversions of src/models/comment.hpp.
--   Bson              the interface of the BSON library.
--   Auth              src/auth/jwt.cpp, src/auth/jwt_auth_checker.cpp and
--                     src/handlers/auth_middleware.cpp: generate_token, validate_token, check_auth
--                     and middleware_check_auth.
--   Json              the interface of the JSON library.
--   Event             src/event/event_types.hpp; Event.Ids the identifiers of event_producer.cpp and
--                     src/models/comment.hpp; Event.Timestamp the text of the time in
--                     event_producer.cpp, with the Gregorian calendar and a reader of such texts;
--                     Event.Producer and Event.Consumer the two components;
--                     Event.Pipeline and Event.Batch what is proved of them together.
--   Handlers          src/handlers: Handlers.Users (auth_handlers.cpp, user_handlers.cpp),
--                     Handlers.Projects (project_handlers.cpp, task_handlers.cpp), Handlers.Comments
--                     and Handlers.CommentList (comment_handlers.cpp). A HandleRequestThrow is a
--                     function of the request, of what it reads and of the service's state;
--                     Handlers.Service has the routes and histories of requests, Handlers.Memory
--                     gives the handlers the in-memory storage, Handlers.OnPostgres and
--                     Handlers.OnMongo the stores that src/main.cpp gives them.
--                     Handlers.Registration is about how a registration ends, ProjectCreation and
--                     TaskCreation about the answers to creations, and Handlers.Logins about those to logins.
--                     Handlers.Races has GetProjectsHandler and CreateProjectHandler as steps between
--                     which other handlers run; Handlers.Races.Alone runs each handler alone.
--   Gateway           the endpoints of configs/static_config.yaml, and the way of a request through the
--                     check that src/auth/jwt_auth_factory.cpp hands out to its handler.
--   Wiring            src/main.cpp, the classes' declarations and their constructors: the list of
--                     components, and what each finds when it starts.
--   Greeting          src/greeting.cpp, and the handlers of src/hello*.cpp, with the statement of
--                     hello_postgres.cpp as a term.
--   Prelude           numbers, strings, maps and results that the others share. Maps models
--                     std::unordered_map, Decimal models std::to_string and std::stoi on `int`.
--
-- Conventions. A std::string is the list of its bytes. Signed numbers are the integers ℤ, and a range is
-- a hypothesis where it matters; times are ticks of a clock as integers, which do not wrap. Each
-- reading of a clock, each draw of a random device and each answer of a library is an argument.
-- A method under a mutex is one step on an explicit state. An unordered_map is an association list, its
-- order open. An exception is a value of Result. No definition runs on fuel but the decimal
-- printing of a number n, whose fuel n + 1 is above the number of its digits.
--
-- What is not under src/ is a parameter with named laws: the token library (JwtLib, JwtLaws), the JSON
-- library (JsonLib, JsonLaws), the Kafka producer and the Mongo collection (KafkaProducer,
-- EventStore, StdOnly), the cluster of PostgreSQL (Cluster, ClusterLaws, ReadingLaws: what a query
-- answers, ILIKE up to case as the locale has it, what an insertion that succeeds stores, how a row is
-- read into a struct; a read goes to a replica, which may be behind; Executor, UpsertLaws for the
-- greetings), the BSON library and the collection of comments (BsonLib, BsonLaws, Collection,
-- CollectionLaws), and userver's answer to a refused request and its own lists of components (Server,
-- ServerLaws, Userver). The modules called Sample have libraries that meet the laws. The handlers take
-- their stores as records of methods (Storage, CommentStore), and rely on ProjectLaws and CommentLaws: that
-- one list is left alone by what is stored elsewhere, and by a method that throws. The last is an assumption on
-- top of what the databases document: a statement whose answer times out may have been carried out, and then a cached
-- list may be out of date.
--
-- Not modelled: interleavings of other handlers than those of Handlers.Races, whose steps stand for any
-- calls of the others; a replica of PostgreSQL that catches up between two statements; log lines; the
-- thread pools and settings of configs/static_config.yaml, the paths of the greeting handlers and the
-- ping; years past 9999 in the text of a time; and the command that counts the visits of hello_mongo.cpp.
pub mod Prelude
pub mod RateLimit
pub mod Cache
pub mod Models
pub mod Storage
pub mod Auth
pub mod Json
pub mod Bson
pub mod Event
pub mod Handlers
pub mod Gateway
pub mod Wiring
pub mod Greeting
