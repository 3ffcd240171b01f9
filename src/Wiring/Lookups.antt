-- ===== src/Wiring/Lookups.antt =====
-- The constructors of the components: what each finds in the context, and what it keeps of that.
use temp_task.Prelude.{List, [], ◌∷◌, Str, str}
use temp_task.Wiring.Classes.{
  Declaration, Class, userver, postgres, mongo, producer_component, consumer_component, hello,
  hello_postgres, hello_mongo, hello_grpc, jwt_auth_component, postgres_storage, mongo_storage,
  cache_manager, register_handler, login_handler, user_search_handler, create_project_handler,
  get_projects_handler, create_task_handler, add_comment_handler, get_comments_handler,
  add_reply_handler, event_producer, event_consumer, Member, component, cluster, pool, producer,
  consumer_scope, hello_declaration, hello_postgres_declaration, hello_mongo_declaration,
  hello_grpc_declaration, jwt_auth_component_declaration, postgres_storage_declaration,
  mongo_storage_declaration, cache_manager_declaration, register_handler_declaration,
  login_handler_declaration, user_search_handler_declaration, create_project_handler_declaration,
  get_projects_handler_declaration, create_task_handler_declaration,
  add_comment_handler_declaration, get_comments_handler_declaration, add_reply_handler_declaration,
  event_producer_declaration, event_consumer_declaration,
}

-- context.FindComponent<of>(name), and what is taken from it.
pub record Lookup : Type 0 where
  pub of : Class
  pub name : Str
  pub gives : Member

-- FindComponent<T>(), by the name in T's header
abbrev pub find_component : Class → Declaration → Lookup
find_component class declaration = record {
  of = class;
  name = declaration.k_name;
  gives = component class;
}

-- FindComponent<T>("…"), and what is got from it
abbrev pub find_named : Class → Str → Member → Lookup
find_named class name gives = record { of = class; name = name; gives = gives }

abbrev pub hello_lookups : List Lookup
hello_lookups = []

abbrev pub hello_postgres_lookups : List Lookup
hello_postgres_lookups = find_named (userver postgres) (str "postgres-db-1") cluster ∷ []

abbrev pub hello_mongo_lookups : List Lookup
hello_mongo_lookups = find_named (userver mongo) (str "mongo-db-1") pool ∷ []

abbrev pub hello_grpc_lookups : List Lookup
hello_grpc_lookups = []

abbrev pub jwt_auth_component_lookups : List Lookup
jwt_auth_component_lookups = []

abbrev pub postgres_storage_lookups : List Lookup
postgres_storage_lookups = find_named (userver postgres) (str "postgres-db-1") cluster ∷ []

abbrev pub mongo_storage_lookups : List Lookup
mongo_storage_lookups = find_named (userver mongo) (str "mongo-db-1") pool ∷ []

abbrev pub cache_manager_lookups : List Lookup
cache_manager_lookups = []

abbrev pub register_handler_lookups : List Lookup
register_handler_lookups =
    find_component postgres_storage postgres_storage_declaration
    ∷ find_component event_producer event_producer_declaration
    ∷ []

abbrev pub login_handler_lookups : List Lookup
login_handler_lookups =
    find_component postgres_storage postgres_storage_declaration
    ∷ find_component event_producer event_producer_declaration
    ∷ []

abbrev pub user_search_handler_lookups : List Lookup
user_search_handler_lookups = find_component postgres_storage postgres_storage_declaration ∷ []

abbrev pub create_project_handler_lookups : List Lookup
create_project_handler_lookups =
    find_component postgres_storage postgres_storage_declaration
    ∷ find_component cache_manager cache_manager_declaration
    ∷ find_component event_producer event_producer_declaration
    ∷ []

abbrev pub get_projects_handler_lookups : List Lookup
get_projects_handler_lookups =
    find_component postgres_storage postgres_storage_declaration
    ∷ find_component cache_manager cache_manager_declaration
    ∷ find_component event_producer event_producer_declaration
    ∷ []

abbrev pub create_task_handler_lookups : List Lookup
create_task_handler_lookups =
    find_component postgres_storage postgres_storage_declaration
    ∷ find_component event_producer event_producer_declaration
    ∷ []

abbrev pub add_comment_handler_lookups : List Lookup
add_comment_handler_lookups =
    find_component mongo_storage mongo_storage_declaration
    ∷ find_component cache_manager cache_manager_declaration
    ∷ find_component event_producer event_producer_declaration
    ∷ []

abbrev pub get_comments_handler_lookups : List Lookup
get_comments_handler_lookups =
    find_component mongo_storage mongo_storage_declaration
    ∷ find_component cache_manager cache_manager_declaration
    ∷ []

abbrev pub add_reply_handler_lookups : List Lookup
add_reply_handler_lookups =
    find_component mongo_storage mongo_storage_declaration
    ∷ find_component cache_manager cache_manager_declaration
    ∷ find_component event_producer event_producer_declaration
    ∷ []

abbrev pub event_producer_lookups : List Lookup
event_producer_lookups =
    find_named (userver producer_component) (str "kafka-producer") producer ∷ []

abbrev pub event_consumer_lookups : List Lookup
event_consumer_lookups =
    find_named (userver consumer_component) (str "kafka-consumer") consumer_scope
    ∷ find_named (userver mongo) (str "mongo-db-1") pool
    ∷ []

-- The lookups of a class; those of userver's components are its own.
abbrev pub lookups : Class → List Lookup
lookups (userver f) = []
lookups hello = hello_lookups
lookups hello_postgres = hello_postgres_lookups
lookups hello_mongo = hello_mongo_lookups
lookups hello_grpc = hello_grpc_lookups
lookups jwt_auth_component = jwt_auth_component_lookups
lookups postgres_storage = postgres_storage_lookups
lookups mongo_storage = mongo_storage_lookups
lookups cache_manager = cache_manager_lookups
lookups register_handler = register_handler_lookups
lookups login_handler = login_handler_lookups
lookups user_search_handler = user_search_handler_lookups
lookups create_project_handler = create_project_handler_lookups
lookups get_projects_handler = get_projects_handler_lookups
lookups create_task_handler = create_task_handler_lookups
lookups add_comment_handler = add_comment_handler_lookups
lookups get_comments_handler = get_comments_handler_lookups
lookups add_reply_handler = add_reply_handler_lookups
lookups event_producer = event_producer_lookups
lookups event_consumer = event_consumer_lookups

abbrev pub members_of : Class → List Member
members_of (userver f) = []
members_of hello = hello_declaration.members
members_of hello_postgres = hello_postgres_declaration.members
members_of hello_mongo = hello_mongo_declaration.members
members_of hello_grpc = hello_grpc_declaration.members
members_of jwt_auth_component = jwt_auth_component_declaration.members
members_of postgres_storage = postgres_storage_declaration.members
members_of mongo_storage = mongo_storage_declaration.members
members_of cache_manager = cache_manager_declaration.members
members_of register_handler = register_handler_declaration.members
members_of login_handler = login_handler_declaration.members
members_of user_search_handler = user_search_handler_declaration.members
members_of create_project_handler = create_project_handler_declaration.members
members_of get_projects_handler = get_projects_handler_declaration.members
members_of create_task_handler = create_task_handler_declaration.members
members_of add_comment_handler = add_comment_handler_declaration.members
members_of get_comments_handler = get_comments_handler_declaration.members
members_of add_reply_handler = add_reply_handler_declaration.members
members_of event_producer = event_producer_declaration.members
members_of event_consumer = event_consumer_declaration.members
