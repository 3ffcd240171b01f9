-- ===== src/Wiring/Classes.antt =====
-- The classes of the components: the names in their headers, and the other components that they keep hold of.
use temp_task.Prelude.{List, [], ◌∷◌, Str, str}

-- Components of userver that src/main.cpp appends by name.
pub data Framework : Type 0 where
  ping testsuite_support dns tests_control congestion_control : Framework
  postgres mongo secdist default_secdist_provider producer_component consumer_component : Framework

pub data Class : Type 0 where
  userver : Framework → Class
  hello hello_postgres hello_mongo hello_grpc jwt_auth_component : Class
  postgres_storage mongo_storage cache_manager event_producer event_consumer : Class
  register_handler login_handler user_search_handler : Class
  create_project_handler get_projects_handler create_task_handler : Class
  add_comment_handler get_comments_handler add_reply_handler : Class

-- What a member holds on to: another component, or what one of userver's hands out.
pub data Member : Type 0 where
  component : Class → Member
  cluster pool producer consumer_scope : Member

pub record Declaration : Type 0 where
  -- kName
  pub k_name : Str
  -- the members that a constructor takes from other components, in order
  pub members : List Member

abbrev pub hello_declaration : Declaration
hello_declaration = record { k_name = str "handler-hello"; members = [] }

abbrev pub hello_postgres_declaration : Declaration
hello_postgres_declaration = record {
  k_name = str "handler-hello-postgres";
  members = cluster ∷ [];
}

abbrev pub hello_mongo_declaration : Declaration
hello_mongo_declaration = record { k_name = str "handler-hello-mongo"; members = pool ∷ [] }

abbrev pub hello_grpc_declaration : Declaration
hello_grpc_declaration = record { k_name = str "handler-hello-grpc"; members = [] }

abbrev pub jwt_auth_component_declaration : Declaration
jwt_auth_component_declaration = record { k_name = str "jwt-auth-checker"; members = [] }

abbrev pub postgres_storage_declaration : Declaration
postgres_storage_declaration = record { k_name = str "postgres-storage"; members = cluster ∷ [] }

abbrev pub mongo_storage_declaration : Declaration
mongo_storage_declaration = record { k_name = str "mongo-storage"; members = pool ∷ [] }

abbrev pub cache_manager_declaration : Declaration
cache_manager_declaration = record { k_name = str "cache-manager"; members = [] }

abbrev pub register_handler_declaration : Declaration
register_handler_declaration = record {
  k_name = str "handler-register";
  members = component postgres_storage ∷ component event_producer ∷ [];
}

abbrev pub login_handler_declaration : Declaration
login_handler_declaration = record {
  k_name = str "handler-login";
  members = component postgres_storage ∷ component event_producer ∷ [];
}

abbrev pub user_search_handler_declaration : Declaration
user_search_handler_declaration = record {
  k_name = str "handler-user-search";
  members = component postgres_storage ∷ [];
}

abbrev pub create_project_handler_declaration : Declaration
create_project_handler_declaration = record {
  k_name = str "handler-create-project";
  members = component postgres_storage ∷ component cache_manager ∷ component event_producer ∷ [];
}

abbrev pub get_projects_handler_declaration : Declaration
get_projects_handler_declaration = record {
  k_name = str "handler-get-projects";
  members = component postgres_storage ∷ component cache_manager ∷ component event_producer ∷ [];
}

abbrev pub create_task_handler_declaration : Declaration
create_task_handler_declaration = record {
  k_name = str "handler-create-task";
  members = component postgres_storage ∷ component event_producer ∷ [];
}

abbrev pub add_comment_handler_declaration : Declaration
add_comment_handler_declaration = record {
  k_name = str "handler-add-comment";
  members = component mongo_storage ∷ component cache_manager ∷ component event_producer ∷ [];
}

abbrev pub get_comments_handler_declaration : Declaration
get_comments_handler_declaration = record {
  k_name = str "handler-get-comments";
  members = component mongo_storage ∷ component cache_manager ∷ [];
}

abbrev pub add_reply_handler_declaration : Declaration
add_reply_handler_declaration = record {
  k_name = str "handler-add-reply";
  members = component mongo_storage ∷ component cache_manager ∷ component event_producer ∷ [];
}

abbrev pub event_producer_declaration : Declaration
event_producer_declaration = record { k_name = str "event-producer"; members = producer ∷ [] }

abbrev pub event_consumer_declaration : Declaration
event_consumer_declaration = record {
  k_name = str "event-consumer";
  members = consumer_scope ∷ pool ∷ [];
}
