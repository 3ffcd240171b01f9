-- ===== src/Wiring.antt =====
-- src/main.cpp: the list of components, and how they start. userver makes each component of the list once,
-- under a name, and FindComponent waits for the one of a name and asks that it be of a class.
pub mod Classes
pub mod Lookups
pub mod Startup
mod Tests
use temp_task.Prelude.{List, [], ◌∷◌, ◌++◌, Str, str, ◌≡◌, map}
use mathlib.Core.List.{Memᴰ}
use temp_task.Wiring.Classes.{
  Framework, Class, userver, ping, testsuite_support, dns, tests_control, congestion_control,
  postgres, mongo, secdist, default_secdist_provider, producer_component, consumer_component, hello,
  hello_postgres, hello_mongo, hello_grpc, jwt_auth_component, postgres_storage, mongo_storage,
  cache_manager, register_handler, login_handler, user_search_handler, create_project_handler,
  get_projects_handler, create_task_handler, add_comment_handler, get_comments_handler,
  add_reply_handler, event_producer, event_consumer, Member, component, cluster, pool, producer,
  consumer_scope, Declaration, hello_declaration, hello_postgres_declaration,
  hello_mongo_declaration, hello_grpc_declaration, jwt_auth_component_declaration,
  postgres_storage_declaration, mongo_storage_declaration, cache_manager_declaration,
  register_handler_declaration, login_handler_declaration, user_search_handler_declaration,
  create_project_handler_declaration, get_projects_handler_declaration,
  create_task_handler_declaration, add_comment_handler_declaration,
  get_comments_handler_declaration, add_reply_handler_declaration, event_producer_declaration,
  event_consumer_declaration,
}
use temp_task.Wiring.Lookups.{Lookup, lookups, members_of}

pub record Component : Type 0 where
  pub class : Class
  pub name : Str

-- The lists of components that userver has ready, and the kName of each of its classes.
pub record Userver : Type 0 where
  pub minimal_server : List Component
  pub http_client : List Component
  pub minimal_grpc_server : List Component
  pub k_name : Framework → Str

module _ (u : Userver) where
  -- Append<T>() of a class of userver
  abbrev default : Framework → Component
  default f = record { class = userver f; name = u.k_name f }

  unfoldable pub component_list : List Component
  component_list =
      u.minimal_server
      ++ default ping
        ∷ default testsuite_support
        ∷ (u.http_client
            ++ default dns
              ∷ default tests_control
              ∷ default congestion_control
              ∷ record { class = hello; name = hello_declaration.k_name }
              ∷ record { class = userver postgres; name = str "postgres-db-1" }
              ∷ record { class = hello_postgres; name = hello_postgres_declaration.k_name }
              ∷ record { class = userver mongo; name = str "mongo-db-1" }
              ∷ record { class = hello_mongo; name = hello_mongo_declaration.k_name }
              ∷ (u.minimal_grpc_server
                  ++ record { class = hello_grpc; name = hello_grpc_declaration.k_name }
                    ∷ record {
                      class = jwt_auth_component;
                      name = jwt_auth_component_declaration.k_name;
                    }
                    ∷ record {
                      class = postgres_storage;
                      name = postgres_storage_declaration.k_name;
                    }
                    ∷ record { class = mongo_storage; name = mongo_storage_declaration.k_name }
                    ∷ record { class = cache_manager; name = cache_manager_declaration.k_name }
                    ∷ record {
                      class = register_handler;
                      name = register_handler_declaration.k_name;
                    }
                    ∷ record { class = login_handler; name = login_handler_declaration.k_name }
                    ∷ record {
                      class = user_search_handler;
                      name = user_search_handler_declaration.k_name;
                    }
                    ∷ record {
                      class = create_project_handler;
                      name = create_project_handler_declaration.k_name;
                    }
                    ∷ record {
                      class = get_projects_handler;
                      name = get_projects_handler_declaration.k_name;
                    }
                    ∷ record {
                      class = create_task_handler;
                      name = create_task_handler_declaration.k_name;
                    }
                    ∷ record {
                      class = add_comment_handler;
                      name = add_comment_handler_declaration.k_name;
                    }
                    ∷ record {
                      class = get_comments_handler;
                      name = get_comments_handler_declaration.k_name;
                    }
                    ∷ record {
                      class = add_reply_handler;
                      name = add_reply_handler_declaration.k_name;
                    }
                    ∷ default secdist
                    ∷ default default_secdist_provider
                    ∷ default producer_component
                    ∷ default consumer_component
                    ∷ record { class = event_producer; name = str "event-producer" }
                    ∷ record { class = event_consumer; name = str "event-consumer" }
                    ∷ []))

  -- A component starts if it is in the list, and all that its constructor finds is in the list under the
  -- name and with the class that it asks for, starts itself, and gives the members their values.
  pub data Starts : Component → Type 0 where
    started :
        (c : Component)
        → Memᴰ c component_list
        → map (λ l. l.gives) (lookups c.class) ≡ members_of c.class
        → ((l : Lookup)
            → Memᴰ l (lookups c.class)
            → Starts (record { class = l.of; name = l.name }))
        → Starts c
