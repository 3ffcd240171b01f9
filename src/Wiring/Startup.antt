-- ===== src/Wiring/Startup.antt =====
-- Every component starts.
use temp_task.Prelude.{List, [], ◌∷◌, Str, str, ◌≡◌, refl, map, inl, inr}
use mathlib.Core.Path.{subst}
use mathlib.Core.List.{Memᴰ}
use mathlib.Core.List.Memᴰ
use temp_task.Wiring.Classes.{
  Framework, Class, userver, postgres, mongo, producer_component, consumer_component, hello,
  hello_postgres, hello_mongo, hello_grpc, jwt_auth_component, postgres_storage, mongo_storage,
  cache_manager, register_handler, login_handler, user_search_handler, create_project_handler,
  get_projects_handler, create_task_handler, add_comment_handler, get_comments_handler,
  add_reply_handler, event_producer, event_consumer,
}
use temp_task.Wiring.Lookups.{Lookup, lookups, members_of}
use temp_task.Wiring.{Component, Userver, component_list, Starts}

pub head_refl : {A : Type 0} (a : A) (xs : List A) → Memᴰ a (a ∷ xs)
head_refl a xs = Memᴰ.head refl

-- The places of a list.
pub ruleset places = (head_refl, Memᴰ.tail, Memᴰ.append_right)

-- A constructor keeps what its lookups give, in the order of the members.
lookups-members : (k : Class) → map (λ l. l.gives) (lookups k) ≡ members_of k
lookups-members (userver f) = refl
lookups-members hello = refl
lookups-members hello_postgres = refl
lookups-members hello_mongo = refl
lookups-members hello_grpc = refl
lookups-members jwt_auth_component = refl
lookups-members postgres_storage = refl
lookups-members mongo_storage = refl
lookups-members cache_manager = refl
lookups-members register_handler = refl
lookups-members login_handler = refl
lookups-members user_search_handler = refl
lookups-members create_project_handler = refl
lookups-members get_projects_handler = refl
lookups-members create_task_handler = refl
lookups-members add_comment_handler = refl
lookups-members get_comments_handler = refl
lookups-members add_reply_handler = refl
lookups-members event_producer = refl
lookups-members event_consumer = refl

module _ (u : Userver) where
  abbrev AllStart : List Lookup → Type 0
  AllStart [] = Unit {0}
  AllStart (l ∷ ls) = Starts u (record { class = l.of; name = l.name }) × (AllStart ls)

  AllStart_lem :
      (ls : List Lookup)
      → AllStart ls
      → (l : Lookup) → Memᴰ l ls
      → Starts u (record { class = l.of; name = l.name })
  AllStart_lem [] all l h = absurd (Memᴰ.not-nil h)
  AllStart_lem (m ∷ ls) all l h = elim (Memᴰ.cases_cons h) [
    | inl e ↦ rw e (all.0)
    | inr later ↦ AllStart_lem ls all.1 l later
  ]

  starts : (c : Component) → Memᴰ c (component_list u) → AllStart (lookups c.class) → Starts u c
  starts c listed all =
      Starts.started c listed (lookups-members c.class) (AllStart_lem (lookups c.class) all)

  postgres-Starts : Starts u (record { class = userver postgres; name = str "postgres-db-1" })
  unfolding component_list
  postgres-Starts = starts _ (search (places) depth 60) tt

  mongo-Starts : Starts u (record { class = userver mongo; name = str "mongo-db-1" })
  unfolding component_list
  mongo-Starts = starts _ (search (places) depth 60) tt

  cache_manager-Starts : Starts u (record { class = cache_manager; name = str "cache-manager" })
  unfolding component_list
  cache_manager-Starts = starts _ (search (places) depth 60) tt

  postgres_storage-Starts :
      Starts u (record { class = postgres_storage; name = str "postgres-storage" })
  unfolding component_list
  postgres_storage-Starts = starts _ (search (places) depth 60) (postgres-Starts, tt)

  mongo_storage-Starts : Starts u (record { class = mongo_storage; name = str "mongo-storage" })
  unfolding component_list
  mongo_storage-Starts = starts _ (search (places) depth 60) (mongo-Starts, tt)

  -- A component of the list under its default name.
  named :
      (f : Framework) (name : Str)
      → u.k_name f ≡ name
      → Memᴰ (record { class = userver f; name = u.k_name f }) (component_list u)
      → Starts u (record { class = userver f; name = name })
  named f name e listed =
      subst (λ n. Starts u (record { class = userver f; name = n })) e (starts _ listed tt)

  module _ (producer_name : u.k_name producer_component ≡ str "kafka-producer")
      (consumer_name : u.k_name consumer_component ≡ str "kafka-consumer") where
    producer-Starts :
        Starts u (record { class = userver producer_component; name = str "kafka-producer" })
    unfolding component_list
    producer-Starts = named producer_component _ producer_name (search (places) depth 60)

    consumer-Starts :
        Starts u (record { class = userver consumer_component; name = str "kafka-consumer" })
    unfolding component_list
    consumer-Starts = named consumer_component _ consumer_name (search (places) depth 60)

    event_producer-Starts :
        Starts u (record { class = event_producer; name = str "event-producer" })
    unfolding component_list
    event_producer-Starts = starts _ (search (places) depth 60) (producer-Starts, tt)

    lookups-Start : (k : Class) → AllStart (lookups k)
    lookups-Start (userver f) = tt
    lookups-Start hello = tt
    lookups-Start hello_postgres = (postgres-Starts, tt)
    lookups-Start hello_mongo = (mongo-Starts, tt)
    lookups-Start hello_grpc = tt
    lookups-Start jwt_auth_component = tt
    lookups-Start postgres_storage = (postgres-Starts, tt)
    lookups-Start mongo_storage = (mongo-Starts, tt)
    lookups-Start cache_manager = tt
    lookups-Start register_handler = (postgres_storage-Starts, (event_producer-Starts, tt))
    lookups-Start login_handler = (postgres_storage-Starts, (event_producer-Starts, tt))
    lookups-Start user_search_handler = (postgres_storage-Starts, tt)
    lookups-Start create_project_handler =
        (postgres_storage-Starts, (cache_manager-Starts, (event_producer-Starts, tt)))
    lookups-Start get_projects_handler =
        (postgres_storage-Starts, (cache_manager-Starts, (event_producer-Starts, tt)))
    lookups-Start create_task_handler = (postgres_storage-Starts, (event_producer-Starts, tt))
    lookups-Start add_comment_handler =
        (mongo_storage-Starts, (cache_manager-Starts, (event_producer-Starts, tt)))
    lookups-Start get_comments_handler = (mongo_storage-Starts, (cache_manager-Starts, tt))
    lookups-Start add_reply_handler =
        (mongo_storage-Starts, (cache_manager-Starts, (event_producer-Starts, tt)))
    lookups-Start event_producer = (producer-Starts, tt)
    lookups-Start event_consumer = (consumer-Starts, (mongo-Starts, tt))

    -- Every component of the list starts: what its constructor finds is in the list under the name and with the
    -- class that it asks for, starts itself, and gives the members their values. userver's components of Kafka
    -- must have the names that the code asks for.
    pub component_list-Starts : (c : Component) → Memᴰ c (component_list u) → Starts u c
    component_list-Starts c listed = starts c listed (lookups-Start c.class)
