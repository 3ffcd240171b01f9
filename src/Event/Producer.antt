-- ===== src/Event/Producer.antt =====
-- src/event/event_producer.hpp and event_producer.cpp. The Kafka producer and the JSON library are
-- parameters; so are the readings of the clock, and the draws of the random device for each identifier.
use temp_task.Prelude.{
  ℕ, [], ◌∷◌, if◌then◌else◌, Str, str, is_empty, to_string, Result, ok, throw, foreign,
}
use temp_task.Json.{JsonLib}
use temp_task.Event.{
  UserRegisteredEvent, UserLoggedInEvent, ProjectCreatedEvent, TaskCreatedEvent, CommentAddedEvent,
  user_registered_payload, user_logged_in_payload, project_created_payload, task_created_payload,
  comment_added_payload,
}
use temp_task.Event.Ids.{generate_event_id}
use temp_task.Event.Timestamp.{timestamp_iso}

-- userver::kafka::Producer: Send of a topic, a key and a message.
pub record KafkaProducer : Type 1 where
  pub Broker : Type 0
  pub send : Str → Str → Str → Broker → Result (Unit {0}) × Broker

-- `catch (const std::exception&)` round a block whose result is not used.
abbrev pub catch_std : Result (Unit {0}) → Result (Unit {0})
catch_std (throw foreign) = throw foreign
catch_std (throw e) = ok tt
catch_std (ok u) = ok tt

-- What one call reads of its surroundings: the two identifiers' draws, and the reading
-- of the system clock.
pub record Surroundings : Type 0 where
  pub event_draws : ℕ → ℕ
  pub trace_draws : ℕ → ℕ
  pub clock : ℕ

-- The text of the message that Publish sends.
module _ (json : JsonLib) where
  open json use {Value, of_string, object, to_text}

  unfoldable pub message_text : Surroundings → Str → Value → Str → Str
  message_text now event_type payload trace_id = to_text (
      object (
        (str "event_id", of_string (generate_event_id now.event_draws))
        ∷ (str "event_type", of_string event_type)
        ∷ (str "timestamp", of_string (timestamp_iso now.clock))
        ∷ (str "version", of_string (str "1.0"))
        ∷ (str "payload", payload)
        ∷ (
          str "metadata",
          object (
              (
                str "trace_id",
                of_string
                    (if is_empty trace_id then generate_event_id now.trace_draws else trace_id),
              )
              ∷ (str "source_service", of_string (str "myservice"))
              ∷ []),
        )
        ∷ []))

module _ (kafka : KafkaProducer) (json : JsonLib) (now : Surroundings) where
  open kafka use {Broker, send}
  open json use {Value}

  unfoldable pub publish : Str → Str → Str → Value → Str → Broker → Result (Unit {0}) × Broker
  publish topic key event_type payload trace_id broker =
      let (sent, broker') =
        send topic key (message_text json now event_type payload trace_id) broker in
      (catch_std sent, broker')

  unfoldable pub publish_user_registered :
      UserRegisteredEvent → Str → Broker → Result (Unit {0}) × Broker
  publish_user_registered event =
      publish (str "user-events") (to_string event.user_id) (str "UserRegistered")
        (user_registered_payload json event)

  unfoldable pub publish_user_logged_in :
      UserLoggedInEvent → Str → Broker → Result (Unit {0}) × Broker
  publish_user_logged_in event =
      publish (str "user-events") (to_string event.user_id) (str "UserLoggedIn")
        (user_logged_in_payload json event)

  unfoldable pub publish_project_created :
      ProjectCreatedEvent → Str → Broker → Result (Unit {0}) × Broker
  publish_project_created event =
      publish (str "project-events") (to_string event.project_id) (str "ProjectCreated")
        (project_created_payload json event)

  unfoldable pub publish_task_created : TaskCreatedEvent → Str → Broker → Result (Unit {0}) × Broker
  publish_task_created event =
      publish (str "task-events") (to_string event.task_id) (str "TaskCreated")
        (task_created_payload json event)

  unfoldable pub publish_comment_added :
      CommentAddedEvent → Str → Broker → Result (Unit {0}) × Broker
  publish_comment_added event =
      publish (str "comment-events") event.comment_id (str "CommentAdded")
        (comment_added_payload json event)
