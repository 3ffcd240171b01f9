-- ===== src/Event/Pipeline.antt =====
-- From the producer to the consumer: every event that is published is accepted and stored.
use temp_task.Prelude.{
  ◌≡◌, refl, List, ℤ, IsInt32, Str, Str_eq, str, find, some, Result, ok, to_string,
}
use temp_task.Json.{JsonLib, JsonLaws, IsInt64, string_at, int_at, int64_at}
use temp_task.Event.{
  UserRegisteredEvent, UserLoggedInEvent, ProjectCreatedEvent, TaskCreatedEvent, CommentAddedEvent,
  user_registered_payload, user_logged_in_payload, project_created_payload, task_created_payload,
  comment_added_payload,
}
use temp_task.Event.Ids.{generate_event_id}
use temp_task.Event.Timestamp.{timestamp_iso}
use temp_task.Event.Producer.{
  KafkaProducer, Surroundings, catch_std, message_text, publish, publish_user_registered,
  publish_user_logged_in, publish_project_created, publish_task_created, publish_comment_added,
}
use temp_task.Event.Consumer.{
  process_user_registered, process_user_logged_in, process_project_created, process_task_created,
  process_comment_added, dispatch, read_message,
}

-- The events, each with the member function that publishes it, the type and the payload that the consumer must
-- read, and the numbers that must be in range.
pub data Event : Type 0 where
  user_registered : UserRegisteredEvent → Event
  user_logged_in : UserLoggedInEvent → Event
  project_created : ProjectCreatedEvent → Event
  task_created : TaskCreatedEvent → Event
  comment_added : CommentAddedEvent → Event

abbrev pub type_of : Event → Str
type_of (user_registered e) = str "UserRegistered"
type_of (user_logged_in e) = str "UserLoggedIn"
type_of (project_created e) = str "ProjectCreated"
type_of (task_created e) = str "TaskCreated"
type_of (comment_added e) = str "CommentAdded"

abbrev pub payload_of : (json : JsonLib) → Event → json.Value
payload_of json (user_registered e) = user_registered_payload json e
payload_of json (user_logged_in e) = user_logged_in_payload json e
payload_of json (project_created e) = project_created_payload json e
payload_of json (task_created e) = task_created_payload json e
payload_of json (comment_added e) = comment_added_payload json e

abbrev pub topic_of : Event → Str
topic_of (user_registered e) = str "user-events"
topic_of (user_logged_in e) = str "user-events"
topic_of (project_created e) = str "project-events"
topic_of (task_created e) = str "task-events"
topic_of (comment_added e) = str "comment-events"

abbrev pub key_of : Event → Str
key_of (user_registered e) = to_string e.user_id
key_of (user_logged_in e) = to_string e.user_id
key_of (project_created e) = to_string e.project_id
key_of (task_created e) = to_string e.task_id
key_of (comment_added e) = e.comment_id

-- The event's own member function of EventProducer.
abbrev pub publish_event :
    (kafka : KafkaProducer) (json : JsonLib)
    → Surroundings
    → Event
    → Str
    → kafka.Broker
    → Result (Unit {0}) × kafka.Broker
publish_event kafka json now (user_registered e) = publish_user_registered kafka json now e
publish_event kafka json now (user_logged_in e) = publish_user_logged_in kafka json now e
publish_event kafka json now (project_created e) = publish_project_created kafka json now e
publish_event kafka json now (task_created e) = publish_task_created kafka json now e
publish_event kafka json now (comment_added e) = publish_comment_added kafka json now e

abbrev InRange : Event → Type 0
InRange (user_registered e) = IsInt64 e.user_id
InRange (user_logged_in e) = IsInt64 e.user_id
InRange (project_created e) = IsInt64 e.project_id × IsInt64 e.owner_id
InRange (task_created e) = IsInt64 e.task_id × IsInt64 e.project_id × IsInt32 e.priority
InRange (comment_added e) = IsInt64 e.task_id

module _ (json : JsonLib) (laws : JsonLaws json) where
  open json use {Value, of_string, of_int, object, index}

  string_at-object :
      (fields : List (Str × Value)) (k s : Str)
      → find k fields ≡ some (of_string s)
      → string_at json (object fields) k ≡ ok s
  string_at-object fields k s e =
      rw (laws.index-object fields k (of_string s) e) (laws.as_string-of_string s)

  int64_at-object :
      (fields : List (Str × Value)) (k : Str) (z : ℤ)
      → find k fields ≡ some (of_int z)
      → IsInt64 z
      → int64_at json (object fields) k ≡ ok z
  int64_at-object fields k z e h =
      rw (laws.index-object fields k (of_int z) e) (laws.as_int64-of_int z h)

  int_at-object :
      (fields : List (Str × Value)) (k : Str) (z : ℤ)
      → find k fields ≡ some (of_int z)
      → IsInt32 z
      → int_at json (object fields) k ≡ ok z
  int_at-object fields k z e h =
      rw (laws.index-object fields k (of_int z) e) (laws.as_int-of_int z h)

  -- The consumer's reads of a payload succeed on what the producer wrote.
  dispatch-payload : (e : Event) → InRange e → dispatch json (type_of e) (payload_of json e) ≡ ok tt
  unfolding dispatch process_user_registered user_registered_payload process_user_logged_in
      user_logged_in_payload process_project_created project_created_payload process_task_created
      task_created_payload process_comment_added comment_added_payload find
  dispatch-payload (user_registered e) h = rw (
    int64_at-object _ (str "user_id") e.user_id refl h,
    string_at-object _ (str "login") e.login refl,
    string_at-object _ (str "email") e.email refl,
    string_at-object _ (str "first_name") e.first_name refl,
    string_at-object _ (str "last_name") e.last_name refl,
  )
  dispatch-payload (user_logged_in e) h = rw (
    int64_at-object _ (str "user_id") e.user_id refl h,
    string_at-object _ (str "login") e.login refl,
    string_at-object _ (str "ip_address") e.ip_address refl,
  )
  dispatch-payload (project_created e) h = rw (
    int64_at-object _ (str "project_id") e.project_id refl h.0,
    string_at-object _ (str "name") e.name refl,
    string_at-object _ (str "key") e.key refl,
    int64_at-object _ (str "owner_id") e.owner_id refl h.1,
  )
  dispatch-payload (task_created e) h = rw (
    int64_at-object _ (str "task_id") e.task_id refl h.0,
    int64_at-object _ (str "project_id") e.project_id refl h.1,
    string_at-object _ (str "title") e.title refl,
    int_at-object _ (str "priority") e.priority refl h.2,
    string_at-object _ (str "status") e.status refl,
  )
  dispatch-payload (comment_added e) h = rw (
    string_at-object _ (str "comment_id") e.comment_id refl,
    int64_at-object _ (str "task_id") e.task_id refl h,
    string_at-object _ (str "author") e.author refl,
    string_at-object _ (str "text") e.text refl,
  )

  read_message-message_text :
      (now : Surroundings) (e : Event) (trace_id : Str)
      → InRange e
      → read_message json (message_text json now (type_of e) (payload_of json e) trace_id)
        ≡ ok (record {
          event_id = generate_event_id now.event_draws;
          event_type = type_of e;
          timestamp = timestamp_iso now.clock;
          payload = payload_of json e;
        })
  unfolding read_message message_text find
  read_message-message_text now e trace_id h = rw (
    laws.from_string-to_text _,
    string_at-object _ (str "event_id") (generate_event_id now.event_draws) refl,
    string_at-object _ (str "event_type") (type_of e) refl,
    string_at-object _ (str "timestamp") (timestamp_iso now.clock) refl,
    laws.index-object _ (str "payload") (payload_of json e) refl,
    dispatch-payload e h,
  )

  published_text :
      (kafka : KafkaProducer) (now : Surroundings) (e : Event) (trace_id : Str)
      (broker : kafka.Broker)
      → let sent =
          kafka.send
            (topic_of e)
            (key_of e)
            (message_text json now (type_of e) (payload_of json e) trace_id)
            broker in
        publish_event kafka json now e trace_id broker ≡ (catch_std sent.0, sent.1)
  unfolding publish publish_user_registered publish_user_logged_in publish_project_created
      publish_task_created publish_comment_added
  published_text kafka now (user_registered e) trace_id broker = refl
  published_text kafka now (user_logged_in e) trace_id broker = refl
  published_text kafka now (project_created e) trace_id broker = refl
  published_text kafka now (task_created e) trace_id broker = refl
  published_text kafka now (comment_added e) trace_id broker = refl

  -- Each of the five member functions that publish an event hands one text to Send, under the event's topic and
  -- key, and gives back what Send gave, a failure that is a `std::exception` swallowed. The consumer accepts that text and
  -- reads from it the event id that was generated, the event's type, the time and the event's payload, whatever the surroundings
  -- and the trace id. The numbers of the event must be in the ranges of their types.
  pub read_message-publish_event :
      (kafka : KafkaProducer) (now : Surroundings) (e : Event) (trace_id : Str)
      (broker : kafka.Broker)
      → InRange e
      → (text : Str) × (publish_event kafka json now e trace_id broker ≡ (
        catch_std (kafka.send (topic_of e) (key_of e) text broker).0,
        (kafka.send (topic_of e) (key_of e) text broker).1,
      ))
        × (read_message json text
            ≡ ok (record {
              event_id = generate_event_id now.event_draws;
              event_type = type_of e;
              timestamp = timestamp_iso now.clock;
              payload = payload_of json e;
            }))
  read_message-publish_event kafka now e trace_id broker h = (
    message_text json now (type_of e) (payload_of json e) trace_id,
    published_text kafka now e trace_id broker,
    read_message-message_text now e trace_id h,
  )
