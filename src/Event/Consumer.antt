-- ===== src/Event/Consumer.antt =====
-- src/event/event_consumer.hpp and event_consumer.cpp. The Mongo collection, the conversion to BSON and
-- the printing of times are parameters; each message comes with the reading of the clock
-- for its time of processing. Log lines are left out; the reads that the log lines need are not.
use temp_task.Prelude.{
  ℕ, List, [], ◌∷◌, if◌then◌else◌, ◌==◌, Str, Str_eq, str, Result, ok, throw, ◌>>=◌, ◌>>◌,
}
use temp_task.Json.{JsonLib, string_at, int_at, int64_at}
use temp_task.Event.Producer.{catch_std}

-- The document that StoreEvent inserts.
pub record RawEvent (Bson : Type 0) : Type 0 where
  pub event_id : Str
  pub event_type : Str
  pub timestamp : Str
  pub payload : Bson
  pub processed_at : Str

-- What StoreEvent calls: bson::FromJsonString, utils::datetime::Timestring, and InsertOne of the
-- collection "raw_events".
pub record EventStore : Type 1 where
  pub Bson : Type 0
  pub Collection : Type 0
  pub from_json_string : Str → Result Bson
  pub timestring : ℕ → Str → Result Str
  pub insert_one : RawEvent Bson → Collection → Result (Unit {0}) × Collection

-- What ProcessBatch reads of a message.
pub record Envelope (Value : Type 0) : Type 0 where
  pub event_id : Str
  pub event_type : Str
  pub timestamp : Str
  pub payload : Value

module _ (json : JsonLib) where
  open json use {Value, from_string, index}

  unfoldable pub process_user_registered : Value → Result (Unit {0})
  process_user_registered payload = do
    int64_at json payload (str "user_id")
    string_at json payload (str "login")
    string_at json payload (str "email")
    string_at json payload (str "first_name")
    string_at json payload (str "last_name")
    ok tt

  unfoldable pub process_user_logged_in : Value → Result (Unit {0})
  process_user_logged_in payload = do
    int64_at json payload (str "user_id")
    string_at json payload (str "login")
    string_at json payload (str "ip_address")
    ok tt

  unfoldable pub process_project_created : Value → Result (Unit {0})
  process_project_created payload = do
    int64_at json payload (str "project_id")
    string_at json payload (str "name")
    string_at json payload (str "key")
    int64_at json payload (str "owner_id")
    ok tt

  unfoldable pub process_task_created : Value → Result (Unit {0})
  process_task_created payload = do
    int64_at json payload (str "task_id")
    int64_at json payload (str "project_id")
    string_at json payload (str "title")
    int_at json payload (str "priority")
    string_at json payload (str "status")
    ok tt

  unfoldable pub process_comment_added : Value → Result (Unit {0})
  process_comment_added payload = do
    string_at json payload (str "comment_id")
    int64_at json payload (str "task_id")
    string_at json payload (str "author")
    string_at json payload (str "text")
    ok tt

  -- The chain of tests on the type; a type that is not known is only logged.
  unfoldable pub dispatch : Str → Value → Result (Unit {0})
  dispatch event_type payload =
      if event_type == str "UserRegistered"
      then process_user_registered payload
      else if event_type == str "UserLoggedIn"
      then process_user_logged_in payload
      else if event_type == str "ProjectCreated"
      then process_project_created payload
      else if event_type == str "TaskCreated"
      then process_task_created payload
      else if event_type == str "CommentAdded"
      then process_comment_added payload
      else ok tt

  -- The `try` block of ProcessBatch up to the call of StoreEvent.
  unfoldable pub read_message : Str → Result (Envelope Value)
  read_message text = do
    message ← from_string text
    event_id ← string_at json message (str "event_id")
    event_type ← string_at json message (str "event_type")
    timestamp ← string_at json message (str "timestamp")
    payload ← index message (str "payload")
    dispatch event_type payload
    ok (record {
      event_id = event_id;
      event_type = event_type;
      timestamp = timestamp;
      payload = payload;
    })

module _ (json : JsonLib) (store : EventStore) where
  open json use {Value, to_text}
  open store use {Bson, Collection, from_json_string, timestring, insert_one}

  unfoldable pub get_current_timestamp_iso : ℕ → Result Str
  get_current_timestamp_iso now = timestring now (str "Y-m-dTH:M:SZ")

  unfoldable pub raw_event : ℕ → Envelope Value → Result (RawEvent Bson)
  raw_event now e = do
    payload ← from_json_string (to_text e.payload)
    processed_at ← get_current_timestamp_iso now
    ok (record {
      event_id = e.event_id;
      event_type = e.event_type;
      timestamp = e.timestamp;
      payload = payload;
      processed_at = processed_at;
    })

  unfoldable pub store_event : ℕ → Envelope Value → Collection → Result (Unit {0}) × Collection
  store_event now e collection = elim (raw_event now e) [
    | ok doc ↦
        let (inserted, collection') = insert_one doc collection in (catch_std inserted, collection')
    | throw x ↦ (catch_std (throw x), collection)
  ]

  -- One round of the loop, with its own try and catch, and its reading of the clock.
  unfoldable pub process_message : Str × ℕ → Collection → Result (Unit {0}) × Collection
  process_message (text, now) collection = elim (read_message json text) [
    | ok e ↦
        let (stored, collection') = store_event now e collection in (catch_std stored, collection')
    | throw x ↦ (catch_std (throw x), collection)
  ]

  unfoldable pub process_batch : List (Str × ℕ) → Collection → Result (Unit {0}) × Collection
  process_batch [] collection = (ok tt, collection)
  process_batch (m ∷ ms) collection =
      let (done, collection') = process_message m collection in
      let rest = process_batch ms collection' in
      elim done [ ok u ↦ rest | throw x ↦ (throw x, collection') ]
