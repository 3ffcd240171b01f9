-- ===== src/Event/Tests.antt =====
-- Events at concrete inputs, with the sample JSON library and a collection that keeps a list.
use temp_task.Prelude.{
  ℕ, zero, suc, ◌<◌, ◌≡◌, refl, List, [], ◌∷◌, arith, length, ℤ, pos, Str, str, is_int32, ok, find,
  to_string, Bool,
}
use temp_task.Prelude.Chunks.{chunk, body, read_body}
use temp_task.Json.Sample.{
  sample_json, sample_json_laws, members, text_of, number_of, mismatch, is_int64, over,
}
use temp_task.Event.{user_logged_in_payload}
use temp_task.Event.Ids.{Fits, generate_event_id, generate_event_id-Fits}
use temp_task.Event.Timestamp.{timestamp_iso}
use temp_task.Event.Producer.{KafkaProducer, Surroundings, message_text}
use temp_task.Event.Consumer.{
  get_current_timestamp_iso, EventStore, RawEvent, read_message, process_batch, raw_event,
  store_event, process_message, dispatch, process_user_logged_in,
}
use temp_task.Event.Pipeline.{
  Event, user_logged_in, type_of, payload_of, publish_event, read_message-publish_event,
}
use temp_task.Event.Batch.{IsStd, StdOnly, inserted_all, process_batch_total}

abbrev draws : ℕ → ℕ
draws zero = 15
draws (suc n) = 3

draws-lt : (n : ℕ) → draws n < 16
draws-lt zero = omega arith
draws-lt (suc n) = omega arith

event_id_test : generate_event_id draws ≡ str "f3333333-3333-4333-7333-333333333333"
unfolding generate_event_id
event_id_test = refl

generate_event_id-Fits_example :
    Fits (str "xxxxxxxx-xxxx-4xxx-yxxx-xxxxxxxxxxxx") (generate_event_id draws)
generate_event_id-Fits_example = generate_event_id-Fits draws draws-lt

abbrev now : Surroundings
now = record { event_draws = draws; trace_draws = draws; clock = 1767225600000000000 }

abbrev login_event : Event
login_event = user_logged_in (record { user_id = pos 7; login = str "ann"; ip_address = str "::1" })

abbrev login_text : Str
login_text =
    message_text sample_json now (type_of login_event) (payload_of sample_json login_event) []

-- A broker as the list of what was sent to it.
abbrev list_kafka : KafkaProducer
list_kafka = record {
  Broker = List (Str × Str × Str);
  send = λ topic key text sent. (ok tt, (topic, key, text) ∷ sent);
}

read_message-publish_event_example :
    (text : Str) × (publish_event list_kafka sample_json now login_event [] []
      ≡ (ok tt, (str "user-events", str "7", text) ∷ []))
    × (read_message sample_json text
        ≡ ok (record {
          event_id = generate_event_id draws;
          event_type = str "UserLoggedIn";
          timestamp = timestamp_iso 1767225600000000000;
          payload = payload_of sample_json login_event;
        }))
unfolding to_string
read_message-publish_event_example =
    read_message-publish_event sample_json sample_json_laws list_kafka now login_event [] []
      (omega arith)

-- A collection as the list of what was inserted.
abbrev list_store : EventStore
list_store = record {
  Bson = Str;
  Collection = List (RawEvent Str);
  from_json_string = ok;
  timestring = λ now format. ok format;
  insert_one = λ d c. (ok tt, d ∷ c);
}

unread : read_message sample_json (str "?") ≡ mismatch
unfolding read_message members
unread = refl

batch_test :
    (length (process_batch sample_json list_store ((str "?", 5) ∷ (login_text, 6) ∷ []) []).1 ≡ 1)
unfolding process_batch process_message store_event raw_event read_message message_text
    timestamp_iso user_logged_in_payload members text_of number_of chunk body read_body find
    generate_event_id dispatch process_user_logged_in get_current_timestamp_iso
batch_test = refl

module _ {A : Type 0} where
  ok-IsStd : (a : A) → IsStd (ok a)
  unfolding IsStd
  ok-IsStd a = λ e. cc

over-IsStd : {B : Type 0} (f : List (Str × Str) → B) (v : Str) → IsStd (over f (members v))
unfolding IsStd members
over-IsStd f [] = λ e. cc
over-IsStd f (tag ∷ []) = λ e. cc
over-IsStd f (tag ∷ n ∷ s) = ground arith

text_of-IsStd : (v : Str) → IsStd (text_of v)
unfolding IsStd text_of
text_of-IsStd [] = λ e. cc
text_of-IsStd (tag ∷ s) = ground arith

number_of-IsStd : (p : ℤ → Bool) (v : Str) → IsStd (number_of p v)
unfolding IsStd number_of
number_of-IsStd p [] = λ e. cc
number_of-IsStd p (tag ∷ []) = λ e. cc
number_of-IsStd p (tag ∷ a ∷ []) = λ e. cc
number_of-IsStd p (tag ∷ a ∷ b ∷ s) = ground arith

sample-StdOnly : StdOnly sample_json list_store
sample-StdOnly = record {
  from_string = λ s. ok-IsStd s;
  index = λ v k. over-IsStd _ v;
  as_string = text_of-IsStd;
  as_int = number_of-IsStd is_int32;
  as_int64 = number_of-IsStd is_int64;
  from_json_string = λ s. ok-IsStd s;
  timestring = λ now format. ok-IsStd _;
  insert_one = λ d c. ok-IsStd tt;
}

process_batch_total_example :
    process_batch sample_json list_store ((str "?", 5) ∷ (login_text, 6) ∷ []) []
    ≡ (ok tt, inserted_all sample_json list_store ((str "?", 5) ∷ (login_text, 6) ∷ []) [])
process_batch_total_example =
    process_batch_total sample_json list_store sample-StdOnly ((str "?", 5) ∷ (login_text, 6) ∷ [])
      []
