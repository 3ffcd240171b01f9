-- ===== src/Event/Batch.antt =====
-- A batch of messages: one that cannot be read or stored stops neither the loop nor the others.
use temp_task.Prelude.{
  ℕ, ◌≡◌, ◌≢◌, refl, ap, ◌∙◌, List, [], ◌∷◌, ◌++◌, Str, Result, ok, throw, Exception,
  token_verification, invalid_argument, out_of_range, std_exception, foreign, arith, Result-cases,
  inl, inr, ◌>>=◌,
}
use temp_task.Json.{JsonLib, string_at, int_at, int64_at}
use temp_task.Event.Producer.{catch_std}
use temp_task.Event.Consumer.{
  get_current_timestamp_iso, EventStore, Envelope, RawEvent, read_message, raw_event, store_event,
  process_message, process_batch, process_user_registered, process_user_logged_in,
  process_project_created, process_task_created, process_comment_added, dispatch,
}

pub catch_std-throw : (e : Exception) → e ≢ foreign → catch_std (throw e) ≡ ok tt
catch_std-throw (token_verification m) h = refl
catch_std-throw (invalid_argument m) h = refl
catch_std-throw (out_of_range m) h = refl
catch_std-throw (std_exception m) h = refl
catch_std-throw foreign h = absurd (h refl)

-- No call throws what is not a std::exception.
unfoldable pub IsStd {ℓ} : {A : Type ℓ} → Result A → Type ℓ
IsStd r = r ≢ throw foreign

module _ (json : JsonLib) (store : EventStore) where
  open json use {Value, to_text}
  open store use {Bson, Collection, from_json_string, insert_one}

  -- A message that cannot be read, because it is no JSON or lacks a member of its type, leaves the
  -- collection as it was.
  process_message_unread :
      (m : Str) (now : ℕ) (c : Collection) (e : Exception)
      → e ≢ foreign
      → read_message json m ≡ throw e
      → process_message json store (m, now) c ≡ (ok tt, c)
  unfolding process_message
  process_message_unread m now c e h unread = rw (unread, process_message, catch_std-throw e h)

  -- In any batch, a message that cannot be read counts for nothing: the batch does, with it and
  -- without it, the same to the collection and ends the same way.
  pub process_batch_unread :
      (ms later : List (Str × ℕ)) (bad : Str) (now : ℕ) (c : Collection) (e : Exception)
      → e ≢ foreign
      → read_message json bad ≡ throw e
      → process_batch json store (ms ++ (bad, now) ∷ later) c
        ≡ process_batch json store (ms ++ later) c
  unfolding process_batch
  process_batch_unread [] later bad now c e h unread =
      ground (arith, process_message_unread bad now c e h unread)
  process_batch_unread (m ∷ ms) later bad now c e h unread =
      ground
        (arith, process_batch_unread ms later bad now (process_message json store m c).1 e h unread)

bind-IsStd {ℓ κ} :
    {A : Type ℓ} {B : Type κ} (m : Result A) (f : A → Result B)
    → IsStd m
    → ((a : A) → IsStd (f a))
    → IsStd (m >>= f)
unfolding IsStd
bind-IsStd (ok a) f h k = k a
bind-IsStd (throw e) f h k = λ eq. h (cc)

catch_std_caught {ℓ} :
    {A : Type ℓ} (r : Result A) (e : Exception)
    → IsStd r
    → r ≡ throw e
    → catch_std (throw e) ≡ ok tt
unfolding IsStd
catch_std_caught r e h eq = catch_std-throw e (λ f. h (eq ∙ ap throw f))

ok-IsStd {ℓ} : {A : Type ℓ} (a : A) → IsStd (ok a)
unfolding IsStd
ok-IsStd a = λ eq. cc

-- What the libraries throw derives from std::exception.
pub record StdOnly (json : JsonLib) (store : EventStore) : Type 0 where
  pub from_string : (s : Str) → IsStd (json.from_string s)
  pub index : (v : json.Value) (k : Str) → IsStd (json.index v k)
  pub as_string : (v : json.Value) → IsStd (json.as_string v)
  pub as_int : (v : json.Value) → IsStd (json.as_int v)
  pub as_int64 : (v : json.Value) → IsStd (json.as_int64 v)
  pub from_json_string : (s : Str) → IsStd (store.from_json_string s)
  pub timestring : (now : ℕ) (format : Str) → IsStd (store.timestring now format)
  pub insert_one : (d : RawEvent store.Bson) (c : store.Collection) → IsStd (store.insert_one d c).0

module _ (json : JsonLib) (store : EventStore) where
  -- What a message does to the collection, without any exceptions: it is inserted if it can be read
  -- and converted, and nothing happens otherwise.
  abbrev pub inserted : Str × ℕ → store.Collection → store.Collection
  inserted (m, now) c = elim (read_message json m) [
    | ok e ↦ elim (raw_event json store now e) [ ok doc ↦ (store.insert_one doc c).1 | throw x ↦ c ]
    | throw x ↦ c
  ]

  abbrev pub inserted_all : List (Str × ℕ) → store.Collection → store.Collection
  inserted_all [] c = c
  inserted_all (m ∷ ms) c = inserted_all ms (inserted m c)

module _ (json : JsonLib) (store : EventStore) (std : StdOnly json store) where
  string_at-IsStd : (v : json.Value) (k : Str) → IsStd (string_at json v k)
  string_at-IsStd v k = bind-IsStd (json.index v k) json.as_string (std.index v k) std.as_string

  int_at-IsStd : (v : json.Value) (k : Str) → IsStd (int_at json v k)
  int_at-IsStd v k = bind-IsStd (json.index v k) json.as_int (std.index v k) std.as_int

  int64_at-IsStd : (v : json.Value) (k : Str) → IsStd (int64_at json v k)
  int64_at-IsStd v k = bind-IsStd (json.index v k) json.as_int64 (std.index v k) std.as_int64

  ruleset reads = (bind-IsStd, ok-IsStd, string_at-IsStd, int_at-IsStd, int64_at-IsStd)

  process_user_registered-IsStd : (v : json.Value) → IsStd (process_user_registered json v)
  unfolding process_user_registered
  process_user_registered-IsStd v = search reads depth 14

  process_user_logged_in-IsStd : (v : json.Value) → IsStd (process_user_logged_in json v)
  unfolding process_user_logged_in
  process_user_logged_in-IsStd v = search reads depth 14

  process_project_created-IsStd : (v : json.Value) → IsStd (process_project_created json v)
  unfolding process_project_created
  process_project_created-IsStd v = search reads depth 14

  process_task_created-IsStd : (v : json.Value) → IsStd (process_task_created json v)
  unfolding process_task_created
  process_task_created-IsStd v = search reads depth 14

  process_comment_added-IsStd : (v : json.Value) → IsStd (process_comment_added json v)
  unfolding process_comment_added
  process_comment_added-IsStd v = search reads depth 14

  dispatch-IsStd : (event_type : Str) (v : json.Value) → IsStd (dispatch json event_type v)
  unfolding dispatch
  dispatch-IsStd event_type v = ground (
    arith,
    process_user_registered-IsStd v,
    process_user_logged_in-IsStd v,
    process_project_created-IsStd v,
    process_task_created-IsStd v,
    process_comment_added-IsStd v,
    ok-IsStd {0} tt,
  )

  read_message-IsStd : (m : Str) → IsStd (read_message json m)
  unfolding read_message
  read_message-IsStd m = search (reads, std.from_string, std.index, dispatch-IsStd) depth 14

  raw_event-IsStd : (now : ℕ) (e : Envelope json.Value) → IsStd (raw_event json store now e)
  unfolding raw_event get_current_timestamp_iso
  raw_event-IsStd now e = search (reads, std.from_json_string, std.timestring) depth 14

  catch_std-IsStd : (r : Result (Unit {0})) → IsStd r → catch_std r ≡ ok tt
  unfolding IsStd
  catch_std-IsStd (ok u) h = refl
  catch_std-IsStd (throw e) h = catch_std-throw e (λ eq. h (ap throw eq))

  store_event-eq :
      (now : ℕ) (e : Envelope json.Value) (c : store.Collection)
      → store_event json store now e c ≡ (
        ok tt,
        elim (raw_event json store now e) [ ok doc ↦ (store.insert_one doc c).1 | throw x ↦ c ],
      )
  unfolding store_event
  store_event-eq now e c = elim (Result-cases (raw_event json store now e)) [
    | inl (doc, read) ↦
        ground (arith, catch_std-IsStd (store.insert_one doc c).0 (std.insert_one doc c))
    | inr (x, thrown) ↦
        ground
          (arith, catch_std_caught (raw_event json store now e) x (raw_event-IsStd now e) thrown)
  ]

  process_message-eq :
      (m : Str) (now : ℕ) (c : store.Collection)
      → process_message json store (m, now) c ≡ (ok tt, inserted json store (m, now) c)
  unfolding process_message
  process_message-eq m now c = elim (Result-cases (read_message json m)) [
    | inl (e, read) ↦ ground (arith, store_event-eq now e c)
    | inr (x, thrown) ↦
        ground (arith, catch_std_caught (read_message json m) x (read_message-IsStd m) thrown)
  ]

  -- Every batch is processed to its end, whatever its messages are, and the collection is then as if
  -- each message that could be read and converted had been inserted in turn, with the reading of the clock
  -- that was made for it. The libraries may throw,
  -- as long as what they throw derives from std::exception.
  pub process_batch_total :
      (ms : List (Str × ℕ)) (c : store.Collection)
      → process_batch json store ms c ≡ (ok tt, inserted_all json store ms c)
  unfolding process_batch
  process_batch_total [] c = refl
  process_batch_total ((m, now) ∷ ms) c =
      ground
        (arith, process_message-eq m now c, process_batch_total ms (inserted json store (m, now) c))
