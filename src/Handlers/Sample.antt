-- ===== src/Handlers/Sample.antt =====
-- Sample libraries and stores for the tests: lists in place of the broker and of the collection of
-- comments, and the in-memory storage.
use temp_task.Prelude.{
  ◌≡◌, ◌≢◌, ap, ◌∙◌, refl, arith, true, IsInt32, is_int32, inl, inr, Bool-cases, List, [], ◌∷◌,
  ◌++◌, if◌then◌else◌, ◌==◌, ℤ, pos, negsuc, ℤ_eq, Str, Str_eq, str, Result, ok, throw,
  std_exception, keep_if,
}
use temp_task.Models.{Comment, Reply}
use temp_task.Json.Sample.{sample_json}
use temp_task.Auth.Sample.{sample_jwt}
use temp_task.Event.Producer.{KafkaProducer}
use temp_task.Storage.InMemory.{empty_storage}
use temp_task.Handlers.{Services, CommentStore, Request, Readings, World}
use temp_task.Handlers.Users.{initial_login_limiter}
use temp_task.Handlers.Service.{fresh_response}
use temp_task.Handlers.Memory.{on_memory}
use temp_task.Handlers.CommentLaws.{CommentLaws}

-- A broker as the list of what it was sent.
abbrev pub list_kafka : KafkaProducer
list_kafka = record { Broker = List Str; send = λ topic key message b. (ok tt, message ∷ b) }

abbrev pub task_of : Str → List Comment → ℤ
task_of id [] = pos 0
task_of id (c ∷ cs) = if c.id == id then c.task_id else task_of id cs

abbrev pub add_to : Str → Reply → List Comment → List Comment
add_to id r [] = []
add_to id r (c ∷ cs) =
    if c.id == id then record c { replies = c.replies ++ r ∷ [] } ∷ cs else c ∷ add_to id r cs

abbrev pub int_or_throw : ℤ → Result ℤ
int_or_throw z = if is_int32 z then ok z else throw (std_exception (str "no int"))

-- Comments as a list; a reply goes to the first comment of its id.
abbrev pub list_comments : CommentStore
list_comments = record {
  Documents = List Comment;
  insert_comment = λ c cs. (ok tt, cs ++ c ∷ []);
  get_comments_by_task = λ t cs. ok (keep_if (λ c. c.task_id == t) cs);
  get_task_id_by_comment_id = λ id cs. int_or_throw (task_of id cs);
  add_reply = λ id r cs. (ok tt, add_to id r cs);
}

abbrev pub sample_services : Services
sample_services = on_memory sample_json sample_jwt list_kafka list_comments (λ s. str "#" ++ s)

abbrev pub start : World sample_services
start = record {
  db = empty_storage;
  documents = [];
  broker = [];
  cache = [];
  login_limiter = initial_login_limiter;
  response = fresh_response;
}

abbrev pub at_zero : Readings
at_zero = record {
  cleaned_at = pos 0;
  pushed_at = pos 0;
  info_at = pos 0;
  read_at = pos 0;
  cached_at = pos 0;
  created_at = pos 0;
  issued_at = pos 0;
  expires_at = pos 0;
  surroundings = record { event_draws = λ n. 0; trace_draws = λ n. 0; clock = 0 };
  comment_draws = λ n. 0;
  unset = pos 0;
}

abbrev pub request_of : Str → Request
request_of body = record {
  body = body;
  client_ip = str "::1";
  request_id = str "r";
  path_arg = λ name. str "1";
  arg = λ name. [];
  user_id = ok (pos 7);
}

kept-insert :
    (c : Comment) (cs : List Comment) (t : ℤ)
    → t ≢ c.task_id
    → keep_if (λ (c' : Comment). c'.task_id == t) (cs ++ c ∷ [])
      ≡ keep_if (λ (c' : Comment). c'.task_id == t) cs
kept-insert c [] t h = ground (arith, ℤ_eq.beq_iff c.task_id t)
kept-insert c (c' ∷ cs) t h = ground (arith, kept-insert c cs t h)

kept-add_to :
    (id : Str) (r : Reply) (cs : List Comment) (t : ℤ)
    → t ≢ task_of id cs
    → keep_if (λ (c' : Comment). c'.task_id == t) (add_to id r cs)
      ≡ keep_if (λ (c' : Comment). c'.task_id == t) cs
kept-add_to id r [] t h = refl
kept-add_to id r (c ∷ cs) t h = elim (Bool-cases (c.id == id)) [
  | inl same ↦ ground (arith, ℤ_eq.beq_iff c.task_id t)
  | inr other ↦ ground (arith, kept-add_to id r cs t)
]

int_or_throw-ok : (z t : ℤ) → int_or_throw z ≡ ok t → (z ≡ t) × (is_int32 t ≡ true)
int_or_throw-ok z t h = ground arith

int_of : (z : ℤ) → is_int32 z ≡ true → IsInt32 z
int_of (pos n) h = ground arith
int_of (negsuc n) h = ground arith

-- The list of comments meets the laws of a comment store.
pub sample-CommentLaws : CommentLaws sample_services
sample-CommentLaws = record {
  insert-other = λ c d task h. ap ok (kept-insert c d task h);
  insert-throw = λ c d e task h. absurd (cc);
  task_id-IsInt32 = λ id d t h. int_of t (int_or_throw-ok (task_of id d) t h).1;
  reply-other = λ id r d t task is known h.
      ap ok (kept-add_to id r d task (λ e. h (e ∙ (int_or_throw-ok (task_of id d) t is).0)));
  reply-throw = λ id r d e task h. absurd (cc);
  send-std = λ topic key message b h. cc;
}
