-- ===== src/Storage/Mongo/Inserts.antt =====
-- A comment that was inserted is listed for its task.
use mathlib.Core.List.{Memᴰ}
use mathlib.Core.Path.{subst}
use temp_task.Prelude.{
  ◌≡◌, refl, sym, ap, ◌∙◌, List, [], ◌∷◌, map, Option, none, some, ℤ, IsInt32, Str, Str_eq, str,
  Dict, find, ok, ◌>>=◌, bind-ok, ok_injective,
}
use temp_task.Models.{TimePoint, Reply, Comment}
use temp_task.Bson.{BsonLib, BsonLaws, string_at, int_at, time_at}
use temp_task.Storage.Mongo.{Collection, insert_comment, comments_from_bson, get_comments_by_task}
use temp_task.Storage.Mongo.Documents.{
  reply_from_bson, reply_to_bson, replies_from_bson, updated_from_bson, comment_from_bson,
  updated_entry, comment_fields, comment_to_bson,
}
use temp_task.Storage.Mongo.Laws.{CollectionLaws}

module _ (bson : BsonLib) (laws : BsonLaws bson) where
  string_at-object :
      (fields : Dict Str bson.Value) (k s : Str)
      → find k fields ≡ some (bson.of_string s)
      → string_at bson (bson.object fields) k ≡ ok s
  string_at-object fields k s found =
      rw (laws.index-object fields k (bson.of_string s) found) (laws.as_string-of_string s)

  time_at-object :
      (fields : Dict Str bson.Value) (k : Str) (t : TimePoint)
      → find k fields ≡ some (bson.of_time t)
      → time_at bson (bson.object fields) k ≡ ok (laws.rounded t)
  time_at-object fields k t found =
      rw (laws.index-object fields k (bson.of_time t) found) (laws.as_time-of_time t)

  int_at-object :
      (fields : Dict Str bson.Value) (k : Str) (z : ℤ)
      → IsInt32 z
      → find k fields ≡ some (bson.of_int z)
      → int_at bson (bson.object fields) k ≡ ok z
  int_at-object fields k z h found =
      rw (laws.index-object fields k (bson.of_int z) found) (laws.as_int-of_int z h)

  abbrev pub rounded_reply : Reply → Reply
  rounded_reply r = record r { created_at = laws.rounded r.created_at }

  abbrev pub rounded_option : Option TimePoint → Option TimePoint
  rounded_option none = none
  rounded_option (some t) = some (laws.rounded t)

  pub reply_from_bson-reply_to_bson :
      (r : Reply) → reply_from_bson bson (reply_to_bson bson r) ≡ ok (rounded_reply r)
  unfolding reply_from_bson reply_to_bson find
  reply_from_bson-reply_to_bson r = rw (
    string_at-object _ (str "author") r.author refl,
    string_at-object _ (str "text") r.text refl,
    time_at-object _ (str "created_at") r.created_at refl,
  )

  replies_from_bson-map :
      (rs : List Reply)
      → replies_from_bson bson (map (reply_to_bson bson) rs) ≡ ok (map rounded_reply rs)
  unfolding replies_from_bson
  replies_from_bson-map [] = refl
  replies_from_bson-map (r ∷ rs) = rw (reply_from_bson-reply_to_bson r, replies_from_bson-map rs)

  -- The comment that is read of a stored document.
  abbrev pub stored_comment : bson.Oid → Comment → Comment
  stored_comment o c = record c {
    id = bson.oid_text o;
    created_at = laws.rounded c.created_at;
    updated_at = rounded_option c.updated_at;
    replies = map rounded_reply c.replies;
  }

  abbrev stored_fields : bson.Oid → Comment → Dict Str bson.Value
  stored_fields o c = (str "_id", bson.of_oid o) ∷ comment_fields bson c

  updated_at-set :
      (o : bson.Oid) (c : Comment) (u : Option TimePoint)
      → (bson.has_member
            (bson.object (stored_fields o (record c { updated_at = u })))
            (str "updated_at")
          >>= updated_from_bson bson (bson.object (stored_fields o (record c { updated_at = u }))))
        ≡ ok (rounded_option u)
  unfolding comment_fields updated_entry updated_from_bson find
  updated_at-set o c none =
      ap
        (λ r.
          r
          >>= updated_from_bson bson
              (bson.object (stored_fields o (record c { updated_at = none }))))
        (laws.has_member-object (stored_fields o (record c { updated_at = none }))
          (str "updated_at"))
  updated_at-set o c (some t) =
      let fields = stored_fields o (record c { updated_at = some t }) in
      ap (λ r. r >>= updated_from_bson bson (bson.object fields))
        (laws.has_member-object fields (str "updated_at"))
      ∙ ap (λ r. r >>= λ t. ok (some t)) (time_at-object fields (str "updated_at") t refl)

  read_replies :
      (fields : Dict Str bson.Value) (rs : List Reply)
      → find (str "replies") fields ≡ some (bson.array (map (reply_to_bson bson) rs))
      → (bson.index (bson.object fields) (str "replies") >>= bson.items >>= replies_from_bson bson)
        ≡ ok (map rounded_reply rs)
  read_replies fields rs found =
      rw
        (
          laws.index-object fields (str "replies") (bson.array (map (reply_to_bson bson) rs)) found,
          laws.items-array (map (reply_to_bson bson) rs),
        )
        (replies_from_bson-map rs)

  task_id-stored :
      (o : bson.Oid) (c : Comment)
      → bson.index (bson.object (stored_fields o c)) (str "task_id") ≡ ok (bson.of_int c.task_id)
  unfolding comment_fields find
  task_id-stored o c =
      laws.index-object (stored_fields o c) (str "task_id") (bson.of_int c.task_id) refl

  pub no_id :
      (c : Comment) (u : Option TimePoint)
      → find (str "_id") (comment_fields bson (record c { updated_at = u })) ≡ none
  unfolding comment_fields updated_entry find
  no_id c none = refl
  no_id c (some t) = refl

  replies-set :
      (o : bson.Oid) (c : Comment) (u : Option TimePoint)
      → (bson.index (bson.object (stored_fields o (record c { updated_at = u }))) (str "replies")
          >>= bson.items
          >>= replies_from_bson bson)
        ≡ ok (map rounded_reply c.replies)
  unfolding comment_fields updated_entry find
  replies-set o c none =
      read_replies (stored_fields o (record c { updated_at = none })) c.replies refl
  replies-set o c (some t) =
      read_replies (stored_fields o (record c { updated_at = some t })) c.replies refl

  comment_from_bson-stored :
      (o : bson.Oid) (c : Comment)
      → IsInt32 c.task_id
      → IsInt32 c.author_id
      → comment_from_bson bson (bson.object (stored_fields o c)) ≡ ok (stored_comment o c)
  unfolding comment_from_bson comment_fields find
  comment_from_bson-stored o c task author =
      let fields = stored_fields o c in
      rw (
        laws.index-object fields (str "_id") (bson.of_oid o) refl,
        laws.as_oid-of_oid o,
        int_at-object fields (str "task_id") c.task_id task refl,
        string_at-object fields (str "author") c.author refl,
        int_at-object fields (str "author_id") c.author_id author refl,
        string_at-object fields (str "text") c.text refl,
        time_at-object fields (str "created_at") c.created_at refl,
        updated_at-set o c c.updated_at,
        replies-set o c c.updated_at,
      )

  module _ (comments : Collection bson) (mongo : CollectionLaws bson comments) where
    comments_from_bson_complete :
        (docs : List bson.Value) (found : List Comment) (d : bson.Value) (c : Comment)
        → comments_from_bson bson comments docs ≡ ok found
        → Memᴰ d docs
        → comment_from_bson bson d ≡ ok c
        → Memᴰ c found
    unfolding comments_from_bson
    comments_from_bson_complete [] found d c h m read = elim m [ ]
    comments_from_bson_complete (x ∷ docs) found d c h (Memᴰ.head e) read =
        let (a, one, h1) = bind-ok (comment_from_bson bson x) _ found h in
        let (rest, others, h2) = bind-ok (comments_from_bson bson comments docs) _ found h1 in
        subst (Memᴰ c) (ok_injective h2)
          (Memᴰ.head (ok_injective (sym read ∙ ap (comment_from_bson bson) e ∙ one)))
    comments_from_bson_complete (x ∷ docs) found d c h (Memᴰ.tail m) read =
        let (a, one, h1) = bind-ok (comment_from_bson bson x) _ found h in
        let (rest, others, h2) = bind-ok (comments_from_bson bson comments docs) _ found h1 in
        subst (Memᴰ c) (ok_injective h2)
          (Memᴰ.tail (comments_from_bson_complete docs rest d c others m read))

    -- After a comment has been inserted, a list of its task's comments has it: under an identifier of
    -- the collection's own and with its times rounded, and otherwise as it was given, its replies
    -- included. This is for a task and an author of type int.
    pub insert_comment-listed :
        (c : Comment) (db : comments.Db) (found : List Comment)
        → IsInt32 c.task_id
        → IsInt32 c.author_id
        → (insert_comment bson comments c db).0 ≡ ok tt
        → get_comments_by_task bson comments c.task_id (insert_comment bson comments c db).1
          ≡ ok found
        → (o : bson.Oid) × Memᴰ (stored_comment o c) found
    unfolding insert_comment comment_to_bson get_comments_by_task
    insert_comment-listed c db found task author done listed =
        let (o, stored) =
          mongo.insert-stores (comment_fields bson c) db (no_id c c.updated_at) done in
        let (docs, run, read) = bind-ok _ (comments_from_bson bson comments) found listed in
        let in_docs =
          mongo.find_all-complete (str "task_id") (bson.of_int c.task_id) (bson.of_int c.task_id)
            (bson.object (stored_fields o c)) _ docs run stored (task_id-stored o c)
            (mongo.Equals-refl (bson.of_int c.task_id)) in
        (
          o,
          comments_from_bson_complete docs found (bson.object (stored_fields o c))
              (stored_comment o c) read in_docs (comment_from_bson-stored o c task author),
        )
