-- ===== src/Storage/Mongo/Replies.antt =====
-- A reply that was added is read back with its comment.
use temp_task.Prelude.{
  ◌≡◌, ◌≢◌, refl, sym, ap, ◌∙◌, List, [], ◌∷◌, ◌++◌, Option, none, some, arith, Str, str, str_eq,
  str_eq_iff, false, ok, ◌>>=◌, bind-ok, ok_injective,
}
use temp_task.Models.{TimePoint, Reply, Comment}
use temp_task.Bson.{BsonLib, BsonLaws, string_at, int_at, time_at}
use temp_task.Storage.Mongo.{
  Collection, by, push_reply, with_oid, add_reply, found_comment, get_comment_by_id,
}
use temp_task.Storage.Mongo.Documents.{
  reply_from_bson, reply_to_bson, replies_from_bson, updated_from_bson, comment_from_bson,
}
use temp_task.Storage.Mongo.Laws.{CollectionLaws, Pushed}
use temp_task.Storage.Mongo.Inserts.{rounded_reply, reply_from_bson-reply_to_bson}

str_ne : (s t : Str) → str_eq s t ≡ false → s ≢ t
str_ne s t h e = ground (arith, str_eq_iff s t)

module _ (bson : BsonLib) (laws : BsonLaws bson) where
  replies_from_bson-append :
      (vs : List bson.Value) (rs : List Reply) (r : Reply)
      → replies_from_bson bson vs ≡ ok rs
      → replies_from_bson bson (vs ++ reply_to_bson bson r ∷ [])
        ≡ ok (rs ++ rounded_reply bson laws r ∷ [])
  unfolding replies_from_bson
  replies_from_bson-append [] rs r h =
      rw (reply_from_bson-reply_to_bson bson laws r)
        (ap (λ rest. ok (rest ++ rounded_reply bson laws r ∷ [])) (ok_injective h))
  replies_from_bson-append (v ∷ vs) rs r h =
      let (a, one, h1) = bind-ok (reply_from_bson bson v) _ rs h in
      let (rest, others, h2) = bind-ok (replies_from_bson bson vs) _ rs h1 in
      rw (one, replies_from_bson-append vs rest r others)
        (ap (λ rest. ok (rest ++ rounded_reply bson laws r ∷ [])) (ok_injective h2))

  stays :
      (now : TimePoint) (r : Reply) (d d' : bson.Value) (vs : List bson.Value)
      → Pushed bson (reply_to_bson bson r) (bson.of_time now) d d' vs
      → (k : Str) → str_eq k (str "replies") ≡ false
      → str_eq k (str "updated_at") ≡ false
      → bson.index d' k ≡ bson.index d k
  stays now r d d' vs done k replies updated =
      done.others k (str_ne k (str "replies") replies) (str_ne k (str "updated_at") updated)

  -- The comment of a document that a reply was pushed to.
  abbrev pub replied : TimePoint → Reply → Comment → Comment
  replied now r c = record c {
    updated_at = some (laws.rounded now);
    replies = c.replies ++ rounded_reply bson laws r ∷ [];
  }

  -- What is read of each member of a document.
  record ReadsTo (d : bson.Value) (c : Comment) : Type 0 where
    oid : bson.Oid
    listed : List bson.Value
    id_read : (bson.index d (str "_id") >>= bson.as_oid) ≡ ok oid
    is_id : bson.oid_text oid ≡ c.id
    task_id_read : int_at bson d (str "task_id") ≡ ok c.task_id
    author_read : string_at bson d (str "author") ≡ ok c.author
    author_id_read : int_at bson d (str "author_id") ≡ ok c.author_id
    text_read : string_at bson d (str "text") ≡ ok c.text
    created_at_read : time_at bson d (str "created_at") ≡ ok c.created_at
    replies_listed : (bson.index d (str "replies") >>= bson.items) ≡ ok listed
    replies_read : replies_from_bson bson listed ≡ ok c.replies

  comment_from_bson-ReadsTo :
      (d : bson.Value) (c : Comment) → comment_from_bson bson d ≡ ok c → ReadsTo d c
  unfolding comment_from_bson
  comment_from_bson-ReadsTo d c read =
      let (id, e1, h1) = bind-ok (bson.index d (str "_id") >>= bson.as_oid) _ c read in
      let (task_id, e2, h2) = bind-ok (int_at bson d (str "task_id")) _ c h1 in
      let (author, e3, h3) = bind-ok (string_at bson d (str "author")) _ c h2 in
      let (author_id, e4, h4) = bind-ok (int_at bson d (str "author_id")) _ c h3 in
      let (text, e5, h5) = bind-ok (string_at bson d (str "text")) _ c h4 in
      let (created_at, e6, h6) = bind-ok (time_at bson d (str "created_at")) _ c h5 in
      let (updated_at, e7, h7) =
        bind-ok (bson.has_member d (str "updated_at") >>= updated_from_bson bson d) _ c h6 in
      let (replies, e8, h8) =
        bind-ok (bson.index d (str "replies") >>= bson.items >>= replies_from_bson bson) _ c h7 in
      let (vs, e9, h9) =
        bind-ok (bson.index d (str "replies") >>= bson.items) (replies_from_bson bson) replies e8 in
      let same = ok_injective h8 in
      record {
        oid = id;
        listed = vs;
        id_read = e1;
        is_id = ap (λ x. x.id) same;
        task_id_read = e2 ∙ ap (λ x. ok x.task_id) same;
        author_read = e3 ∙ ap (λ x. ok x.author) same;
        author_id_read = e4 ∙ ap (λ x. ok x.author_id) same;
        text_read = e5 ∙ ap (λ x. ok x.text) same;
        created_at_read = e6 ∙ ap (λ x. ok x.created_at) same;
        replies_listed = e9;
        replies_read = h9 ∙ ap (λ x. ok x.replies) same;
      }

  comment_from_bson-Pushed :
      (now : TimePoint) (r : Reply) (d d' : bson.Value) (c : Comment) (parts : ReadsTo d c)
      → Pushed bson (reply_to_bson bson r) (bson.of_time now) d d' parts.listed
      → comment_from_bson bson d' ≡ ok (replied now r c)
  unfolding comment_from_bson updated_from_bson
  comment_from_bson-Pushed now r d d' c parts done =
      let vs = parts.listed in
      rw
        (
          stays now r d d' vs done (str "_id") refl refl,
          parts.id_read,
          stays now r d d' vs done (str "task_id") refl refl,
          parts.task_id_read,
          stays now r d d' vs done (str "author") refl refl,
          parts.author_read,
          stays now r d d' vs done (str "author_id") refl refl,
          parts.author_id_read,
          stays now r d d' vs done (str "text") refl refl,
          parts.text_read,
          stays now r d d' vs done (str "created_at") refl refl,
          parts.created_at_read,
          done.present,
          done.set_to,
          laws.as_time-of_time now,
          done.pushed,
          replies_from_bson-append vs c.replies r parts.replies_read,
        )
        (ap (λ i. ok (record (replied now r c) { id = i })) parts.is_id)

  module _ (comments : Collection bson) (mongo : CollectionLaws bson comments) where
    found_some :
        (doc : Option bson.Value) (c : Comment)
        → found_comment bson comments doc ≡ ok (some c)
        → (d : bson.Value) × (doc ≡ some d) × (comment_from_bson bson d ≡ ok c)
    unfolding found_comment
    found_some none c h = absurd (cc)
    found_some (some d) c h =
        let (a, read, same) = bind-ok (comment_from_bson bson d) _ (some c) h in
        (d, refl, read ∙ ap ok (cc same))

    add_reply-ok :
        (now : TimePoint) (id : Str) (o : bson.Oid) (r : Reply) (db : comments.Db)
        → bson.oid id ≡ ok o
        → add_reply bson comments now id r db
          ≡ comments.update_one
              (by bson comments (str "_id") (bson.of_oid o))
              (push_reply bson comments now r)
              db
    unfolding add_reply
    add_reply-ok now id o r db h =
        ap
          (λ t. with_oid bson comments t db (λ o.
            comments.update_one (by bson comments (str "_id") (bson.of_oid o))
              (push_reply bson comments now r) db))
          h

    -- After a reply has been added to a comment that is found under an identifier, that comment is found
    -- with the reply last, its time rounded, and with the time of the addition, rounded, as its
    -- time of change; all else of it is as it was.
    pub get_comment_by_id-add_reply :
        (now : TimePoint) (id : Str) (r : Reply) (db : comments.Db) (c : Comment)
        → get_comment_by_id bson comments id db ≡ ok (some c)
        → (add_reply bson comments now id r db).0 ≡ ok tt
        → get_comment_by_id bson comments id (add_reply bson comments now id r db).1
          ≡ ok (some (replied now r c))
    unfolding get_comment_by_id found_comment
    get_comment_by_id-add_reply now id r db c before done =
        let (o, is_oid, h1) = bind-ok (bson.oid id) _ (some c) before in
        let (doc, run, h2) =
          bind-ok (comments.find_one (by bson comments (str "_id") (bson.of_oid o)) db) _ (some c)
            h1 in
        let (d, is_doc, read) = found_some doc c h2 in
        let parts = comment_from_bson-ReadsTo d c read in
        let same = add_reply-ok now id o r db is_oid in
        let (d', found, pushed) =
          mongo.update-sets o (reply_to_bson bson r) (bson.of_time now) d parts.listed db
            (run ∙ ap ok is_doc) parts.replies_listed (sym (ap (λ t. t.0) same) ∙ done) in
        rw (is_oid, same, found, comment_from_bson-Pushed now r d d' c parts pushed)
