-- ===== src/Storage/Mongo/TaskIds.antt =====
-- The task of a comment, as GetTaskIdByCommentId finds it.
use temp_task.Prelude.{
  ◌≡◌, ◌≢◌, refl, sym, ap, ◌∙◌, ◌⊎◌, inl, inr, Option, none, some, ℤ, negsuc, Str, str, Result, ok,
  throw, Exception, token_verification, invalid_argument, out_of_range, std_exception, foreign,
  ◌>>=◌, bind-ok, ok_injective,
}
use temp_task.Bson.{BsonLib, int_at}
use temp_task.Storage.Mongo.{Collection, by, or_minus_one, task_id_of, get_task_id_by_comment_id}

-- What the libraries throw derives from std::exception.
pub record StdOnly (bson : BsonLib) (comments : Collection bson) : Type 0 where
  pub oid : (s : Str) → bson.oid s ≢ throw foreign
  pub index : (v : bson.Value) (k : Str) → bson.index v k ≢ throw foreign
  pub as_int : (v : bson.Value) → bson.as_int v ≢ throw foreign
  pub find_one : (f : bson.Value) (db : comments.Db) → comments.find_one f db ≢ throw foreign

or_minus_one-ok : (r : Result ℤ) (t : ℤ) → or_minus_one r ≡ ok t → (r ≡ ok t) ⊎ (t ≡ negsuc 0)
or_minus_one-ok (ok z) t h = inl h
or_minus_one-ok (throw (token_verification s)) t h = inr (sym (ok_injective h))
or_minus_one-ok (throw (invalid_argument s)) t h = inr (sym (ok_injective h))
or_minus_one-ok (throw (out_of_range s)) t h = inr (sym (ok_injective h))
or_minus_one-ok (throw (std_exception s)) t h = inr (sym (ok_injective h))
or_minus_one-ok (throw foreign) t h = absurd (cc)

or_minus_one-returns : (r : Result ℤ) → r ≢ throw foreign → (t : ℤ) × (or_minus_one r ≡ ok t)
or_minus_one-returns (ok z) h = (z, refl)
or_minus_one-returns (throw (token_verification s)) h = (negsuc 0, refl)
or_minus_one-returns (throw (invalid_argument s)) h = (negsuc 0, refl)
or_minus_one-returns (throw (out_of_range s)) h = (negsuc 0, refl)
or_minus_one-returns (throw (std_exception s)) h = (negsuc 0, refl)
or_minus_one-returns (throw foreign) h = absurd (h refl)

pub foreign_of_throw {ℓ} :
    {A : Type ℓ} (e : Exception) → ◌≡◌ {A = Result A} (throw e) (throw foreign) → e ≡ foreign
foreign_of_throw e eq = cc

pub bind-std {ℓ κ} :
    {A : Type ℓ} {B : Type κ} (r : Result A) (next : A → Result B)
    → r ≢ throw foreign
    → ((a : A) → next a ≢ throw foreign)
    → (r >>= next) ≢ throw foreign
bind-std (ok a) next h later e = later a e
bind-std (throw e) next h later eq = h (ap throw (foreign_of_throw e eq))

module _ (bson : BsonLib) (comments : Collection bson) where
  -- The document that FindOne gives for an identifier, and the number in it.
  abbrev pub IsTaskOf : ℤ → Str → comments.Db → Type 0
  IsTaskOf t id db =
      (o : bson.Oid) × (d : bson.Value) × (bson.oid id ≡ ok o)
      × (comments.find_one (by bson comments (str "_id") (bson.of_oid o)) db ≡ ok (some d))
      × (int_at bson d (str "task_id") ≡ ok t)

  task_id_of-some :
      (doc : Option bson.Value) (t : ℤ)
      → task_id_of bson comments doc ≡ ok t
      → ((d : bson.Value) × (doc ≡ some d) × (int_at bson d (str "task_id") ≡ ok t))
        ⊎ (t ≡ negsuc 0)
  unfolding task_id_of
  task_id_of-some none t h = inr (sym (ok_injective h))
  task_id_of-some (some d) t h = elim (or_minus_one-ok (int_at bson d (str "task_id")) t h) [
    | inl read ↦ inl (d, refl, read)
    | inr e ↦ inr e
  ]

  -- Whatever GetTaskIdByCommentId gives is the number of the comment's document, or -1.
  pub task_id_sound :
      (id : Str) (db : comments.Db) (t : ℤ)
      → get_task_id_by_comment_id bson comments id db ≡ ok t
      → IsTaskOf t id db ⊎ (t ≡ negsuc 0)
  unfolding get_task_id_by_comment_id
  task_id_sound id db t h = elim (or_minus_one-ok _ t h) [
    | inr e ↦ inr e
    | inl read ↦
        let (o, is_oid, h1) = bind-ok (bson.oid id) _ t read in
        let (doc, run, h2) =
          bind-ok (comments.find_one (by bson comments (str "_id") (bson.of_oid o)) db)
            (task_id_of bson comments) t h1 in
        elim (task_id_of-some doc t h2) [
          | inl (d, is_doc, n) ↦ inl (o, d, is_oid, run ∙ ap ok is_doc, n)
          | inr e ↦ inr e
        ]
  ]

  task_id_of-std :
      (std : StdOnly bson comments) (doc : Option bson.Value)
      → task_id_of bson comments doc ≢ throw foreign
  unfolding task_id_of
  task_id_of-std std none h = cc
  task_id_of-std std (some d) h =
      let (t, e) = or_minus_one-returns (int_at bson d (str "task_id")) (
        bind-std (bson.index d (str "task_id")) bson.as_int (std.index d (str "task_id"))
          std.as_int) in
      ok-ne-throw t (sym e ∙ h)
    where
      ok-ne-throw : (t : ℤ) → ◌≡◌ {A = Result ℤ} (ok t) (throw foreign) → ⊥
      ok-ne-throw t h = cc

  -- GetTaskIdByCommentId always gives a number, whatever the text and the collection: that of the
  -- document that FindOne gives for the identifier, or -1. This is where the libraries throw nothing but
  -- what derives from std::exception.
  pub get_task_id_by_comment_id_total :
      (std : StdOnly bson comments) (id : Str) (db : comments.Db)
      → (t : ℤ) × (get_task_id_by_comment_id bson comments id db ≡ ok t)
        × (IsTaskOf t id db ⊎ (t ≡ negsuc 0))
  unfolding get_task_id_by_comment_id
  get_task_id_by_comment_id_total std id db =
      let (t, e) = or_minus_one-returns _ (
        bind-std (bson.oid id) _ (std.oid id) (λ o.
          bind-std (comments.find_one (by bson comments (str "_id") (bson.of_oid o)) db)
            (task_id_of bson comments)
            (std.find_one (by bson comments (str "_id") (bson.of_oid o)) db)
            (task_id_of-std std))) in
      (t, e, task_id_sound id db t e)
