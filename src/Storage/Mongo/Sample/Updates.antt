-- ===== src/Storage/Mongo/Sample/Updates.antt =====
-- What an update of the sample collection makes of a document.
use mathlib.Core.Path.{subst}
use temp_task.Prelude.{
  ◌≡◌, ◌≢◌, refl, sym, ap, ◌∙◌, inl, inr, List, [], ◌∷◌, ◌++◌, some, Str, Str_eq, str, str_eq,
  str_eq_iff, Dict, find, assign, ok, ◌>>=◌, Bool-cases,
}
use temp_task.Json.Sample.{sample_json, or_missing}
use temp_task.Bson.Sample.{sample_bson}
use temp_task.Storage.Mongo.{by}
use temp_task.Storage.Mongo.Laws.{push_and_set}
use temp_task.Storage.Mongo.Sample.{document, updated, sample_collection}
use temp_task.Storage.Mongo.Sample.Laws.{
  index-object, find-later, find-assign_other, find-assign_same, str_ne,
}

pub document-other :
    (o k : Str) (fields : Dict Str Str)
    → k ≢ str "_id"
    → sample_json.index (document (o, fields)) k ≡ ok (or_missing (find k fields))
document-other o k fields h =
    index-object ((str "_id", 1 ∷ o) ∷ fields) k
    ∙ ap (λ v. ok (or_missing v)) (find-later (str "_id") k (1 ∷ o) fields h)

pub document-id :
    (o : Str) (fields : Dict Str Str)
    → sample_json.index (document (o, fields)) (str "_id") ≡ ok (1 ∷ o)
unfolding find
document-id o fields = index-object ((str "_id", 1 ∷ o) ∷ fields) (str "_id")

-- The members of a document after both operators.
abbrev pub pushed_fields : Str → Str → List Str → Dict Str Str → Dict Str Str
pushed_fields r t old fields =
    assign (str "updated_at") t (assign (str "replies") (sample_json.array (old ++ r ∷ [])) fields)

module _ (r t : Str) (old : List Str) (fields : Dict Str Str) where
  pub pushed-other :
      (k : Str)
      → k ≢ str "replies"
      → k ≢ str "updated_at"
      → find k (pushed_fields r t old fields) ≡ find k fields
  pushed-other k h h' =
      find-assign_other (str "updated_at") k t
        (assign (str "replies") (sample_json.array (old ++ r ∷ [])) fields) h'
      ∙ find-assign_other (str "replies") k (sample_json.array (old ++ r ∷ [])) fields h

  pub pushed-replies :
      find (str "replies") (pushed_fields r t old fields) ≡ some (sample_json.array (old ++ r ∷ []))
  pushed-replies =
      find-assign_other (str "updated_at") (str "replies") t
        (assign (str "replies") (sample_json.array (old ++ r ∷ [])) fields)
        (str_ne (str "replies") (str "updated_at") refl)
      ∙ find-assign_same (str "replies") (sample_json.array (old ++ r ∷ [])) fields

  pub document-pushed_other :
      (o k : Str)
      → k ≢ str "replies"
      → k ≢ str "updated_at"
      → sample_json.index (document (o, pushed_fields r t old fields)) k
        ≡ sample_json.index (document (o, fields)) k
  document-pushed_other o k h h' = elim (Bool-cases (str_eq k (str "_id"))) [
    | inl same ↦
        subst
          (λ j.
            sample_json.index (document (o, pushed_fields r t old fields)) j
            ≡ sample_json.index (document (o, fields)) j)
          (sym ((str_eq_iff k (str "_id")).0 same))
          (document-id o (pushed_fields r t old fields) ∙ sym (document-id o fields))
    | inr other ↦
        document-other o k (pushed_fields r t old fields) (str_ne k (str "_id") other)
        ∙ ap (λ v. ok (or_missing v)) (pushed-other k h h')
        ∙ sym (document-other o k fields (str_ne k (str "_id") other))
  ]

module _ (r t : Str) where
  abbrev pub update_text : Str
  update_text = push_and_set sample_bson sample_collection r t

  pub updated-lem :
      (o : Str) (fields : Dict Str Str)
      → updated update_text (o, fields) ≡ (
          (sample_json.index (document (o, fields)) (str "replies") >>= sample_bson.items)
          >>= λ old. ok (o, pushed_fields r t old fields))
  unfolding find
  updated-lem o fields = rw (
    index-object
        ((str "$push", by sample_bson sample_collection (str "replies") r)
          ∷ (str "$set", by sample_bson sample_collection (str "updated_at") t)
          ∷ [])
        (str "$push"),
    index-object
        ((str "$push", by sample_bson sample_collection (str "replies") r)
          ∷ (str "$set", by sample_bson sample_collection (str "updated_at") t)
          ∷ [])
        (str "$set"),
    index-object ((str "replies", r) ∷ []) (str "replies"),
    index-object ((str "updated_at", t) ∷ []) (str "updated_at"),
  )
