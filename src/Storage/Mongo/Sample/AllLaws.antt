-- ===== src/Storage/Mongo/Sample/AllLaws.antt =====
-- The updates of the sample collection meet the laws, and so does the collection.
use temp_task.Prelude.{
  ℤ, sub_ℕ, pos_part, neg_part, is_int32, ◌≡◌, ◌≢◌, refl, sym, ap, ◌∙◌, inl, inr, Bool, true, false,
  List, [], ◌∷◌, ◌++◌, Option, none, some, if◌then◌else◌, Str, Str_eq, str, Dict, assign, Result,
  ok, throw, Exception, ◌>>=◌, bind-ok, ok_injective, Bool-cases, Result-cases, is_some,
}
use temp_task.Json.Sample.{sample_json, sub_ℕ-parts, number_of, mismatch, or_missing}
use temp_task.Bson.Sample.{sample_bson, sample_bson_laws}
use temp_task.Storage.Mongo.{by}
use temp_task.Storage.Mongo.Laws.{CollectionLaws, Pushed}
use temp_task.Storage.Mongo.Sample.{
  Stored, document, all_documents, is_value, meets, updated, changed, kept_on_throw, update_one,
  find_all, find_one, sample_collection, find_all-by, find_one-by, update_one-by, filter_of,
}
use temp_task.Storage.Mongo.Sample.Laws.{
  find-later, find-assign_same, str_ne, matching_none, find_all_complete, insert_stores,
  insert_other,
}
use temp_task.Storage.Mongo.Sample.Updates.{
  document-other, document-id, pushed_fields, pushed-replies, document-pushed_other, update_text,
  updated-lem,
}

found_stored :
    (db : Option Stored) (k v d : Str)
    → find_one (by sample_bson sample_collection k v) db ≡ ok (some d)
    → (s : Stored) × (db ≡ some s) × (meets (k, v) s ≡ true) × (document s ≡ d)
found_stored none k v d h = absurd (none-ne-some d (ok_injective (sym (find_one-by k v none) ∙ h)))
  where
    none-ne-some : (d : Str) → none ≡ some d → ⊥
    none-ne-some d e = cc
found_stored (some s) k v d h = elim (Bool-cases (meets (k, v) s)) [
  | inl met ↦ (
    s,
    refl,
    met,
    hit s (meets (k, v) s) d met (ok_injective (sym (find_one-by k v (some s)) ∙ h)),
  )
  | inr missed ↦
      absurd (miss s (meets (k, v) s) d missed (ok_injective (sym (find_one-by k v (some s)) ∙ h)))
]
  where
    hit :
        (s : Stored) (b : Bool) (d : Str)
        → b ≡ true
        → (if b then some (document s) else none) ≡ some d
        → document s ≡ d
    hit s true d e h = cc
    hit s false d e h = absurd (cc)

    miss :
        (s : Stored) (b : Bool) (d : Str)
        → b ≡ false
        → (if b then some (document s) else none) ≡ some d
        → ⊥
    miss s true d e h = absurd (cc)
    miss s false d e h = cc

update_one-hit :
    (k v u : Str) (db : Option Stored) (s : Stored)
    → db ≡ some s
    → meets (k, v) s ≡ true
    → update_one (by sample_bson sample_collection k v) u db
      ≡ kept_on_throw (some s) (updated u s >>= λ s'. ok (some s'))
update_one-hit k v u db s is met =
    ap (update_one (by sample_bson sample_collection k v) u) is
    ∙ update_one-by k v u (some s)
    ∙ ap
        (λ b.
          kept_on_throw (some s) (if b then (updated u s >>= λ s'. ok (some s')) else ok (some s)))
        met

update_throw :
    (f u : Str) (db : Option Stored) (e : Exception)
    → (update_one f u db).0 ≡ throw e
    → (update_one f u db).1 ≡ db
unfolding update_one
update_throw f u db e h = kept (filter_of f >>= changed u db) h
  where
    kept :
        (r : Result (Option Stored))
        → (kept_on_throw db r).0 ≡ throw e
        → (kept_on_throw db r).1 ≡ db
    kept (ok db') h = absurd (cc)
    kept (throw e') h = refl

updated-pushed :
    (r t : Str) (o : Str) (fields : Dict Str Str) (s' : Stored)
    → updated (update_text r t) (o, fields) ≡ ok s'
    → (old : List Str) × ((sample_json.index (document (o, fields)) (str "replies")
          >>= sample_bson.items)
        ≡ ok old)
      × (s' ≡ (o, pushed_fields r t old fields))
updated-pushed r t o fields s' h =
    let (old, read, same) =
      bind-ok (sample_json.index (document (o, fields)) (str "replies") >>= sample_bson.items) _ s'
        (sym (updated-lem r t o fields) ∙ h) in
    (old, read, sym (ok_injective same))

update_other :
    (o : Str) (r t : Str) (k v w d : Str) (db : Option Stored)
    → find_one (by sample_bson sample_collection (str "_id") (1 ∷ o)) db ≡ ok (some d)
    → k ≢ str "replies"
    → k ≢ str "updated_at"
    → sample_json.index d k ≡ ok w
    → (w ≡ v → ⊥)
    → find_all
        (by sample_bson sample_collection k v)
        (update_one (by sample_bson sample_collection (str "_id") (1 ∷ o)) (update_text r t) db).1
      ≡ find_all (by sample_bson sample_collection k v) db
update_other o r t k v w d db found h h' at differs =
    let ((o', fields), is, met, doc) = found_stored db (str "_id") (1 ∷ o) d found in
    let ran = update_one-hit (str "_id") (1 ∷ o) (update_text r t) db (o', fields) is met in
    let before = ap (λ x. sample_json.index x k) doc ∙ at in
    ap (λ x. find_all (by sample_bson sample_collection k v) x.1) ran
    ∙ elim (Result-cases (updated (update_text r t) (o', fields))) [
      | inr (e, failed) ↦
          ap
            (λ x.
              find_all (by sample_bson sample_collection k v)
                (kept_on_throw (some (o', fields)) (x >>= λ s'. ok (some s'))).1)
            failed
      | inl (s', done) ↦
          let (old, read, same) = updated-pushed r t o' fields s' done in
          ap
            (λ x.
              find_all (by sample_bson sample_collection k v)
                (kept_on_throw (some (o', fields)) (x >>= λ s'. ok (some s'))).1)
            (done ∙ ap ok same)
          ∙ find_all-by k v (some (o', pushed_fields r t old fields))
          ∙ ap ok (
              matching_none (o', pushed_fields r t old fields) k v w
                (document-pushed_other r t old fields o' k h h' ∙ before) differs)
          ∙ ap ok (sym (matching_none (o', fields) k v w before differs))
          ∙ sym (find_all-by k v (some (o', fields)))
    ]
    ∙ ap (find_all (by sample_bson sample_collection k v)) (sym is)

Pushed-after :
    (r t : Str) (o : Str) (fields : Dict Str Str) (d : Str) (old : List Str)
    → document (o, fields) ≡ d
    → Pushed sample_bson r t d (document (o, pushed_fields r t old fields)) old
Pushed-after r t o fields d old doc =
    let after = pushed_fields r t old fields in
    let set_at =
      find-assign_same (str "updated_at") t
        (assign (str "replies") (sample_json.array (old ++ r ∷ [])) fields) in
    record {
      pushed =
          ap (λ x. x >>= sample_bson.items)
            (document-other o (str "replies") after (str_ne (str "replies") (str "_id") refl)
              ∙ ap (λ v. ok (or_missing v)) (pushed-replies r t old fields))
          ∙ sample_bson_laws.items-array (old ++ r ∷ []);
      present =
          sample_bson_laws.has_member-object ((str "_id", 1 ∷ o) ∷ after) (str "updated_at")
          ∙ ap (λ v. ok (is_some v))
              (find-later (str "_id") (str "updated_at") (1 ∷ o) after
                  (str_ne (str "updated_at") (str "_id") refl)
                ∙ set_at);
      set_to =
          document-other o (str "updated_at") after (str_ne (str "updated_at") (str "_id") refl)
          ∙ ap (λ v. ok (or_missing v)) set_at;
      others = λ k h h'.
          document-pushed_other r t old fields o k h h' ∙ ap (λ x. sample_json.index x k) doc;
    }

of_int_injective : (a b : ℤ) → sample_bson.of_int a ≡ sample_bson.of_int b → a ≡ b
of_int_injective a b h = sym (sub_ℕ-parts a) ∙ parts_eq h ∙ sub_ℕ-parts b
  where
    parts_eq :
        sample_bson.of_int a ≡ sample_bson.of_int b
        → sub_ℕ (pos_part a) (neg_part a) ≡ sub_ℕ (pos_part b) (neg_part b)
    parts_eq h = cc

as_int-of_int_eq :
    (v : Str) (a b : ℤ) → sample_bson.as_int v ≡ ok a → v ≡ sample_bson.of_int b → a ≡ b
unfolding number_of
as_int-of_int_eq v a b h e =
    sym (read_back (is_int32 (sub_ℕ (pos_part b) (neg_part b))) (ap sample_bson.as_int (sym e) ∙ h))
    ∙ sub_ℕ-parts b
  where
    read_back :
        (fits : Bool)
        → (if fits then ok (sub_ℕ (pos_part b) (neg_part b)) else mismatch) ≡ ok a
        → sub_ℕ (pos_part b) (neg_part b) ≡ a
    read_back true h = ok_injective h
    read_back false h = absurd (cc)

update_sets :
    (o : Str) (r t : Str) (d : Str) (old : List Str) (db : Option Stored)
    → find_one (by sample_bson sample_collection (str "_id") (1 ∷ o)) db ≡ ok (some d)
    → (sample_json.index d (str "replies") >>= sample_bson.items) ≡ ok old
    → (d' : Str) × (find_one
          (by sample_bson sample_collection (str "_id") (1 ∷ o))
          (update_one (by sample_bson sample_collection (str "_id") (1 ∷ o)) (update_text r t) db).1
        ≡ ok (some d'))
      × Pushed sample_bson r t d d' old
update_sets o r t d old db found listed =
    let ((o', fields), is, met, doc) = found_stored db (str "_id") (1 ∷ o) d found in
    let after = pushed_fields r t old fields in
    let listed' =
      ap (λ x. sample_json.index x (str "replies") >>= sample_bson.items) doc ∙ listed in
    let done : updated (update_text r t) (o', fields) ≡ ok (o', after) =
      updated-lem r t o' fields
      ∙ ap (λ x. x >>= λ old. ok (o', pushed_fields r t old fields)) listed' in
    let ran =
      update_one-hit (str "_id") (1 ∷ o) (update_text r t) db (o', fields) is met
      ∙ ap (λ x. kept_on_throw (some (o', fields)) (x >>= λ s'. ok (some s'))) done in
    let still_met : meets (str "_id", 1 ∷ o) (o', after) ≡ true =
      ap (is_value (1 ∷ o)) (document-id o' after ∙ sym (document-id o' fields)) ∙ met in
    (
      document (o', after),
      ap (λ x. find_one (by sample_bson sample_collection (str "_id") (1 ∷ o)) x.1) ran
          ∙ find_one-by (str "_id") (1 ∷ o) (some (o', after))
          ∙ ap (λ b. ok (if b then some (document (o', after)) else none)) still_met,
      Pushed-after r t o' fields d old doc,
    )

pub sample_collection_laws : CollectionLaws sample_bson sample_collection
sample_collection_laws = record {
  documents = all_documents;
  Equals = λ w v. w ≡ v;
  Equals-refl = λ v. refl;
  Equals-of_int = of_int_injective;
  Equals-as_int = as_int-of_int_eq;
  find_all-complete = find_all_complete;
  insert-stores = insert_stores;
  insert-other = insert_other;
  update-other = update_other;
  update-sets = λ o r t d old db found listed done. update_sets o r t d old db found listed;
}
