-- ===== src/Storage/Mongo/Sample/Laws.antt =====
-- The insertions and the filters of the sample collection meet the laws.
use mathlib.Core.List.{Memᴰ}
use mathlib.Core.Path.{subst}
use temp_task.Prelude.{
  ◌≡◌, ◌≢◌, refl, sym, ap, ◌∙◌, inl, inr, ◌⊎◌, true, false, List, [], ◌∷◌, Option, none, some,
  arith, if◌then◌else◌, Str, Str_eq, str, str_eq, str_eq_iff, Dict, find, assign, find-assign,
  Result, ok, throw, std_exception, Exception, ok_injective, Result-cases,
}
use temp_task.Json.Sample.{sample_json, members, members-object_of, mismatch, or_missing}
use temp_task.Bson.Sample.{sample_bson}
use temp_task.Storage.Mongo.{by}
use temp_task.Storage.Mongo.Sample.{
  Stored, document, all_documents, is_value, meets, matching, room_for, inserted, insert_one,
  insert_read, find_all, sample_collection, find_all-by, insert_one-object,
}

pub index-object :
    (fields : Dict Str Str) (k : Str)
    → sample_json.index (sample_json.object fields) k ≡ ok (or_missing (find k fields))
index-object fields k = rw (members-object_of fields)

pub find-later :
    (k j v : Str) (fields : Dict Str Str) → j ≢ k → find j ((k, v) ∷ fields) ≡ find j fields
unfolding find
find-later k j v fields h = ground (arith, str_eq_iff k j, h)

pub find-assign_other :
    (k j v : Str) (fields : Dict Str Str) → j ≢ k → find j (assign k v fields) ≡ find j fields
find-assign_other k j v fields h = ground (arith, str_eq_iff k j, find-assign k j v fields, h)

pub find-assign_same : (k v : Str) (fields : Dict Str Str) → find k (assign k v fields) ≡ some v
find-assign_same k v fields = ground (arith, str_eq_iff k k, find-assign k k v fields)

str_eq-ne : (s t : Str) → s ≢ t → str_eq s t ≡ false
str_eq-ne s t h = ground (arith, str_eq_iff s t, h)

pub str_ne : (s t : Str) → str_eq s t ≡ false → s ≢ t
str_ne s t h e = ground (arith, str_eq_iff s t)

pub matching_none :
    (s : Stored) (k v w : Str)
    → sample_json.index (document s) k ≡ ok w
    → w ≢ v
    → matching (some s) (k, v) ≡ []
matching_none s k v w at h =
    ap (λ r. if is_value v r then document s ∷ [] else []) at
    ∙ ap (λ b. if b then document s ∷ [] else []) (str_eq-ne w v h)

pub find_all_complete :
    (k v w d : Str) (db : Option Stored) (found : List Str)
    → find_all (by sample_bson sample_collection k v) db ≡ ok found
    → Memᴰ d (all_documents db)
    → sample_json.index d k ≡ ok w
    → w ≡ v
    → Memᴰ d found
find_all_complete k v w d none found h m at e = elim m [ ]
find_all_complete k v w d (some s) found h (Memᴰ.head is) at e =
    let met : meets (k, v) s ≡ true =
      ap (λ x. is_value v (sample_json.index x k)) (sym is)
      ∙ ap (is_value v) at
      ∙ (str_eq_iff w v).1 e in
    let same : document s ∷ [] ≡ found =
      ok_injective (
        sym (find_all-by k v (some s) ∙ ap (λ b. ok (if b then document s ∷ [] else [])) met)
        ∙ h) in
    subst (Memᴰ d) same (Memᴰ.head is)
find_all_complete k v w d (some s) found h (Memᴰ.tail m) at e = elim m [ ]

room-cases :
    (o : Option Str) (db : Option Stored) → ((o ≡ none) × (db ≡ none)) ⊎ (room_for o db ≡ false)
room-cases none none = inl (refl, refl)
room-cases none (some s) = inr refl
room-cases (some v) none = inr refl
room-cases (some v) (some s) = inr refl

inserted-room :
    (fields : Dict Str Str) (db : Option Stored)
    → find (str "_id") fields ≡ none
    → db ≡ none
    → inserted fields db ≡ (ok tt, some (str "1", fields))
inserted-room fields db no_id empty =
    ap (λ o. if room_for o db then (ok tt, some (str "1", fields)) else (mismatch, db)) no_id
    ∙ ap (λ db. if room_for none db then (ok tt, some (str "1", fields)) else (mismatch, db)) empty

inserted-full :
    (fields : Dict Str Str) (db : Option Stored)
    → room_for (find (str "_id") fields) db ≡ false
    → (e : Exception) × (inserted fields db ≡ (throw e, db))
inserted-full fields db full = (
  std_exception (str "wrong type"),
  ap (λ b. if b then (ok tt, some (str "1", fields)) else (mismatch, db)) full,
)

ok-ne-throw {ℓ} : {A : Type ℓ} (a : A) (e : Exception) → ◌≡◌ {A = Result A} (ok a) (throw e) → ⊥
ok-ne-throw a e h = cc

pub insert_stores :
    (fields : Dict Str Str) (db : Option Stored)
    → find (str "_id") fields ≡ none
    → (insert_one (sample_json.object fields) db).0 ≡ ok tt
    → (o : Str) × Memᴰ
        (sample_json.object ((str "_id", 1 ∷ o) ∷ fields))
        (all_documents (insert_one (sample_json.object fields) db).1)
insert_stores fields db no_id done = elim (room-cases (find (str "_id") fields) db) [
  | inl (n, empty) ↦ (
    str "1",
    subst (λ r. Memᴰ (document (str "1", fields)) (all_documents r.1))
        (sym (insert_one-object fields db ∙ inserted-room fields db no_id empty)) (Memᴰ.head refl),
  )
  | inr full ↦
      let (e, failed) = inserted-full fields db full in
      absurd (ok-ne-throw tt e (sym done ∙ ap (λ r. r.0) (insert_one-object fields db ∙ failed)))
]

pub insert_other :
    (fields : Dict Str Str) (k v w : Str) (db : Option Stored)
    → k ≢ str "_id"
    → find k fields ≡ some w
    → (w ≡ v → ⊥)
    → find_all (by sample_bson sample_collection k v) (insert_one (sample_json.object fields) db).1
      ≡ find_all (by sample_bson sample_collection k v) db
insert_other fields k v w db not_id at differs = elim (room-cases (find (str "_id") fields) db) [
  | inl (no_id, empty) ↦
      let at' =
        index-object ((str "_id", 1 ∷ str "1") ∷ fields) k
        ∙ ap (λ o. ok (or_missing o)) (find-later (str "_id") k (1 ∷ str "1") fields not_id ∙ at) in
      ap (λ r. find_all (by sample_bson sample_collection k v) r.1)
        (insert_one-object fields db ∙ inserted-room fields db no_id empty)
      ∙ find_all-by k v (some (str "1", fields))
      ∙ ap ok (matching_none (str "1", fields) k v w at' differs)
      ∙ sym (find_all-by k v none)
      ∙ ap (find_all (by sample_bson sample_collection k v)) (sym empty)
  | inr full ↦
      let (e, failed) = inserted-full fields db full in
      ap (λ r. find_all (by sample_bson sample_collection k v) r.1)
        (insert_one-object fields db ∙ failed)
]

pub insert_throw :
    (d : Str) (db : Option Stored) (e : Exception)
    → (insert_one d db).0 ≡ throw e
    → (insert_one d db).1 ≡ db
unfolding insert_one
insert_throw d db e h = elim (Result-cases (members d)) [
  | inr (e', bad) ↦ ap (λ r. (insert_read db r).1) bad
  | inl (fields, is) ↦
      let run = ap (insert_read db) is in
      elim (room-cases (find (str "_id") fields) db) [
        | inl (no_id, empty) ↦
            absurd (
              ok-ne-throw tt e
                (sym (ap (λ r. r.0) (run ∙ inserted-room fields db no_id empty)) ∙ h))
        | inr full ↦ let (e', failed) = inserted-full fields db full in ap (λ r. r.1) (run ∙ failed)
      ]
]
