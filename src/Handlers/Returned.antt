-- ===== src/Handlers/Returned.antt =====
-- What a handler that returned has run.
use temp_task.Prelude.{
  ◌≡◌, refl, sym, ◌∙◌, ap, inl, inr, Option, none, some, Str, Result, ok, throw, Result-cases,
}
use temp_task.Handlers.{
  created, return, Services, World, Handler, HttpStatus, returned, call, dereference, respond,
  publishing, storing, ◌>>=◌, ◌>>◌, Outcome,
}

module _ {s : Services} {A B : Type 0} where
  -- A chain that returned has run its first call with success.
  pub call-returned :
      (r : Result A) (next : A → Handler s B) (w w' : World s) (b : B)
      → (call r >>= next) w ≡ (returned b, w')
      → (a : A) × (r ≡ ok a) × (next a w ≡ (returned b, w'))
  call-returned (ok a) next w w' b h = (a, refl, h)
  call-returned (throw e) next w w' b h = absurd (cc)

  pub storing-returned :
      (method : s.storage.Db → Result A × s.storage.Db) (next : A → Handler s B) (w w' : World s)
      (b : B)
      → (storing method >>= next) w ≡ (returned b, w')
      → (a : A) × ((method w.db).0 ≡ ok a)
        × (next a (record w { db = (method w.db).1 }) ≡ (returned b, w'))
  storing-returned method next w w' b h = elim (Result-cases (method w.db).0) [
    | inl (a, made) ↦ (a, made, rw made at h)
    | inr (e, failed) ↦ let h' = rw failed at h in absurd (cc)
  ]

  pub dereference-returned :
      (o : Option A) (next : A → Handler s B) (w w' : World s) (b : B)
      → (dereference o >>= next) w ≡ (returned b, w')
      → (a : A) × (o ≡ some a) × (next a w ≡ (returned b, w'))
  dereference-returned (some a) next w w' b h = (a, refl, h)
  dereference-returned none next w w' b h = absurd (cc)

abbrev pub returned_or {ℓ} : {A : Type ℓ} → A → Outcome A → A
returned_or d (returned a) = a
returned_or d _ = d

module _ {s : Services} {B : Type 0} where
  -- A publication that did not throw leaves the broker that it was given back.
  pub publishing-returned :
      (publish : s.kafka.Broker → Result (Unit {0}) × s.kafka.Broker) (next : Handler s B)
      (w w' : World s) (b : B)
      → (publishing publish >> next) w ≡ (returned b, w')
      → next (record w { broker = (publish w.broker).1 }) ≡ (returned b, w')
  publishing-returned publish next w w' b h = elim (Result-cases (publish w.broker).0) [
    | inl (u, sent) ↦ rw sent at h
    | inr (e, failed) ↦ let h' = rw failed at h in absurd (cc)
  ]

module _ {s : Services} where
  pub respond-returned :
      (status : HttpStatus) (text : Str) (w w' : World s) (answer : Str)
      → respond {s = s} status text w ≡ (returned answer, w')
      → (answer ≡ text) × (w' ≡ record w { response = record w.response { status = status } })
  respond-returned status text w w' answer h =
      (sym (ap (λ r. returned_or answer r.0) h), sym (ap (λ r. r.1) h))

  pub respond-status :
      (status : HttpStatus) (text : Str) (w w' : World s) (answer : Str) {other : HttpStatus}
      → respond {s = s} status text w ≡ (returned answer, w')
      → w'.response.status ≡ other
      → status ≡ other
  respond-status status text w w' answer h e = ap (λ r. r.1.response.status) h ∙ e

module _ {s : Services} {T : Type 0} where
  -- The end of a handler that creates: what was created is published, and answered with the status of a creation.
  pub created-returned :
      (send : T → s.kafka.Broker → Result (Unit {0}) × s.kafka.Broker) (text : T → Str)
      (o : Option T) (w w' : World s) (answer : Str)
      → (elim o as (λ o. Handler s (Unit {0})) [ none ↦ return tt | some t ↦ publishing (send t) ]
            >> (dereference o >>= λ t. respond created (text t)))
          w
        ≡ (returned answer, w')
      → (t : T) × (o ≡ some t)
        × (w' ≡ record w {
          broker = (send t w.broker).1;
          response = record w.response { status = created };
        })
        × (answer ≡ text t)
  created-returned send text none w w' answer h = absurd (cc)
  created-returned send text (some t) w w' answer h =
      let (same, after) =
        respond-returned created (text t) (record w { broker = (send t w.broker).1 }) w' answer
          (publishing-returned (send t) _ w w' answer h) in
      (t, refl, after, same)
