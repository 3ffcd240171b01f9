-- ===== src/Handlers/Invariants.antt =====
-- Invariants of the service's state: what keeps one, call by call.
use temp_task.Prelude.{
  ◌≡◌, refl, ok, throw, Bool, true, false, Result, Option, none, some, if◌then◌else◌,
}
use temp_task.Handlers.{
  Services, World, Handler, returned, thrown, undefined, return, call, dereference, run_next, ◌>>=◌,
  ◌>>◌, querying, Outcome,
}

-- A handler keeps an invariant, whether it returns, throws or does what is undefined.
unfoldable pub Keeps {ℓ} : {s : Services} {A : Type 0} → (World s → Type ℓ) → Handler s A → Type ℓ
Keeps {s = s} P m = (w : World s) → P w → P (m w).1

module _ {ℓ} {s : Services} {A B : Type 0} (P : World s → Type ℓ) where
  run_next-keeps :
      (r : Outcome A × World s) (next : A → Handler s B)
      → P r.1
      → ((a : A) → Keeps P (next a))
      → P (run_next r next).1
  unfolding Keeps
  run_next-keeps (returned a, w) next h k = k a w h
  run_next-keeps (thrown e, w) next h k = h
  run_next-keeps (undefined, w) next h k = h

  pub bind-Keeps :
      (m : Handler s A) (next : A → Handler s B)
      → Keeps P m
      → ((a : A) → Keeps P (next a))
      → Keeps P (m >>= next)
  unfolding Keeps
  bind-Keeps m next h k w p = run_next-keeps (m w) next (h w p) k

  pub call-bind-Keeps :
      (r : Result A) (next : A → Handler s B)
      → ((a : A) → r ≡ ok a → Keeps P (next a))
      → Keeps P (call r >>= next)
  unfolding Keeps
  call-bind-Keeps (ok a) next k w p = k a refl w p
  call-bind-Keeps (throw e) next k w p = p

  pub then-Keeps :
      (m : Handler s A) (next : Handler s B) → Keeps P m → Keeps P next → Keeps P (m >> next)
  unfolding Keeps
  then-Keeps m next h k w p = run_next-keeps (m w) (λ _. next) (h w p) (λ _. k)

module _ {ℓ} {s : Services} {A : Type 0} (P : World s → Type ℓ) where
  pub if-Keeps :
      (b : Bool) (m n : Handler s A) → Keeps P m → Keeps P n → Keeps P (if b then m else n)
  if-Keeps true m n h k = h
  if-Keeps false m n h k = k

  pub return-Keeps : (a : A) → Keeps P (return a)
  unfolding Keeps
  return-Keeps a w p = p

  pub call-Keeps : (r : Result A) → Keeps P (call r)
  unfolding Keeps
  call-Keeps r w p = p

  pub dereference-Keeps : (o : Option A) → Keeps P (dereference o)
  unfolding Keeps
  dereference-Keeps none w p = p
  dereference-Keeps (some a) w p = p

  pub querying-Keeps : (method : s.storage.Db → Result A) → Keeps P (querying method)
  unfolding Keeps
  querying-Keeps method w p = p

-- The calls of any handler.
pub ruleset steps =
    (bind-Keeps, then-Keeps, if-Keeps, return-Keeps, call-Keeps, dereference-Keeps, querying-Keeps)
