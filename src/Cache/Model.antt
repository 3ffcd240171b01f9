-- ===== src/Cache/Model.antt =====
-- The cache against its history: what a reader sees is fixed by the last operation on its key.
use temp_task.Prelude.{
  ◌≡◌, refl, Option, none, some, List, [], ◌∷◌, if◌then◌else◌, ℤ, ◌≤ℤ◌, ltb_ℤ, Str, Str_eq, ◌==◌,
  starts_with, ◌∙◌, find,
}
use temp_task.Cache.{Cache, deadline, get, set, invalidate, invalidate_by_prefix}
use temp_task.Cache.Laws.{get-get, get-set, get-invalidate, get-invalidate_by_prefix}

-- An operation of a client, with the reading of the clock that it makes.
pub data Operation : Type 0 where
  gets : Str → ℤ → Operation
  sets : Str → Str → ℤ → ℤ → Operation
  invalidates : Str → Operation
  invalidates_prefix : Str → Operation

unfoldable pub perform : Operation → Cache → Cache
perform (gets k now) c = (get k now c).0
perform (sets k v ttl now) c = set k v ttl now c
perform (invalidates k) c = invalidate k c
perform (invalidates_prefix p) c = invalidate_by_prefix p c

-- The operations in the order in which they were made, newest first.
unfoldable pub perform_all : List Operation → Cache
perform_all [] = []
perform_all (op ∷ ops) = perform op (perform_all ops)

-- The specification reads the history alone: the newest operation that concerns the key decides, a
-- set that has not run out gives its value, and reads do not count.
abbrev pub answer : Str → ℤ → List Operation → Option Str
answer k now [] = none
answer k now (gets j t ∷ ops) = answer k now ops
answer k now (sets j v ttl t ∷ ops) =
    if j == k then (if ltb_ℤ (deadline t ttl) now then none else some v) else answer k now ops
answer k now (invalidates j ∷ ops) = if j == k then none else answer k now ops
answer k now (invalidates_prefix p ∷ ops) = if starts_with k p then none else answer k now ops

-- No read of the history was made later than `now`.
abbrev ReadsBefore : ℤ → List Operation → Type 0
ReadsBefore now [] = Unit {0}
ReadsBefore now (gets j t ∷ ops) = (t ≤ℤ now) × ReadsBefore now ops
ReadsBefore now (op ∷ ops) = ReadsBefore now ops

-- After any history of operations on an empty cache, a read answers as the history alone says:
-- the value of the newest set of the key that no invalidation of the key or of a prefix of it
-- followed, while its time to live lasts, and nothing otherwise. The reads in the history are not
-- later than this one.
pub get-eq-answer :
    (k : Str) (now : ℤ) (ops : List Operation)
    → ReadsBefore now ops
    → (get k now (perform_all ops)).1 ≡ answer k now ops
unfolding perform_all perform
get-eq-answer k now [] h = unfold get find in refl
get-eq-answer k now (gets j t ∷ ops) h =
    get-get j k t now (perform_all ops) h.0 ∙ get-eq-answer k now ops h.1
get-eq-answer k now (sets j v ttl t ∷ ops) h =
    rw (get-set j k v ttl t now (perform_all ops), get-eq-answer k now ops h)
get-eq-answer k now (invalidates j ∷ ops) h =
    rw (get-invalidate j k now (perform_all ops), get-eq-answer k now ops h)
get-eq-answer k now (invalidates_prefix p ∷ ops) h =
    rw (get-invalidate_by_prefix p k now (perform_all ops), get-eq-answer k now ops h)
