-- ===== src/Cache/Laws.antt =====
-- What the cache answers after each operation, and that expired entries are never served.
use temp_task.Prelude.{
  ◌≡◌, Option, none, some, arith, if◌then◌else◌, ℤ, ◌≤ℤ◌, ltb_ℤ, Str, Str_eq, str_eq_iff, ◌==◌,
  starts_with, find, find-assign, find-erase, find-erase_if,
}
use temp_task.Cache.{Cache, CacheEntry, deadline, get, set, invalidate, invalidate_by_prefix}

-- What a reader is to see of an entry at a time.
abbrev visible : ℤ → Option CacheEntry → Option Str
visible now none = none
visible now (some e) = if ltb_ℤ e.expires_at now then none else some e.value

get-eq-visible : (k : Str) (now : ℤ) (c : Cache) → (get k now c).1 ≡ visible now (find k c)
unfolding get
get-eq-visible k now c = ground arith

-- Reading any key changes no later answer for any key.
pub get-get :
    (j k : Str) (now later : ℤ) (c : Cache)
    → now ≤ℤ later
    → (get k later (get j now c).0).1 ≡ (get k later c).1
unfolding get
get-get j k now later c h = ground (arith, str_eq_iff j k, find-erase j k c)

pub get-set :
    (j k v : Str) (ttl now later : ℤ) (c : Cache)
    → (get k later (set j v ttl now c)).1 ≡ (
        if j == k
        then (if ltb_ℤ (deadline now ttl) later then none else some v)
        else (get k later c).1)
unfolding get set
get-set j k v ttl now later c =
    ground (arith, find-assign j k (record { value = v; expires_at = deadline now ttl }) c)

pub get-invalidate :
    (j k : Str) (now : ℤ) (c : Cache)
    → (get k now (invalidate j c)).1 ≡ (if j == k then none else (get k now c).1)
unfolding get invalidate
get-invalidate j k now c = ground (arith, find-erase j k c)

pub get-invalidate_by_prefix :
    (p k : Str) (now : ℤ) (c : Cache)
    → (get k now (invalidate_by_prefix p c)).1 ≡ (if starts_with k p then none else (get k now c).1)
unfolding get invalidate_by_prefix
get-invalidate_by_prefix p k now c = ground (arith, find-erase_if (λ key. starts_with key p) k c)
