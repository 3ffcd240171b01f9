-- ===== src/Cache.antt =====
-- src/cache/cache_manager.hpp and cache_manager.cpp: the in-memory cache with a time to live. Times
-- are ticks (nanoseconds) of the steady clock, and a reading of the clock is an argument. The mutex
-- makes each method one step; the log lines and the component's constructor are left out.
pub mod Laws
pub mod Model
mod Tests
use temp_task.Prelude.{
  Bool, true, false, Option, none, some, if◌then◌else◌, ℤ, pos, ◌+ℤ◌, ◌*ℤ◌, ltb_ℤ, Str, Str_eq,
  starts_with, Dict, find, assign, erase, erase_if,
}

pub record CacheEntry : Type 0 where
  pub value : Str
  pub expires_at : ℤ

-- The map `cache_`.
abbrev pub Cache : Type 0
Cache = Dict Str CacheEntry

-- steady_clock::now() + seconds(ttl_seconds)
abbrev pub deadline : ℤ → ℤ → ℤ
deadline now ttl_seconds = now +ℤ ttl_seconds *ℤ pos 1000000000

unfoldable pub get : Str → ℤ → Cache → Cache × Option Str
get key now cache = elim (find key cache) [
  | none ↦ (cache, none)
  | some entry ↦
      if ltb_ℤ entry.expires_at now then (erase key cache, none) else (cache, some entry.value)
]

unfoldable pub set : Str → Str → ℤ → ℤ → Cache → Cache
set key value ttl_seconds now cache =
    assign key (record { value = value; expires_at = deadline now ttl_seconds }) cache

unfoldable pub invalidate : Str → Cache → Cache
invalidate key cache = erase key cache

unfoldable pub invalidate_by_prefix : Str → Cache → Cache
invalidate_by_prefix prefix cache = erase_if (λ key. starts_with key prefix) cache
