-- ===== src/Handlers/Races/Staleness.antt =====
-- How old a list of projects can be when it is answered from the cache.
use temp_task.Prelude.{
  ◌≡◌, ◌≢◌, refl, inl, inr, List, [], ◌∷◌, ◌++◌, some, none, arith, ℤ, pos, ◌+ℤ◌, ◌*ℤ◌, ◌≤ℤ◌,
  +ℤ_parts, Str, Str_eq, find, find-erase, find-assign, Option-cases, ap,
}
use mathlib.Core.Path.{subst}
use mathlib.Core.List.{Memᴰ}
use mathlib.Core.List.Memᴰ
use temp_task.Cache.{Cache, CacheEntry, get, set, invalidate, deadline}
use temp_task.Handlers.{Services}
use temp_task.Handlers.Projects.{projects_key}
use temp_task.Handlers.Races.{Shared, Step, Run, begins, goes_on, WasListed}
use temp_task.Handlers.Races.Step.{by_lister, by_creator, by_others, waits}
use temp_task.Handlers.Races.ListStep.{looks_up, reads_list, caches_list}
use temp_task.Handlers.Races.CreateStep.{creates, fails, outdates}
use temp_task.Handlers.Races.OtherStep.{spares, stores}

module _ (s : Services) (delay : ℤ) where
  -- An entry whose text was the list at a time from which it may be answered for no longer than the delay and
  -- the entry's 300 seconds.
  abbrev IsDated : {first last : Shared s} → Run s delay first last → CacheEntry → Type 0
  IsDated {last = last} run e =
      (t : ℤ) × (WasListed s delay run t e.value)
      × (t ≤ℤ last.now)
      × (e.expires_at ≤ℤ t +ℤ delay +ℤ pos 300000000000)

  abbrev DatesCache : {first last : Shared s} → Run s delay first last → Type 0
  DatesCache {last = last} run =
      (e : CacheEntry) → find projects_key last.cache ≡ some e → IsDated run e

  abbrev DatesReads : {first last : Shared s} → Run s delay first last → Type 0
  DatesReads {last = last} run =
      (t : ℤ) (text : Str)
      → Memᴰ (t, text) last.reads
      → (WasListed s delay run t text) × (t ≤ℤ last.now)

  later-WasListed :
      {first m n : Shared s} (run : Run s delay first m) (step : Step s delay m n) (t : ℤ)
      (text : Str)
      → WasListed s delay run t text
      → WasListed s delay (goes_on run step) t text
  later-WasListed run step t text (db, projects, was, read, e) = (db, projects, inr was, read, e)

  later-IsDated :
      {first m n : Shared s} (run : Run s delay first m) (step : Step s delay m n) (e : CacheEntry)
      → m.now ≤ℤ n.now
      → IsDated run e
      → IsDated (goes_on run step) e
  later-IsDated run step e le (t, listed, before, expires) =
      (t, later-WasListed run step t e.value listed, omega (arith, le, before), expires)

  get-found :
      (now : ℤ) (cache : Cache) (e : CacheEntry)
      → find projects_key (get projects_key now cache).0 ≡ some e
      → find projects_key cache ≡ some e
  unfolding get
  get-found now cache e h = ground (arith, find-erase projects_key projects_key cache)

  set-found :
      (text : Str) (now : ℤ) (cache : Cache) (e : CacheEntry)
      → find projects_key (set projects_key text (pos 300) now cache) ≡ some e
      → e ≡ record { value = text; expires_at = deadline now (pos 300) }
  unfolding set
  set-found text now cache e h = ground (
    arith,
    find-assign projects_key projects_key
        (record { value = text; expires_at = deadline now (pos 300) }) cache,
  )

  invalidate-found :
      (cache : Cache) (e : CacheEntry) → find projects_key (invalidate projects_key cache) ≢ some e
  unfolding invalidate
  invalidate-found cache e h = ground (arith, find-erase projects_key projects_key cache)

  Mem-read :
      (reads before later : List (ℤ × Str)) (r : ℤ × Str)
      → reads ≡ before ++ (r ∷ later)
      → Memᴰ r reads
  Mem-read reads before later r e = rw e (Memᴰ.append_right before (Memᴰ.head refl))

  deadline-le : (now x : ℤ) → now ≤ℤ x → deadline now (pos 300) ≤ℤ x +ℤ pos 300000000000
  unfolding ◌*ℤ◌
  deadline-le now x h =
      omega (arith, h, +ℤ_parts now (pos 300000000000), +ℤ_parts x (pos 300000000000))

  goes_on-DatesCache :
      {first m n : Shared s} (run : Run s delay first m) (step : Step s delay m n)
      → DatesReads run
      → DatesCache run
      → DatesCache (goes_on run step)
  goes_on-DatesCache {m = m} run (by_lister looks_up) reads h e found =
      later-IsDated run (by_lister looks_up) e (omega (arith))
        (h e (get-found m.now m.cache e found))
  goes_on-DatesCache run (by_lister (reads_list projects read)) reads h e found =
      later-IsDated run (by_lister (reads_list projects read)) e (omega (arith)) (h e found)
  goes_on-DatesCache {m = m} run (by_lister (caches_list before t text later at le)) reads h e
        found =
      let (listed, past) = reads t text (Mem-read m.reads before later (t, text) at) in
      let same = set-found text m.now m.cache e found in
      rw same (
        t,
        later-WasListed run (by_lister (caches_list before t text later at le)) t text listed,
        past,
        deadline-le m.now (t +ℤ delay) le,
      )
  goes_on-DatesCache run (by_creator (creates p o returned)) reads h e found =
      later-IsDated run (by_creator (creates p o returned)) e (omega (arith)) (h e found)
  goes_on-DatesCache run (by_creator (fails p x threw)) reads h e found =
      later-IsDated run (by_creator (fails p x threw)) e (omega (arith)) (h e found)
  goes_on-DatesCache {m = m} run (by_creator (outdates n waiting)) reads h e found =
      absurd (invalidate-found m.cache e found)
  goes_on-DatesCache {m = m} run (by_others (spares change kept)) reads h e found =
      later-IsDated run (by_others (spares change kept)) e (omega (arith))
        (h e (kept m.cache e found))
  goes_on-DatesCache run (by_others (stores db)) reads h e found =
      later-IsDated run (by_others (stores db)) e (omega (arith)) (h e found)
  goes_on-DatesCache run (waits later le) reads h e found =
      later-IsDated run (waits later le) e le (h e found)

  later-read :
      {first m n : Shared s} (run : Run s delay first m) (step : Step s delay m n) (t : ℤ)
      (text : Str)
      → m.now ≤ℤ n.now
      → (WasListed s delay run t text) × (t ≤ℤ m.now)
      → (WasListed s delay (goes_on run step) t text) × (t ≤ℤ n.now)
  later-read run step t text le (listed, past) =
      (later-WasListed run step t text listed, omega (arith, le, past))

  Mem-rest :
      (reads before later : List (ℤ × Str)) (r x : ℤ × Str)
      → reads ≡ before ++ (r ∷ later)
      → Memᴰ x (before ++ later)
      → Memᴰ x reads
  Mem-rest reads before later r x e h = rw e (elim (Memᴰ.append_cases before h) [
    | inl early ↦ Memᴰ.append_left (r ∷ later) early
    | inr late ↦ Memᴰ.append_right before (Memᴰ.tail late)
  ])

  goes_on-DatesReads :
      {first m n : Shared s} (run : Run s delay first m) (step : Step s delay m n)
      → DatesReads run
      → DatesReads (goes_on run step)
  goes_on-DatesReads run (by_lister looks_up) reads t text h =
      later-read run (by_lister looks_up) t text (omega arith) (reads t text h)
  goes_on-DatesReads run (by_creator (creates p o returned)) reads t text h =
      later-read run (by_creator (creates p o returned)) t text (omega arith) (reads t text h)
  goes_on-DatesReads run (by_creator (fails p x threw)) reads t text h =
      later-read run (by_creator (fails p x threw)) t text (omega arith) (reads t text h)
  goes_on-DatesReads run (by_creator (outdates n waiting)) reads t text h =
      later-read run (by_creator (outdates n waiting)) t text (omega arith) (reads t text h)
  goes_on-DatesReads run (by_others (spares change kept)) reads t text h =
      later-read run (by_others (spares change kept)) t text (omega arith) (reads t text h)
  goes_on-DatesReads run (by_others (stores db)) reads t text h =
      later-read run (by_others (stores db)) t text (omega arith) (reads t text h)
  goes_on-DatesReads run (waits later le) reads t text h =
      later-read run (waits later le) t text le (reads t text h)
  goes_on-DatesReads {m = m} run (by_lister (caches_list before q cached later at le)) reads t text
        h =
      later-read run (by_lister (caches_list before q cached later at le)) t text (omega arith)
        (reads t text (Mem-rest m.reads before later (q, cached) (t, text) at h))
  goes_on-DatesReads {m = m} run (by_lister (reads_list projects read)) reads t text h =
      elim (Memᴰ.cases_cons h) [
        | inl e ↦ (
          (m.db, projects, inl (ap (λ r. r.0) e, refl), read, ap (λ r. r.1) e),
          rw (ap (λ r. r.0) e) (omega arith),
        )
        | inr old ↦
            later-read run (by_lister (reads_list projects read)) t text (omega arith)
              (reads t text old)
      ]

  -- The cached list and the lists that are about to be cached, after any run.
  dates :
      {first last : Shared s} (run : Run s delay first last)
      → find projects_key first.cache ≡ none
      → first.reads ≡ []
      → (DatesCache run) × (DatesReads run)
  dates begins empty none_read = (
    λ e found. absurd (cc),
    λ t text h.
        absurd (Memᴰ.not-nil {a = (t, text)} (subst (λ reads. Memᴰ (t, text) reads) none_read h)),
  )
  dates (goes_on run step) empty none_read =
      let (cached, reads) = dates run empty none_read in
      (goes_on-DatesCache run step reads cached, goes_on-DatesReads run step reads)

  get-hit :
      (now : ℤ) (cache : Cache) (text : Str)
      → (get projects_key now cache).1 ≡ some text
      → (e : CacheEntry) × (find projects_key cache ≡ some e)
        × (now ≤ℤ e.expires_at)
        × (e.value ≡ text)
  unfolding get
  get-hit now cache text h = elim (Option-cases (find projects_key cache)) [
    | inr (e, found) ↦ (e, found, ground (arith, found, h), ground (arith, found, h))
    | inl missing ↦ absurd (ground (arith, missing, h))
  ]

  -- Whatever the handlers of projects do between each other's calls, and the others do to the cache and the database,
  -- a list that is answered from the cache was the list of the projects in the database at a time that is no longer past than
  -- the entry's 300 seconds and the longest delay from a handler's read to its Set. The run begins with no cached list
  -- and no handler under way.
  pub get-WasListed :
      {first last : Shared s} (run : Run s delay first last) (text : Str)
      → find projects_key first.cache ≡ none
      → first.reads ≡ []
      → (get projects_key last.now last.cache).1 ≡ some text
      → (t : ℤ) × (WasListed s delay run t text)
        × (t ≤ℤ last.now)
        × (last.now ≤ℤ t +ℤ delay +ℤ pos 300000000000)
  get-WasListed {last = last} run text empty none_read answered =
      let (e, found, alive, same) = get-hit last.now last.cache text answered in
      let (t, listed, past, expires) = (dates run empty none_read).0 e found in
      (t, subst (λ x. WasListed s delay run t x) same listed, past, omega (arith, alive, expires))
