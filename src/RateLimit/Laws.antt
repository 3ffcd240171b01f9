-- ===== src/RateLimit/Laws.antt =====
-- What one call of the limiter decides, and what it leaves behind.
use temp_task.Prelude.{
  ℕ, ◌-◌, ◌≤◌, ◌<◌, ◌≡◌, ◌↔◌, inl, inr, Bool, true, List, [], ◌∷◌, ◌++◌, arith, if◌then◌else◌,
  Option-cases, leb, length, count_if, length-append, ℤ, pos, ◌≤ℤ◌, ◌-ℤ◌, to_size, Str, Str_eq,
  str_eq_iff, not, sym, ◌∙◌, ◌==◌, find, find-assign, int_laws,
}
use temp_task.RateLimit.{
  SlidingWindowLimiter, ticks, pop_expired, clean_expired, state_at, try_acquire, get_info,
  make_limiter,
}
use temp_task.RateLimit.Window.{
  IsSorted, is_fresh, pop_expired-eq-keep_if, pop_expired-IsSorted, IsSorted-mono, IsSorted-append,
  length-pop_expired-le, length-keep_if, pop_expired-pop_expired,
}

abbrev pub requests_at : Str → SlidingWindowLimiter → List ℤ
requests_at key l = (state_at key l).requests

-- The cutoff of a cleaning at `now`.
abbrev pub cutoff_at : ℤ → SlidingWindowLimiter → ℤ
cutoff_at now l = now -ℤ ticks l.window_size

-- What the call leaves in each deque.
pub requests_at-try_acquire :
    (k j : Str) (c p : ℤ) (l : SlidingWindowLimiter)
    → let kept = pop_expired (cutoff_at c l) (requests_at k l) in
      requests_at j (try_acquire k c p l).0 ≡ (
        if k == j
        then (if (try_acquire k c p l).1 then kept ++ p ∷ [] else kept)
        else requests_at j l)
unfolding try_acquire state_at clean_expired
requests_at-try_acquire k j c p l =
    let kept = clean_expired l.window_size c (state_at k l) in
    ground (
      arith,
      find-assign k j kept l.windows,
      find-assign k j (record { requests = kept.requests ++ p ∷ [] }) l.windows,
    )

-- A call is let through exactly when fewer than the limit of the key's requests are still in the
-- window, on a deque that is in order.
pub try_acquire_iff :
    (k : Str) (c p : ℤ) (l : SlidingWindowLimiter)
    → IsSorted c (requests_at k l)
    → ((try_acquire k c p l).1 ≡ true)
      ↔ (count_if (is_fresh (cutoff_at c l)) (requests_at k l) < to_size l.max_requests)
unfolding try_acquire clean_expired
try_acquire_iff k c p l h = ground (
  arith,
  pop_expired-eq-keep_if c (cutoff_at c l) (requests_at k l) h,
  length-keep_if (is_fresh (cutoff_at c l)) (requests_at k l),
)

-- The invariant: every deque is in order up to `now`, and holds at most the limit.
pub record IsValid (now : ℤ) (l : SlidingWindowLimiter) : Type 0 where
  pub sorted : (k : Str) → IsSorted now (requests_at k l)
  pub bounded : (k : Str) → length (requests_at k l) ≤ to_size l.max_requests

pub make_limiter-IsValid : (m w now : ℤ) → IsValid now (make_limiter m w)
unfolding make_limiter state_at find
make_limiter-IsValid m w now = record { sorted = λ k. tt; bounded = λ k. omega arith }

-- A call leaves the settings as they were.
pub settings-try_acquire :
    (k : Str) (c p : ℤ) (l : SlidingWindowLimiter)
    → ((try_acquire k c p l).0.max_requests ≡ l.max_requests)
      × ((try_acquire k c p l).0.window_size ≡ l.window_size)
unfolding try_acquire
settings-try_acquire k c p l = ground arith

pub try_acquire_room :
    (k : Str) (c p : ℤ) (l : SlidingWindowLimiter)
    → (try_acquire k c p l).1 ≡ true
    → length (pop_expired (cutoff_at c l) (requests_at k l)) < to_size l.max_requests
unfolding try_acquire clean_expired
try_acquire_room k c p l h = ground arith

module _ (k j : Str) (c p : ℤ) (l : SlidingWindowLimiter) where
  IsSorted-try_acquire :
      (now : ℤ)
      → now ≤ℤ c
      → c ≤ℤ p
      → IsSorted now (requests_at k l)
      → IsSorted now (requests_at j l)
      → IsSorted p (requests_at j (try_acquire k c p l).0)
  IsSorted-try_acquire now h h' hk hj =
      let le : now ≤ℤ p = omega arith in
      let kept = pop_expired-IsSorted p (cutoff_at c l) _ (IsSorted-mono now p _ le hk) in
      rw (requests_at-try_acquire k j c p l) (
        ground (arith, kept, IsSorted-append p _ kept, IsSorted-mono now p (requests_at j l) le hj))

  length-le-try_acquire :
      length (requests_at k l) ≤ to_size l.max_requests
      → length (requests_at j l) ≤ to_size l.max_requests
      → length (requests_at j (try_acquire k c p l).0) ≤ to_size l.max_requests
  length-le-try_acquire hk hj =
      let kept = pop_expired (cutoff_at c l) (requests_at k l) in
      rw (requests_at-try_acquire k j c p l) (
        ground (
          arith,
          try_acquire_room k c p l,
          length-append kept (p ∷ []),
          length-pop_expired-le (cutoff_at c l) (requests_at k l),
        ))

-- Every call keeps the invariant, at the time of its last reading of the clock.
pub try_acquire-IsValid :
    (k : Str) (now c p : ℤ) (l : SlidingWindowLimiter)
    → now ≤ℤ c
    → c ≤ℤ p
    → IsValid now l
    → IsValid p (try_acquire k c p l).0
try_acquire-IsValid k now c p l h h' v = record {
  sorted = λ j. IsSorted-try_acquire k j c p l now h h' (v.sorted k) (v.sorted j);
  bounded = λ j.
      rw ((settings-try_acquire k c p l).0)
        (length-le-try_acquire k j c p l (v.bounded k) (v.bounded j));
}

-- What `get_info` leaves in each deque.
pub requests_at-get_info :
    (k j : Str) (n : ℤ) (l : SlidingWindowLimiter)
    → requests_at j (get_info k n l).0
      ≡ (if k == j then pop_expired (cutoff_at n l) (requests_at k l) else requests_at j l)
unfolding get_info state_at clean_expired
requests_at-get_info k j n l = elim (Option-cases (find k l.windows)) [
  | inl e ↦ ground (arith, str_eq_iff k j)
  | inr (s, e) ↦
      ground (arith, str_eq_iff k j, find-assign k j (clean_expired l.window_size n s) l.windows)
]

pub settings-get_info :
    (k : Str) (n : ℤ) (l : SlidingWindowLimiter)
    → ((get_info k n l).0.max_requests ≡ l.max_requests)
      × ((get_info k n l).0.window_size ≡ l.window_size)
unfolding get_info
settings-get_info k n l = ground arith

-- So does every call of GetInfo.
pub get_info-IsValid :
    (k : Str) (now n : ℤ) (l : SlidingWindowLimiter)
    → now ≤ℤ n
    → IsValid now l
    → IsValid n (get_info k n l).0
get_info-IsValid k now n l h v = record {
  sorted = λ j.
      let kept = pop_expired-IsSorted n (cutoff_at n l) _ (IsSorted-mono now n _ h (v.sorted k)) in
      rw (requests_at-get_info k j n l)
        (ground (arith, kept, IsSorted-mono now n (requests_at j l) h (v.sorted j)));
  bounded = λ j. rw ((settings-get_info k n l).0) (
      rw (requests_at-get_info k j n l) (
        ground (
          arith,
          v.bounded k,
          v.bounded j,
          length-pop_expired-le (cutoff_at n l) (requests_at k l),
        )));
}

-- The decision, as a function of the key's deque and the settings.
abbrev admits : ℤ → ℤ → ℤ → List ℤ → Bool
admits max_requests window_size c ts =
    not (leb (to_size max_requests) (length (pop_expired (c -ℤ ticks window_size) ts)))

try_acquire-eq-admits :
    (k : Str) (c p : ℤ) (l : SlidingWindowLimiter)
    → (try_acquire k c p l).1 ≡ admits l.max_requests l.window_size c (requests_at k l)
unfolding try_acquire clean_expired
try_acquire-eq-admits k c p l = ground arith

-- Asking for the information never changes a later decision.
pub try_acquire-get_info :
    (k j : Str) (n c p : ℤ) (l : SlidingWindowLimiter)
    → n ≤ℤ c
    → (try_acquire k c p (get_info j n l).0).1 ≡ (try_acquire k c p l).1
try_acquire-get_info k j n c p l h =
    let l' = (get_info j n l).0 in
    let same : admits l'.max_requests l'.window_size c (requests_at k l')
        ≡ admits l.max_requests l.window_size c (requests_at k l) =
      rw ((settings-get_info j n l).0, (settings-get_info j n l).1, requests_at-get_info j k n l)
        (ground (
          arith,
          str_eq_iff j k,
          pop_expired-pop_expired (cutoff_at n l) (cutoff_at c l) (requests_at j l)
              (omega (int_laws)),
        )) in
    try_acquire-eq-admits k c p l' ∙ same ∙ sym (try_acquire-eq-admits k c p l)

-- The number of requests that `get_info` reports is the number that the window still has room for.
pub remaining-get_info :
    (k : Str) (n : ℤ) (l : SlidingWindowLimiter) (m : ℕ)
    → l.max_requests ≡ pos m
    → IsSorted n (requests_at k l)
    → (get_info k n l).1.remaining ≡ pos (m - count_if (is_fresh (cutoff_at n l)) (requests_at k l))
unfolding get_info state_at clean_expired ◌-ℤ◌
remaining-get_info k n l m e h = elim (Option-cases (find k l.windows)) [
  | inl missing ↦ ground arith
  | inr (s, found) ↦ ground (
    arith,
    pop_expired-eq-keep_if n (cutoff_at n l) s.requests (ground arith),
    length-keep_if (is_fresh (cutoff_at n l)) s.requests,
  )
]
