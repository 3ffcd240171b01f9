-- ===== src/RateLimit/Trace.antt =====
-- Histories of calls: the limit holds in every window of time, whatever the calls.
use temp_task.Prelude.{
  ◌≤◌, ◌<◌, ◌≡◌, refl, true, List, [], ◌∷◌, ◌++◌, arith, count_if, count_if-append,
  count_if-le-length, ℤ, ◌≤ℤ◌, ◌+ℤ◌, ◌-ℤ◌, -ℤ_parts, +ℤ_parts, to_size, Str, Str_eq, sym, ◌∙◌, find,
  ◌↔◌, str_eq_iff, int_laws,
}
use mathlib.Core.Path.{subst₂}
use temp_task.RateLimit.{
  state_at, SlidingWindowLimiter, ticks, pop_expired, try_acquire, make_limiter,
}
use temp_task.RateLimit.Calls.{
  Call, start_of, acquires, asks, Entry, Run, step, run, Ticking, admitted_within, admitted_since,
}
use temp_task.RateLimit.Window.{is_fresh, count_if-pop_expired, IsSorted-mono}
use temp_task.RateLimit.Laws.{
  requests_at, cutoff_at, requests_at-try_acquire, settings-try_acquire, try_acquire_room, IsValid,
  make_limiter-IsValid, try_acquire-IsValid, try_acquire_iff, requests_at-get_info,
  settings-get_info, get_info-IsValid,
}

within-le-since :
    (k : Str) (from until : ℤ) (log : List Entry)
    → admitted_within k from until log ≤ admitted_since k from log
within-le-since k from until [] = omega arith
within-le-since k from until ((j, t) ∷ log) = ground (arith, within-le-since k from until log)

-- The log of a key agrees with its deque on what is still in the window, and no window has more
-- requests than the limit.
pub record IsFaithful (m w now : ℤ) (r : Run) : Type 0 where
  pub valid : IsValid now r.limiter
  pub limit : r.limiter.max_requests ≡ m
  pub window : r.limiter.window_size ≡ w
  pub agrees :
      (k : Str) (from : ℤ)
      → now -ℤ ticks w ≤ℤ from
      → admitted_since k from r.log ≡ count_if (is_fresh from) (requests_at k r.limiter)
  pub capped : (k : Str) (from : ℤ) → admitted_within k from (from +ℤ ticks w) r.log ≤ to_size m

agrees-step :
    (k j : Str) (c p from : ℤ) (l : SlidingWindowLimiter) (log : List Entry)
    → cutoff_at c l ≤ℤ from
    → admitted_since j from log ≡ count_if (is_fresh from) (requests_at j l)
    → admitted_since j from (step (record { limiter = l; log = log }) (acquires k c p)).log
      ≡ count_if (is_fresh from) (requests_at j (try_acquire k c p l).0)
unfolding step
agrees-step k j c p from l log h e =
    let kept = pop_expired (cutoff_at c l) (requests_at k l) in
    rw (requests_at-try_acquire k j c p l) (
      ground (
        arith,
        str_eq_iff k j,
        count_if-append (is_fresh from) kept (p ∷ []),
        count_if-pop_expired (cutoff_at c l) from (requests_at k l) h,
      ))

capped-step :
    (k j : Str) (c p from : ℤ) (l : SlidingWindowLimiter) (log : List Entry)
    → c ≤ℤ p
    → (cutoff_at c l ≤ℤ from
        → admitted_since k from log ≡ count_if (is_fresh from) (requests_at k l))
    → admitted_within j from (from +ℤ ticks l.window_size) log ≤ to_size l.max_requests
    → admitted_within j from
        (from +ℤ ticks l.window_size)
        (step (record { limiter = l; log = log }) (acquires k c p)).log
      ≤ to_size l.max_requests
unfolding step
capped-step k j c p from l log h agrees old =
    let W = ticks l.window_size in
    let kept = pop_expired (cutoff_at c l) (requests_at k l) in
    ground (
      arith,
      str_eq_iff k j,
      -ℤ_parts c W,
      +ℤ_parts from W,
      agrees,
      try_acquire_room k c p l,
      within-le-since k from (from +ℤ W) log,
      count_if-le-length (is_fresh from) kept,
      count_if-pop_expired (cutoff_at c l) from (requests_at k l),
    )

acquires-IsFaithful :
    (m w now : ℤ) (r : Run) (k : Str) (t p : ℤ)
    → now ≤ℤ t
    → t ≤ℤ p
    → IsFaithful m w now r
    → IsFaithful m w p (step r (acquires k t p))
unfolding step
acquires-IsFaithful m w now r k t p h h' f = record {
  valid = try_acquire-IsValid k now t p l h h' f.valid;
  limit = (settings-try_acquire k t p l).0 ∙ f.limit;
  window = (settings-try_acquire k t p l).1 ∙ f.window;
  agrees = λ j from le.
      agrees-step k j t p from l r.log (ground (arith, f.window, -ℤ_parts t W, -ℤ_parts p W))
        (f.agrees j from (omega (arith, -ℤ_parts now W, -ℤ_parts p W)));
  capped = λ j from.
      let since = λ (le : cutoff_at t l ≤ℤ from).
        f.agrees k from (ground (arith, f.window, -ℤ_parts t W, -ℤ_parts now W)) in
      subst₂
        (λ v n. admitted_within j from (from +ℤ ticks v) (step r (acquires k t p)).log ≤ to_size n)
        f.window f.limit
        (capped-step k j t p from l r.log h' since (
          subst₂ (λ v n. admitted_within j from (from +ℤ ticks v) r.log ≤ to_size n) (sym f.window)
            (sym f.limit) (f.capped j from)));
}
  where
    open r use {limiter as l}

    W : ℤ
    W = ticks w

-- GetInfo pops what has expired, and no more.
asks-IsFaithful :
    (m w now : ℤ) (r : Run) (k : Str) (n : ℤ)
    → now ≤ℤ n
    → IsFaithful m w now r
    → IsFaithful m w n (step r (asks k n))
unfolding step
asks-IsFaithful m w now r k n h f = record {
  valid = get_info-IsValid k now n r.limiter h f.valid;
  limit = (settings-get_info k n r.limiter).0 ∙ f.limit;
  window = (settings-get_info k n r.limiter).1 ∙ f.window;
  agrees = λ j from le.
      let old = f.agrees j from (omega (arith, -ℤ_parts now (ticks w), -ℤ_parts n (ticks w))) in
      rw (requests_at-get_info k j n r.limiter) (
        ground (
          arith,
          old,
          f.window,
          str_eq_iff k j,
          count_if-pop_expired (cutoff_at n r.limiter) from (requests_at k r.limiter),
        ));
  capped = f.capped;
}

run-IsFaithful :
    (m w now : ℤ) (r : Run) (cs : List Call)
    → Ticking now cs
    → IsFaithful m w now r
    → (later : ℤ) × IsFaithful m w later (run r cs)
unfolding run
run-IsFaithful m w now r [] h f = (now, f)
run-IsFaithful m w now r (acquires k t p ∷ cs) h f =
    run-IsFaithful m w p (step r (acquires k t p)) cs h.2
      (acquires-IsFaithful m w now r k t p h.0 h.1 f)
run-IsFaithful m w now r (asks k n ∷ cs) h f =
    run-IsFaithful m w n (step r (asks k n)) cs h.1 (asks-IsFaithful m w now r k n h.0 f)

pub before-IsFaithful :
    (m w now : ℤ) (r : Run) (cs : List Call) (c : Call)
    → Ticking now (cs ++ c ∷ [])
    → IsFaithful m w now r
    → (later : ℤ) × (later ≤ℤ start_of c) × IsFaithful m w later (run r cs)
unfolding run
before-IsFaithful m w now r [] (acquires k t p) h f = (now, h.0, f)
before-IsFaithful m w now r [] (asks k n) h f = (now, h.0, f)
before-IsFaithful m w now r (acquires j t' p' ∷ cs) c h f =
    before-IsFaithful m w p' (step r (acquires j t' p')) cs c h.2
      (acquires-IsFaithful m w now r j t' p' h.0 h.1 f)
before-IsFaithful m w now r (asks j n ∷ cs) c h f =
    before-IsFaithful m w n (step r (asks j n)) cs c h.1 (asks-IsFaithful m w now r j n h.0 f)

abbrev pub fresh_run : ℤ → ℤ → Run
fresh_run m w = record { limiter = make_limiter m w; log = [] }

pub fresh_run-IsFaithful : (m w now : ℤ) → IsFaithful m w now (fresh_run m w)
unfolding make_limiter state_at find
fresh_run-IsFaithful m w now = record {
  valid = make_limiter-IsValid m w now;
  limit = refl;
  window = refl;
  agrees = λ k from le. refl;
  capped = λ k from. omega arith;
}

-- Whatever calls of TryAcquire and GetInfo are made on a new limiter, in no window of `w` seconds are more than
-- `m` requests of one key let through: for every key and every start, at most the limit falls in the window, both of
-- its ends counted. The clock's readings must not run backwards.
pub admitted_within-le-limit :
    (m w now : ℤ) (cs : List Call) (k : Str) (from : ℤ)
    → Ticking now cs
    → admitted_within k from (from +ℤ ticks w) (run (fresh_run m w) cs).log ≤ to_size m
admitted_within-le-limit m w now cs k from h =
    (run-IsFaithful m w now (fresh_run m w) cs h (fresh_run-IsFaithful m w now)).1.capped k from

-- A call of TryAcquire after any history of calls of TryAcquire and GetInfo on a new limiter is let through exactly when
-- fewer than the limit of the key's requests were let through since the cutoff: no request is refused that the
-- window has room for. The clock's readings must not run backwards.
pub try_acquire-run_iff :
    (m w now : ℤ) (cs : List Call) (k : Str) (cleaned_at pushed_at : ℤ)
    → Ticking now (cs ++ acquires k cleaned_at pushed_at ∷ [])
    → let r = run (fresh_run m w) cs in
      ((try_acquire k cleaned_at pushed_at r.limiter).1 ≡ true)
      ↔ (admitted_since k (cleaned_at -ℤ ticks w) r.log < to_size m)
try_acquire-run_iff m w now cs k cleaned_at pushed_at h =
    let (later, le, f) =
      before-IsFaithful m w now (fresh_run m w) cs (acquires k cleaned_at pushed_at) h
        (fresh_run-IsFaithful m w now) in
    let l = (run (fresh_run m w) cs).limiter in
    let sorted = IsSorted-mono later cleaned_at _ le (f.valid.sorted k) in
    let cutoff_later : later -ℤ ticks w ≤ℤ (cleaned_at -ℤ ticks w) = omega int_laws in
    ground (
      arith,
      f.window,
      f.limit,
      f.agrees k (cleaned_at -ℤ ticks w) cutoff_later,
      try_acquire_iff k cleaned_at pushed_at l sorted,
    )
