-- ===== src/RateLimit/Calls.antt =====
-- Histories of calls of src/rate_limit/sliding_window.hpp, with a log of what was let through.
use temp_task.Prelude.{
  ℕ, ◌&&◌, List, [], ◌∷◌, if◌then◌else◌, count_if, ℤ, ◌≤ℤ◌, leb_ℤ, Str, Str_eq, ◌==◌,
}
use temp_task.RateLimit.{SlidingWindowLimiter, try_acquire, get_info}
use temp_task.RateLimit.Window.{is_fresh}

-- A call of TryAcquire, with the key and both readings of the clock, or of GetInfo, with the key and its reading.
pub data Call : Type 0 where
  acquires : Str → ℤ → ℤ → Call
  asks : Str → ℤ → Call

-- The first reading of the clock of a call.
abbrev pub start_of : Call → ℤ
start_of (acquires key cleaned_at pushed_at) = cleaned_at
start_of (asks key read_at) = read_at

-- A request that was let through, and when.
abbrev pub Entry : Type 0
Entry = Str × ℤ

-- The limiter, and the requests it let through, newest first.
pub record Run : Type 0 where
  pub limiter : SlidingWindowLimiter
  pub log : List Entry

unfoldable pub step : Run → Call → Run
step r (acquires k cleaned_at pushed_at) =
    let (l, admitted) = try_acquire k cleaned_at pushed_at r.limiter in
    record { limiter = l; log = if admitted then (k, pushed_at) ∷ r.log else r.log }
step r (asks k read_at) = record r { limiter = (get_info k read_at r.limiter).0 }

unfoldable pub run : Run → List Call → Run
run r [] = r
run r (c ∷ cs) = run (step r c) cs

-- The clock does not run backwards from one reading to the next.
abbrev pub Ticking : ℤ → List Call → Type 0
Ticking now [] = Unit {0}
Ticking now (acquires k cleaned_at pushed_at ∷ cs) =
    (now ≤ℤ cleaned_at) × (cleaned_at ≤ℤ pushed_at) × Ticking pushed_at cs
Ticking now (asks k read_at ∷ cs) = (now ≤ℤ read_at) × Ticking read_at cs

-- The number of the key's requests that were let through from `from` until `until`.
abbrev pub admitted_within : Str → ℤ → ℤ → List Entry → ℕ
admitted_within k from until = count_if (λ e. e.0 == k && is_fresh from e.1 && leb_ℤ e.1 until)

abbrev pub admitted_since : Str → ℤ → List Entry → ℕ
admitted_since k from = count_if (λ e. e.0 == k && is_fresh from e.1)
