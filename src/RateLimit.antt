-- ===== src/RateLimit.antt =====
-- src/rate_limit/sliding_window.hpp and sliding_window.cpp: a limiter that keeps, for each key, the
-- times of the requests it let through. Times are ticks (nanoseconds) of the steady clock; each
-- reading of the clock is an argument. The mutex makes each method one step.
pub mod Window
pub mod Laws
pub mod Calls
pub mod Trace
pub mod Waiting
pub mod Reports
mod Tests
use temp_task.Prelude.{
  ℕ, ◌+◌, ◌-◌, Bool, true, false, List, [], ◌∷◌, ◌++◌, Option, none, some, if◌then◌else◌, leb,
  length, ℤ, pos, ◌-ℤ◌, ◌*ℤ◌, ltb_ℤ, max_ℤ, to_size, Str, Str_eq, Dict, find, assign,
}

-- struct RateLimitInfo
pub record RateLimitInfo : Type 0 where
  pub limit : ℤ
  pub remaining : ℤ
  pub reset_seconds : ℤ

-- struct WindowState: the deque, its front first.
pub record WindowState : Type 0 where
  pub requests : List ℤ

pub record SlidingWindowLimiter : Type 0 where
  pub max_requests : ℤ
  -- std::chrono::seconds
  pub window_size : ℤ
  pub windows : Dict Str WindowState

unfoldable pub make_limiter : ℤ → ℤ → SlidingWindowLimiter
make_limiter max_requests window_seconds = record {
  max_requests = max_requests;
  window_size = window_seconds;
  windows = [];
}

-- Seconds in ticks of the steady clock.
abbrev pub ticks : ℤ → ℤ
ticks s = s *ℤ pos 1000000000

-- The `while` of CleanExpired over the deque.
unfoldable pub pop_expired : ℤ → List ℤ → List ℤ
pop_expired cutoff [] = []
pop_expired cutoff (t ∷ ts) = if ltb_ℤ t cutoff then pop_expired cutoff ts else t ∷ ts

unfoldable pub clean_expired : ℤ → ℤ → WindowState → WindowState
unfolding pop_expired
clean_expired window_size now state = record state {
  requests = pop_expired (now -ℤ ticks window_size) state.requests;
}

-- windows_[key]: a key that is missing is entered with an empty deque.
unfoldable pub state_at : Str → SlidingWindowLimiter → WindowState
state_at key l = elim (find key l.windows) [ none ↦ record { requests = [] } | some s ↦ s ]

-- `cleaned_at` is the reading of the clock in CleanExpired, `pushed_at` the one for push_back.
unfoldable pub try_acquire : Str → ℤ → ℤ → SlidingWindowLimiter → SlidingWindowLimiter × Bool
unfolding state_at clean_expired
try_acquire key cleaned_at pushed_at l =
    let state = clean_expired l.window_size cleaned_at (state_at key l) in
    if leb (to_size l.max_requests) (length state.requests)
    then (record l { windows = assign key state l.windows }, false)
    else (
      record l {
        windows =
            assign key (record state { requests = state.requests ++ pushed_at ∷ [] }) l.windows;
      },
      true,
    )

unfoldable pub get_info : Str → ℤ → SlidingWindowLimiter → SlidingWindowLimiter × RateLimitInfo
unfolding clean_expired
get_info key now l = elim (find key l.windows) [
  | none ↦ (
    l,
    record { limit = l.max_requests; remaining = l.max_requests; reset_seconds = l.window_size },
  )
  | some found ↦
      let state = clean_expired l.window_size now found in
      (
        record l { windows = assign key state l.windows },
        record {
          limit = l.max_requests;
          remaining = max_ℤ (pos 0) (l.max_requests -ℤ pos (length state.requests));
          reset_seconds = l.window_size;
        },
      )
]
