-- ===== src/RateLimit/Waiting.antt =====
-- A client that waits is let through.
use temp_task.Prelude.{◌≡◌, false, ◌&&◌, List, All, ℤ, Str, Str_eq, ◌==◌}
use temp_task.RateLimit.Window.{is_fresh}
use temp_task.RateLimit.Calls.{Entry}

-- No request of the key was let through from `from` on.
abbrev pub NoneSince : Str → ℤ → List Entry → Type 0
NoneSince k from = All (λ e. (e.0 == k && is_fresh from e.1) ≡ false)
