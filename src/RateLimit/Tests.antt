-- ===== src/RateLimit/Tests.antt =====
-- The limiter at concrete inputs.
use temp_task.Prelude.{
  ◌-◌, ℕ, ◌≤◌, ◌<◌, ◌≡◌, refl, ◌↔◌, true, List, [], ◌∷◌, arith, find, assign, pos, ◌+ℤ◌, ◌-ℤ◌, ◌*ℤ◌,
  str, String, ◌*◌,
}
use temp_task.RateLimit.{
  ticks, make_limiter, pop_expired, clean_expired, state_at, try_acquire, get_info,
}
use temp_task.RateLimit.Calls.{Call, acquires, asks, step, run, admitted_within, admitted_since}
use temp_task.RateLimit.Trace.{fresh_run, admitted_within-le-limit, try_acquire-run_iff}
use temp_task.RateLimit.Reports.{remaining-run}

limiter : Unit {0}
unfolding make_limiter state_at pop_expired clean_expired try_acquire get_info step run find assign
    ◌+ℤ◌ ◌-ℤ◌ ◌*ℤ◌
limiter = tt

abbrev call : String → ℕ → Call
call k t = acquires (str k) (pos t) (pos t)

abbrev seconds : ℕ → ℕ
seconds n = n * 1000000000

-- Two a minute: the third call of "a" is refused, "b" is not, and after the minute "a" is let in.
abbrev history : List Call
history =
    call "a" 10
    ∷ call "a" 20
    ∷ asks (str "a") (pos 25)
    ∷ call "a" 30
    ∷ call "b" 40
    ∷ call "a" (seconds 61)
    ∷ []

-- The same, to the call that is refused.
abbrev refused : List Call
refused = call "a" 10 ∷ call "a" 20 ∷ asks (str "a") (pos 25) ∷ call "a" 30 ∷ []

run_test :
    (run (fresh_run (pos 2) (pos 60)) history).log
    ≡ (str "a", pos 61000000000) ∷ (str "b", pos 40) ∷ (str "a", pos 20) ∷ (str "a", pos 10) ∷ []
unfolding limiter
run_test = refl

admitted_within-le-limit_example :
    admitted_within
      (str "a")
      (pos 10)
      (pos 10 +ℤ ticks (pos 60))
      (run (fresh_run (pos 2) (pos 60)) history).log
    ≤ 2
admitted_within-le-limit_example =
    admitted_within-le-limit (pos 2) (pos 60) (pos 0) history (str "a") (pos 10) (omega arith)

try_acquire-run_iff_example :
    ((try_acquire (str "a") (pos 40) (pos 40) (run (fresh_run (pos 2) (pos 60)) refused).limiter).1
      ≡ true)
    ↔ (admitted_since
          (str "a")
          (pos 40 -ℤ ticks (pos 60))
          (run (fresh_run (pos 2) (pos 60)) refused).log
        < 2)
try_acquire-run_iff_example =
    try_acquire-run_iff (pos 2) (pos 60) (pos 0) refused (str "a") (pos 40) (pos 40) (omega arith)

-- Both requests of the minute were used.
remaining-run_example :
    (get_info (str "a") (pos 40) (run (fresh_run (pos 2) (pos 60)) refused).limiter).1.remaining
    ≡ pos (
        2
        - admitted_since
            (str "a")
            (pos 40 -ℤ ticks (pos 60))
            (run (fresh_run (pos 2) (pos 60)) refused).log)
remaining-run_example = remaining-run 2 (pos 60) (pos 0) refused (str "a") (pos 40) (omega arith)
