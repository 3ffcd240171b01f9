-- ===== src/RateLimit/Reports.antt =====
-- What GetInfo reports, and what TryAcquire decides next.
use temp_task.Prelude.{
  ℕ, ◌-◌, ◌≡◌, ◌∙◌, ap, List, [], ◌∷◌, ◌++◌, ℤ, pos, ◌≤ℤ◌, ◌-ℤ◌, Str, count_if, int_laws, sym,
}
use temp_task.RateLimit.{ticks, get_info}
use temp_task.RateLimit.Window.{is_fresh, IsSorted-mono}
use temp_task.RateLimit.Laws.{requests_at, remaining-get_info}
use temp_task.RateLimit.Calls.{Call, asks, Ticking, run, admitted_since}
use temp_task.RateLimit.Trace.{fresh_run, fresh_run-IsFaithful, before-IsFaithful}

-- After any history of calls of TryAcquire and GetInfo on a new limiter whose limit is not negative, GetInfo reports for a
-- key the limit less the number of the key's requests that were let through since the cutoff: what TryAcquire would
-- still let through at that time. The clock's readings must not run backwards.
pub remaining-run :
    (m : ℕ) (w now : ℤ) (cs : List Call) (k : Str) (read_at : ℤ)
    → Ticking now (cs ++ asks k read_at ∷ [])
    → let r = run (fresh_run (pos m) w) cs in
      (get_info k read_at r.limiter).1.remaining
      ≡ pos (m - admitted_since k (read_at -ℤ ticks w) r.log)
remaining-run m w now cs k read_at h =
    let (later, le, f) =
      before-IsFaithful (pos m) w now (fresh_run (pos m) w) cs (asks k read_at) h
        (fresh_run-IsFaithful (pos m) w now) in
    let r = run (fresh_run (pos m) w) cs in
    let sorted = IsSorted-mono later read_at _ le (f.valid.sorted k) in
    let cutoff_later : later -ℤ ticks w ≤ℤ (read_at -ℤ ticks w) = omega int_laws in
    remaining-get_info k read_at r.limiter m f.limit sorted
    ∙ ap (λ v. pos (m - count_if (is_fresh (read_at -ℤ ticks v)) (requests_at k r.limiter)))
        f.window
    ∙ ap (λ n. pos (m - n)) (sym (f.agrees k (read_at -ℤ ticks w) cutoff_later))
