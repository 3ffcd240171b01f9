-- ===== src/Event/Timestamp/Gregorian.antt =====
-- The date of a day, by its blocks of 400, 100 and 4 years.
use temp_task.Prelude.{ℕ, ◌+◌, ◌-◌, ◌*◌, ◌/◌, ◌%◌, ◌≤◌, ◌≡◌, true, arith}
use temp_task.Event.Timestamp.{
  blocks, from_march, date_from_march, gmtime_date, find_month, month_lengths,
}
use temp_task.Event.Timestamp.Calendar.{IsDate, is_leap, day_number, days_before_year_lem}
use temp_task.Event.Timestamp.Months.{find_month-IsDate, find_month-day_number}

block_days :
    (q c p y : ℕ)
    → c ≤ 3
    → p ≤ 24
    → y ≤ 3
    → let year = q * 400 + c * 100 + p * 4 + y in
      year * 365 + year / 4 + year / 400 - year / 100 ≡ q * 146097 + c * 36524 + p * 1461 + y * 365
block_days q c p y hc hp hy = omega arith

block-is_leap :
    (q c p : ℕ)
    → c ≤ 3
    → p ≤ 24
    → (p ≡ 24 → c ≡ 3)
    → is_leap (q * 400 + c * 100 + p * 4 + 3 + 1) ≡ true
unfolding is_leap
block-is_leap q c p hc hp h = ground (arith, h)

-- A day as its blocks: q of 400 years, c of 100, p of 4, y years and d days.
record InBlocks (n q c p y d : ℕ) : Type 0 where
  c_bound : c ≤ 3
  p_bound : p ≤ 24
  y_bound : y ≤ 3
  d_bound : d ≤ 365
  in_all : n ≡ q * 146097 + c * 36524 + p * 1461 + y * 365 + d
  last_year : d ≡ 365 → y ≡ 3
  last_block : d ≡ 365 → p ≡ 24 → c ≡ 3

years-InBlocks :
    (n q c p r : ℕ)
    → c ≤ 3
    → p ≤ 24
    → r ≤ 1460
    → (p ≡ 24 → r ≡ 1460 → c ≡ 3)
    → n ≡ q * 146097 + c * 36524 + p * 1461 + r
    → InBlocks n q c p (blocks 3 365 r) (r - blocks 3 365 r * 365)
years-InBlocks n q c p r hc hp hr h e = record {
  c_bound = hc;
  p_bound = hp;
  y_bound = ground arith;
  d_bound = ground arith;
  in_all = ground arith;
  last_year = λ l. ground arith;
  last_block = λ l m. h m (ground arith);
}

day-InBlocks :
    (n : ℕ)
    → let rest400 = n % 146097 in
      let centuries = blocks 3 36524 rest400 in
      let rest100 = rest400 - centuries * 36524 in
      let rest4 = rest100 % 1461 in
      let years = blocks 3 365 rest4 in
      InBlocks n (n / 146097) centuries (rest100 / 1461) years (rest4 - years * 365)
day-InBlocks n =
    let rest400 = n % 146097 in
    let centuries = blocks 3 36524 rest400 in
    let rest100 = rest400 - centuries * 36524 in
    years-InBlocks n (n / 146097) centuries (rest100 / 1461) (rest100 % 1461) (ground arith)
      (ground arith) (ground arith) (λ a b. ground arith) (ground arith)

InBlocks-IsDate :
    (n q c p y d : ℕ)
    → InBlocks n q c p y d
    → let date = from_march (q * 400 + c * 100 + p * 4 + y) (find_month month_lengths 0 d) in
      IsDate date × (day_number date ≡ n + 60)
InBlocks-IsDate n q c p y d h =
    let year = q * 400 + c * 100 + p * 4 + y in
    (
      find_month-IsDate year d h.d_bound (λ l.
          let e = h.last_year l in rw e (block-is_leap q c p h.c_bound h.p_bound (h.last_block l))),
      omega (
        arith,
        h.in_all,
        find_month-day_number year d h.d_bound,
        days_before_year_lem year,
        block_days q c p y h.c_bound h.p_bound h.y_bound,
      ),
    )

pub date_from_march-IsDate :
    (n : ℕ) → IsDate (date_from_march n) × (day_number (date_from_march n) ≡ n + 60)
unfolding date_from_march
date_from_march-IsDate n = InBlocks-IsDate n _ _ _ _ _ (day-InBlocks n)

-- The date of std::gmtime.
pub gmtime_date-IsDate :
    (seconds : ℕ)
    → IsDate (gmtime_date seconds) × (day_number (gmtime_date seconds) ≡ seconds / 86400 + 719528)
unfolding gmtime_date
gmtime_date-IsDate seconds =
    let (a, b) = date_from_march-IsDate (seconds / 86400 + 719468) in (a, omega (arith, b))
