-- ===== src/Event/Timestamp.antt =====
-- EventProducer::GetCurrentTimestampISO, with what std::gmtime and std::put_time do for it. A reading of the
-- system clock is its nanoseconds since the beginning of 1970.
pub mod Calendar
pub mod Months
pub mod Gregorian
pub mod Reading
mod Tests
use temp_task.Prelude.{
  ℕ, zero, suc, ◌+◌, ◌-◌, ◌*◌, ◌/◌, ◌%◌, List, [], ◌∷◌, ◌++◌, if◌then◌else◌, ltb, Str, str,
}

pub record Date : Type 0 where
  pub year : ℕ
  pub month : ℕ
  pub day : ℕ

-- The lengths of the months of a year that begins with March and ends with a leap day.
abbrev pub month_lengths : List ℕ
month_lengths = 31 ∷ 30 ∷ 31 ∷ 30 ∷ 31 ∷ 31 ∷ 30 ∷ 31 ∷ 30 ∷ 31 ∷ 31 ∷ 29 ∷ []

-- The number of whole months in n days, and the days that are left.
unfoldable pub find_month : List ℕ → ℕ → ℕ → ℕ × ℕ
find_month [] k n = (k, n)
find_month (len ∷ lens) k n =
    let later = find_month lens (suc k) (n - len) in if ltb n len then (k, n) else later

-- How many blocks of a size are in n days, at most `most`.
abbrev pub blocks : ℕ → ℕ → ℕ → ℕ
blocks most size n = if ltb most (n / size) then most else n / size

-- The month and the day of a year that begins with March, in the year of the calendar.
abbrev pub from_march : ℕ → ℕ × ℕ → Date
from_march year (k, n) =
    if ltb k 10
    then record { year = year; month = k + 3; day = n + 1 }
    else record { year = year + 1; month = k - 9; day = n + 1 }

-- The date of a day that is counted from March 1st of the year 0: 400, 100 and 4 years, and one, have
-- 146097, 36524, 1461 and 365 days, the last block of each kind with a leap day more or not.
unfoldable pub date_from_march : ℕ → Date
date_from_march n =
    let rest400 = n % 146097 in
    let centuries = blocks 3 36524 rest400 in
    let rest100 = rest400 - centuries * 36524 in
    let rest4 = rest100 % 1461 in
    let years = blocks 3 365 rest4 in
    from_march (n / 146097 * 400 + centuries * 100 + rest100 / 1461 * 4 + years)
      (find_month month_lengths 0 (rest4 - years * 365))

-- The date part of std::gmtime: the first day of 1970 is 719468 days after that March 1st.
unfoldable pub gmtime_date : ℕ → Date
unfolding date_from_march
gmtime_date seconds = date_from_march (seconds / 86400 + 719468)

-- A number in w digits, as std::put_time and std::setw with std::setfill('0') write it.
abbrev pub digits : ℕ → ℕ → Str
digits zero n = []
digits (suc w) n = digits w (n / 10) ++ (48 + n % 10) ∷ []

-- std::put_time(…, "%Y-%m-%dT%H:%M:%S")
unfoldable pub put_time : ℕ → Str
unfolding gmtime_date
put_time seconds =
    let date = gmtime_date seconds in
    digits 4 date.year
    ++ (str "-"
        ++ (digits 2 date.month
            ++ (str "-"
                ++ (digits 2 date.day
                    ++ (str "T"
                        ++ (digits 2 (seconds % 86400 / 3600)
                            ++ (str ":"
                                ++ (digits 2 (seconds % 3600 / 60)
                                    ++ (str ":" ++ digits 2 (seconds % 60))))))))))

-- GetCurrentTimestampISO, with the clock read at `now`.
unfoldable pub timestamp_iso : ℕ → Str
unfolding put_time
timestamp_iso now =
    let time_t = now / 1000000000 in
    let ms = now / 1000000 % 1000 in put_time time_t ++ (str "." ++ (digits 3 ms ++ str "Z"))
