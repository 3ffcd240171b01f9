-- ===== src/Event/Timestamp/Calendar.antt =====
-- The Gregorian calendar: its leap years, and the day with which a year begins.
use temp_task.Prelude.{
  ℕ, zero, suc, ◌+◌, ◌-◌, ◌*◌, ◌/◌, ◌%◌, ◌≤◌, ◌<◌, ◌≡◌, refl, Bool, true, false, ◌||◌, arith,
  if◌then◌else◌, nat_eq,
}
use native.Mathlib.Numerals.{add-one}
use temp_task.Event.Timestamp.{Date}

unfoldable pub is_leap : ℕ → Bool
is_leap y =
    if nat_eq (y % 4) 0 then (if nat_eq (y % 100) 0 then nat_eq (y % 400) 0 else true) else false

abbrev pub days_in_month : ℕ → ℕ → ℕ
days_in_month y m =
    if nat_eq m 2
    then (if is_leap y then 29 else 28)
    else if nat_eq m 4 || (nat_eq m 6 || (nat_eq m 9 || nat_eq m 11))
    then 30
    else 31

unfoldable pub days_in_year : ℕ → ℕ
days_in_year y = if is_leap y then 366 else 365

-- The days before a year, from the year 0 on, and before a month of a year.
unfoldable pub days_before_year : ℕ → ℕ
days_before_year zero = 0
days_before_year (suc y) = days_before_year y + days_in_year y

abbrev pub days_to_month : ℕ → ℕ → ℕ
days_to_month y zero = 0
days_to_month y (suc zero) = 0
days_to_month y (suc (suc m)) = days_in_month y (suc m) + days_to_month y (suc m)

-- A date that the calendar has.
pub record IsDate (t : Date) : Type 0 where
  pub of_year : (0 < t.month) × (t.month ≤ 12)
  pub of_month : (0 < t.day) × (t.day ≤ days_in_month t.year t.month)

-- The days from the first day of the year 0 to a date.
abbrev pub day_number : Date → ℕ
day_number t = days_before_year t.year + days_to_month t.year t.month + (t.day - 1)

days_in_year_lem :
    (y : ℕ)
    → y * 365 + y / 4 + y / 400 - y / 100 + days_in_year (y + 1)
      ≡ (y + 1) * 365 + (y + 1) / 4 + (y + 1) / 400 - (y + 1) / 100
unfolding is_leap days_in_year
days_in_year_lem y = ground arith

pub days_before_year-add_one :
    (y : ℕ) → days_before_year (y + 1) ≡ days_before_year y + days_in_year y
unfolding days_before_year
days_before_year-add_one y = rw (add-one y) refl

-- The days before a year, in closed form.
pub days_before_year_lem :
    (y : ℕ) → days_before_year (y + 1) ≡ y * 365 + y / 4 + y / 400 - y / 100 + 366
days_before_year_lem zero = unfold days_before_year days_in_year is_leap in refl
days_before_year_lem (suc y) = omega (
  arith,
  days_before_year-add_one (suc y),
  days_before_year_lem y,
  rw (add-one y) at (days_before_year_lem y),
  rw (add-one y) at (days_in_year_lem y),
)
