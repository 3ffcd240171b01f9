-- ===== src/Event/Timestamp/Months.antt =====
-- The month and the day of a year that begins with March.
use temp_task.Prelude.{
  ℕ, zero, suc, ◌+◌, ◌-◌, ◌≤◌, ◌<◌, ◌≡◌, Bool-cases, inl, inr, refl, true, List, [], ◌∷◌, arith,
  ltb,
}
use temp_task.Event.Timestamp.{from_march, find_month, month_lengths}
use temp_task.Event.Timestamp.Calendar.{
  IsDate, is_leap, days_in_year, day_number, days_before_year, days_before_year-add_one,
}

-- The days of the first months of a list.
unfoldable days_of : List ℕ → ℕ → ℕ
days_of [] k = 0
days_of (len ∷ lens) zero = 0
days_of (len ∷ lens) (suc k) = len + days_of lens k

days_of-∷ :
    (len : ℕ)
    → (lens : List ℕ) → (k m : ℕ) → k < m
    → days_of (len ∷ lens) (m - k) ≡ len + days_of lens (m - suc k)
unfolding days_of
days_of-∷ len lens k m h = let e : m - k ≡ suc (m - suc k) = omega (arith, h) in rw e refl

days_of-zero : (lens : List ℕ) → (k : ℕ) → days_of lens (k - k) ≡ 0
unfolding days_of
days_of-zero [] k = refl
days_of-zero (len ∷ lens) k = let e : k - k ≡ 0 = omega arith in rw e refl

find_month-days_of :
    (lens : List ℕ)
    → (k n : ℕ)
    → (k ≤ (find_month lens k n).0)
      × (days_of lens ((find_month lens k n).0 - k) + (find_month lens k n).1 ≡ n)
unfolding find_month
find_month-days_of [] k n = unfold days_of in ground arith
find_month-days_of (len ∷ lens) k n = elim (Bool-cases (ltb n len)) [
  | inl e ↦ rw e (ground (arith, days_of-zero (len ∷ lens) k))
  | inr e ↦ rw e (
      ground (
        arith,
        find_month-days_of lens (suc k) (n - len),
        days_of-∷ len lens k (find_month lens (suc k) (n - len)).0,
      ))
]

find_month-bound : (d : ℕ) → d ≤ 365 → (find_month month_lengths 0 d).0 ≤ 11
unfolding find_month
find_month-bound d h = ground arith

-- The day that a month and a day of such a year stand for.
from_march-day_number :
    (y k j : ℕ)
    → k ≤ 11
    → day_number (from_march y (k, j)) + 306
      ≡ days_before_year (y + 1) + days_of month_lengths k + j
unfolding days_of days_in_year
from_march-day_number y zero j h = ground (arith, days_before_year-add_one y)
from_march-day_number y (suc zero) j h = ground (arith, days_before_year-add_one y)
from_march-day_number y (suc (suc zero)) j h = ground (arith, days_before_year-add_one y)
from_march-day_number y (suc (suc (suc zero))) j h = ground (arith, days_before_year-add_one y)
from_march-day_number y (suc (suc (suc (suc zero)))) j h =
    ground (arith, days_before_year-add_one y)
from_march-day_number y (suc (suc (suc (suc (suc zero))))) j h =
    ground (arith, days_before_year-add_one y)
from_march-day_number y (suc (suc (suc (suc (suc (suc zero)))))) j h =
    ground (arith, days_before_year-add_one y)
from_march-day_number y (suc (suc (suc (suc (suc (suc (suc zero))))))) j h =
    ground (arith, days_before_year-add_one y)
from_march-day_number y (suc (suc (suc (suc (suc (suc (suc (suc zero)))))))) j h =
    ground (arith, days_before_year-add_one y)
from_march-day_number y (suc (suc (suc (suc (suc (suc (suc (suc (suc zero))))))))) j h =
    ground (arith, days_before_year-add_one y)
from_march-day_number y (suc (suc (suc (suc (suc (suc (suc (suc (suc (suc zero)))))))))) j h =
    ground (arith, days_before_year-add_one y)
from_march-day_number y (suc (suc (suc (suc (suc (suc (suc (suc (suc (suc (suc zero))))))))))) j h =
    ground (arith, days_before_year-add_one y)
from_march-day_number y (suc (suc (suc (suc (suc (suc (suc (suc (suc (suc (suc (suc k)))))))))))) j
      h =
    absurd (omega (arith, h))

pub find_month-IsDate :
    (y d : ℕ)
    → d ≤ 365
    → (d ≡ 365 → is_leap (y + 1) ≡ true)
    → IsDate (from_march y (find_month month_lengths 0 d))
unfolding find_month
find_month-IsDate y d h leap = ground (arith, leap)

pub find_month-day_number :
    (y d : ℕ)
    → d ≤ 365
    → day_number (from_march y (find_month month_lengths 0 d)) + 306 ≡ days_before_year (y + 1) + d
find_month-day_number y d h =
    let found = find_month month_lengths 0 d in
    ground (
      arith,
      from_march-day_number y found.0 found.1 (find_month-bound d h),
      find_month-days_of month_lengths 0 d,
    )
