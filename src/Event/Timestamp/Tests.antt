-- ===== src/Event/Timestamp/Tests.antt =====
-- The clock at chosen readings: the first of 1970, the leap day of 2000 and the last millisecond of 2099.
use temp_task.Prelude.{List, ℕ, ◌/◌, ◌≡◌, refl, some, arith, str}
use temp_task.Event.Timestamp.{gmtime_date, timestamp_iso, put_time, date_from_march, find_month}
use temp_task.Event.Timestamp.Reading.{
  read_fields, iso_format, IsTime, timestamp_iso-IsTime, read_iso, read_iso-timestamp_iso,
}

first_test : timestamp_iso 0 ≡ str "1970-01-01T00:00:00.000Z"
unfolding timestamp_iso put_time gmtime_date date_from_march find_month
first_test = refl

leap_test : timestamp_iso 951825599999000000 ≡ str "2000-02-29T11:59:59.999Z"
unfolding timestamp_iso put_time gmtime_date date_from_march find_month
leap_test = refl

last_test : timestamp_iso 4102444799999999999 ≡ str "2099-12-31T23:59:59.999Z"
unfolding timestamp_iso put_time gmtime_date date_from_march find_month
last_test = refl

timestamp_iso-IsTime_example :
    (fields : List ℕ) × (read_fields iso_format (timestamp_iso 951825599999000000) ≡ some fields)
    × (IsTime fields)
unfolding gmtime_date date_from_march find_month
timestamp_iso-IsTime_example = timestamp_iso-IsTime 951825599999000000 (omega arith)

read_iso-timestamp_iso_example :
    read_iso (timestamp_iso 1709208000123456789) ≡ some (1709208000123456789 / 1000000)
unfolding gmtime_date date_from_march find_month
read_iso-timestamp_iso_example = read_iso-timestamp_iso 1709208000123456789 (omega arith)
