-- ===== src/Event/Timestamp/Reading.antt =====
-- A reader of ISO 8601 texts, and what it reads of the texts that GetCurrentTimestampISO makes.
use temp_task.Prelude.{
  ℕ, zero, suc, ◌+◌, ◌-◌, ◌*◌, ◌/◌, ◌%◌, ◌<◌, ◌≡◌, refl, ap, List, [], ◌∷◌, ◌++◌, Option, none,
  some, arith, if◌then◌else◌, ◌&&◌, leb, nat_eq, Str,
}
use mathlib.Core.Option
use mathlib.Core.List.{append_assoc}
use temp_task.Event.Timestamp.{Date, digits, timestamp_iso, put_time, gmtime_date}
use temp_task.Event.Timestamp.Calendar.{IsDate, day_number}
use temp_task.Event.Timestamp.Gregorian.{gmtime_date-IsDate}

-- One digit after the number that was read so far.
abbrev read_digit : ℕ × Str → Option (ℕ × Str)
read_digit (n, []) = none
read_digit (n, c ∷ s) = if leb 48 c && leb c 57 then some (n * 10 + (c - 48), s) else none

abbrev read_next : Option (ℕ × Str) → Option (ℕ × Str)
read_next none = none
read_next (some r) = read_digit r

-- A number of w digits at the beginning of a text, and the rest of the text.
unfoldable pub read_digits : ℕ → Str → Option (ℕ × Str)
read_digits zero s = some (0, s)
read_digits (suc w) s = read_next (read_digits w s)

-- One more than the largest number of w digits.
abbrev ten_to : ℕ → ℕ
ten_to zero = 1
ten_to (suc w) = ten_to w * 10

read_digits-digits :
    (w n : ℕ) (rest : Str) → n < ten_to w → read_digits w (digits w n ++ rest) ≡ some (n, rest)
unfolding read_digits
read_digits-digits zero n rest h = ground arith
read_digits-digits (suc w) n rest h =
    rw
      (
        append_assoc (digits w (n / 10)) ((48 + n % 10) ∷ []) rest,
        read_digits-digits w (n / 10) ((48 + n % 10) ∷ rest) (omega (arith, h)),
      )
      (ground (arith, h))

-- The rest of a format after its first number, which must be followed by a character.
abbrev pub read_rest : ℕ → (Str → Option (List ℕ)) → Option (ℕ × Str) → Option (List ℕ)
read_rest c next none = none
read_rest c next (some (n, [])) = none
read_rest c next (some (n, d ∷ s)) = if nat_eq d c then Option.map (λ ns. n ∷ ns) (next s) else none

-- The numbers of a text, each of as many digits as the format says and before the character that it says.
abbrev pub read_fields : List (ℕ × ℕ) → Str → Option (List ℕ)
read_fields [] [] = some []
read_fields [] (c ∷ s) = none
read_fields ((w, c) ∷ format) s = read_rest c (read_fields format) (read_digits w s)

-- The milliseconds from the beginning of 1970 to a time.
abbrev millis : List ℕ → Option ℕ
millis (year ∷ month ∷ day ∷ h ∷ m ∷ s ∷ ms ∷ []) = some (
    ((day_number (record { year = year; month = month; day = day }) - 719528) * 86400
        + h * 3600
        + m * 60
        + s)
      * 1000
    + ms)
millis fields = none

-- YYYY-MM-DDThh:mm:ss.sssZ
abbrev pub iso_format : List (ℕ × ℕ)
iso_format = (4, b'-') ∷ (2, b'-') ∷ (2, b'T') ∷ (2, b':') ∷ (2, b':') ∷ (2, b'.') ∷ (3, b'Z') ∷ []

unfoldable pub read_iso : Str → Option ℕ
read_iso s = Option.bind (read_fields iso_format s) millis

-- A date of the calendar and a time of the day.
abbrev pub IsTime : List ℕ → Type 0
IsTime (year ∷ month ∷ day ∷ h ∷ m ∷ s ∷ ms ∷ []) =
    IsDate (record { year = year; month = month; day = day })
    × (h < 24)
    × (m < 60)
    × (s < 60)
    × (ms < 1000)
IsTime fields = ⊥

read_rest-digits :
    (w n c : ℕ) (s : Str) (next : Str → Option (List ℕ))
    → n < ten_to w
    → read_rest c next (read_digits w (digits w n ++ c ∷ s)) ≡ Option.map (λ ns. n ∷ ns) (next s)
read_rest-digits w n c s next h = rw (read_digits-digits w n (c ∷ s) h) (ground arith)

clock-millis :
    (now days : ℕ)
    → days ≡ now / 1000000000 / 86400 + 719528
    → let t = now / 1000000000 in
      ((days - 719528) * 86400 + t % 86400 / 3600 * 3600 + t % 3600 / 60 * 60 + t % 60) * 1000
        + now / 1000000 % 1000
      ≡ now / 1000000
clock-millis now days h = rw h (omega arith)

date-two_digits : (date : Date) → IsDate date → date.day < 100
date-two_digits date real = ground (arith, real.of_month)

-- The fields of a text that GetCurrentTimestampISO makes.
abbrev fields_of : ℕ → List ℕ
fields_of now =
    let t = now / 1000000000 in
    let date = gmtime_date t in
    date.year
    ∷ date.month
    ∷ date.day
    ∷ (t % 86400 / 3600)
    ∷ (t % 3600 / 60)
    ∷ (t % 60)
    ∷ (now / 1000000 % 1000)
    ∷ []

read_fields-timestamp_iso :
    (now : ℕ)
    → (gmtime_date (now / 1000000000)).year < 10000
    → read_fields iso_format (timestamp_iso now) ≡ some (fields_of now)
unfolding timestamp_iso put_time
read_fields-timestamp_iso now h =
    let t = now / 1000000000 in
    let date = gmtime_date t in
    let real = (gmtime_date-IsDate t).0 in
    rw
      (
        read_rest-digits 4 date.year b'-' _ _ h,
        read_rest-digits 2 date.month b'-' _ _ (omega (arith, real.of_year)),
        read_rest-digits 2 date.day b'T' _ _ (date-two_digits date real),
        read_rest-digits 2 (t % 86400 / 3600) b':' _ _ (omega arith),
        read_rest-digits 2 (t % 3600 / 60) b':' _ _ (omega arith),
        read_rest-digits 2 (t % 60) b'.' _ _ (omega arith),
        read_rest-digits 3 (now / 1000000 % 1000) b'Z' _ _ (omega arith),
      )
      refl

-- The text of every reading of the clock, up to the year 9999, has the form YYYY-MM-DDThh:mm:ss.sssZ, of digits
-- for the letters but T and Z, with a date that the calendar has, hours below 24, minutes and seconds below 60 and
-- milliseconds below 1000.
pub timestamp_iso-IsTime :
    (now : ℕ)
    → (gmtime_date (now / 1000000000)).year < 10000
    → (fields : List ℕ) × (read_fields iso_format (timestamp_iso now) ≡ some fields)
      × (IsTime fields)
timestamp_iso-IsTime now h = (
  fields_of now,
  read_fields-timestamp_iso now h,
  ((gmtime_date-IsDate (now / 1000000000)).0, omega arith, omega arith, omega arith, omega arith),
)

-- The text of a reading of the clock, up to the year 9999, is read back as the milliseconds of that reading.
pub read_iso-timestamp_iso :
    (now : ℕ)
    → (gmtime_date (now / 1000000000)).year < 10000
    → read_iso (timestamp_iso now) ≡ some (now / 1000000)
unfolding read_iso Option.bind
read_iso-timestamp_iso now h = rw (read_fields-timestamp_iso now h) (
    ap (λ (n : ℕ). some n)
      (clock-millis now (day_number (gmtime_date (now / 1000000000)))
        (gmtime_date-IsDate (now / 1000000000)).1))
