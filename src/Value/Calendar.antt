-- ===== src/Value/Calendar.antt =====
-- The proleptic Gregorian calendar, by its rules: what `civil_from_days` of src/value.rs computes is
-- compared with it. Years are counted from the year 0.
use fing.Base.{
  ℕ, zero, suc, ◌+◌, ◌-◌, ◌*◌, ◌/◌, ◌%◌, ◌≤◌, Bool, not, ◌&&◌, ◌||◌, ◌≡◌, refl, arith, ◌==◌,
  if◌then◌else◌,
}
use fing.Base.Int.{ℤ, pos, ◌+ℤ◌}

abbrev pub is_leap : ℕ → Bool
is_leap y = y % 4 == 0 && (not (y % 100 == 0) || y % 400 == 0)

abbrev pub year_length : ℕ → ℕ
year_length y = if is_leap y then 366 else 365

abbrev pub month_length : Bool → ℕ → ℕ
month_length leap m =
    if m == 2
    then (if leap then 29 else 28)
    else if m == 4 || m == 6 || m == 9 || m == 11
    then 30
    else 31

-- The days of the years before `y`, and of the first months of a year.
unfoldable pub days_before_year : ℕ → ℕ
days_before_year zero = 0
days_before_year (suc y) = days_before_year y + year_length y

unfoldable pub days_of_months : Bool → ℕ → ℕ
days_of_months leap zero = 0
days_of_months leap (suc m) = days_of_months leap m + month_length leap (suc m)

-- The days from the first day of the year 0 to a date.
abbrev pub day_count : ℕ → ℕ → ℕ → ℕ
day_count y m d = days_before_year y + days_of_months (is_leap y) (m - 1) + d - 1

-- The date is one of the calendar, and lies so many days behind 1970-01-01, which is day 719528.
abbrev pub IsDate : ℤ → ℤ × ℕ × ℕ → Type 0
IsDate days (y, m, d) =
    (year : ℕ) × (y ≡ pos year)
    × (1 ≤ m)
    × (m ≤ 12)
    × (1 ≤ d)
    × (d ≤ month_length (is_leap year) m)
    × (days +ℤ pos 719528 ≡ pos (day_count year m d))

pub days_before_year-suc :
    (y : ℕ) → days_before_year (suc y) + y / 100 ≡ 365 * y + y / 4 + y / 400 + 366
unfolding days_before_year
days_before_year-suc zero = refl
days_before_year-suc (suc y) = ground (arith, days_before_year-suc y)

pub is_leap-period : (y e : ℕ) → is_leap (y + 400 * e) ≡ is_leap y
is_leap-period y e = ground arith
