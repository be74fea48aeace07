-- ===== src/Value/Months.antt =====
-- The month and day of a year that begins in March, as `civil_from_days` of src/value.rs computes
-- them.
use fing.Base.{
  ℕ, ◌+◌, ◌-◌, ◌*◌, ◌/◌, ◌≤◌, ◌<◌, Bool, true, false, ◌&&◌, ◌≡◌, ◌⊎◌, refl, Bool-cases, inl, inr,
  arith, ltb, leb, ◌==◌, if◌then◌else◌,
}
use fing.Value.Calendar.{month_length, days_of_months}
use fing.Value.Eras.{all_below, all_below-at}

abbrev pub march_month : ℕ → ℕ
march_month doy = (5 * doy + 2) / 153

abbrev pub day_of : ℕ → ℕ
day_of doy = doy - (153 * march_month doy + 2) / 5 + 1

abbrev pub month_of : ℕ → ℕ
month_of doy = if ltb (march_month doy) 10 then march_month doy + 3 else march_month doy - 9

-- The day `d` of a month `m` of `l` days, of which `before` days of its year are over with it, and
-- which is the day `doy` from March on.
abbrev checks : Bool → ℕ → ℕ → ℕ → ℕ → ℕ → Bool
checks leap doy d m l before =
    leb 1 d
    && leb d l
    && leb 1 m
    && leb m 12
    && (if ltb doy 306
        then leb 3 m && before == doy + 60 + (if leap then 1 else 0)
        else leb m 2 && before + 305 == doy)

abbrev pub Checked : Bool → ℕ → ℕ → ℕ → ℕ → ℕ → Type 0
Checked leap doy d m l before =
    (1 ≤ d)
    × (d ≤ l)
    × (1 ≤ m)
    × (m ≤ 12)
    × (((3 ≤ m) × (doy < 306) × (before ≡ doy + 60 + (if leap then 1 else 0)))
        ⊎ ((m ≤ 2) × (before + 305 ≡ doy)))

checks-Checked :
    (leap : Bool) (doy d m l before : ℕ)
    → checks leap doy d m l before ≡ true
    → Checked leap doy d m l before
checks-Checked leap doy d m l before e = elim (Bool-cases (ltb doy 306)) [
  | inl early ↦ (
    ground arith,
    ground arith,
    ground arith,
    ground arith,
    inl (ground arith, ground arith, ground arith),
  )
  | inr late ↦
      (ground arith, ground arith, ground arith, ground arith, inr (ground arith, ground arith))
]

-- The days of the year before its month, and with them the day.
abbrev pub days_to : Bool → ℕ → ℕ
days_to leap doy = days_of_months leap (month_of doy - 1) + day_of doy

month_ok : Bool → ℕ → Bool
month_ok leap doy =
    checks leap doy (day_of doy) (month_of doy) (month_length leap (month_of doy))
      (days_to leap doy)

common_months_ok : all_below 365 (month_ok false) ≡ true
unfolding month_ok days_of_months
common_months_ok = refl

leap_months_ok : all_below 366 (month_ok true) ≡ true
unfolding month_ok days_of_months
leap_months_ok = refl

month_is_ok :
    (leap : Bool) (doy : ℕ) → doy < 365 + (if leap then 1 else 0) → month_ok leap doy ≡ true
month_is_ok true doy h = all_below-at 366 (month_ok true) doy leap_months_ok h
month_is_ok false doy h = all_below-at 365 (month_ok false) doy common_months_ok h

-- Every day of a year has a month and a day of that month, which lie as far behind its start.
pub month_of-Checked :
    (leap : Bool) (doy : ℕ)
    → doy < 365 + (if leap then 1 else 0)
    → Checked leap doy
        (day_of doy)
        (month_of doy)
        (month_length leap (month_of doy))
        (days_to leap doy)
unfolding month_ok
month_of-Checked leap doy h = checks-Checked leap doy _ _ _ _ (month_is_ok leap doy h)
