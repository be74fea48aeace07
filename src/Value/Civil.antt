-- ===== src/Value/Civil.antt =====
-- The year, month and day of `civil_from_days` of src/value.rs, by the calendar.
use fing.Base.{
  ℕ, suc, ◌+◌, ◌-◌, ◌*◌, ◌≤◌, ◌<◌, Bool, ◌≡◌, inl, inr, ap, sym, ◌∙◌, arith, if◌then◌else◌,
}
use fing.Value.Calendar.{
  is_leap, month_length, days_before_year, days_before_year-suc, day_count, is_leap-period,
}
use fing.Value.Eras.{start, leap_day}
use fing.Value.Months.{day_of, month_of, days_to, Checked, month_of-Checked}

-- The days before the March of a year of an era.
march :
    (yoe era : ℕ)
    → yoe < 400
    → days_before_year (suc (yoe + 400 * era)) ≡ 146097 * era + start yoe + 366
march yoe era h = omega (arith, days_before_year-suc (yoe + 400 * era))

abbrev leap_of : Bool → ℕ
leap_of leap = if leap then 1 else 0

year_before : (y : ℕ) → days_before_year y + 365 + leap_of (is_leap y) ≡ days_before_year (suc y)
unfolding days_before_year
year_before y = ground arith

-- A date of the calendar, and its day from the start of the year 0.
abbrev pub IsAt : ℕ → ℕ → ℕ → ℕ → Type 0
IsAt y m d n =
    (1 ≤ m) × (m ≤ 12) × (1 ≤ d) × (d ≤ month_length (is_leap y) m) × (day_count y m d ≡ n)

-- The day of a date in March or later, and of one before.
early_count :
    (n dom d lp doy s n' : ℕ)
    → 1 ≤ d
    → n + 365 + lp ≡ n'
    → n' ≡ s + 366
    → dom + d ≡ doy + 60 + lp
    → n + dom + d - 1 ≡ s + doy + 60
early_count n dom d lp doy s n' h e e' e'' = omega arith

late_count :
    (dom d doy s n : ℕ) → 1 ≤ d → n ≡ s + 366 → dom + d + 305 ≡ doy → n + dom + d - 1 ≡ s + doy + 60
late_count dom d doy s n h e e' = omega arith

too_late : (dom d doy : ℕ) → 1 ≤ d → dom + d + 305 ≡ doy → doy < 306 → ⊥
too_late dom d doy h e l = omega arith

apart : (doy : ℕ) → doy < 306 → 306 ≤ doy → ⊥
apart doy h l = omega arith

pub early :
    (yoe era doy : ℕ)
    → yoe < 400
    → doy < 306
    → (3 ≤ month_of doy)
      × IsAt (yoe + 400 * era) (month_of doy) (day_of doy) (146097 * era + start yoe + doy + 60)
early yoe era doy h l = go (month_of-Checked (is_leap (yoe + 400 * era)) doy (below _ l))
  where
    below : (lp : ℕ) → doy < 306 → doy < 365 + lp
    below lp l = omega arith

    go :
        Checked
          (is_leap (yoe + 400 * era))
          doy
          (day_of doy)
          (month_of doy)
          (month_length (is_leap (yoe + 400 * era)) (month_of doy))
          (days_to (is_leap (yoe + 400 * era)) doy)
        → (3 ≤ month_of doy)
          × IsAt (yoe + 400 * era) (month_of doy) (day_of doy) (146097 * era + start yoe + doy + 60)
    go (d1, dl, m1, m12, inl (m3, _, e)) = (
      m3,
      (
        m1,
        m12,
        d1,
        dl,
        early_count _ _ (day_of doy) _ doy _ _ d1 (year_before (yoe + 400 * era)) (march yoe era h)
            e,
      ),
    )
    go (d1, dl, m1, m12, inr (_, e)) = absurd (too_late _ (day_of doy) doy d1 e l)

next_leap : (yoe era : ℕ) → leap_day yoe ≡ leap_of (is_leap (suc (yoe + 400 * era)))
next_leap yoe era = ap leap_of (sym (is_leap-period (yoe + 1) era) ∙ ap is_leap same)
  where
    same : yoe + 1 + 400 * era ≡ suc (yoe + 400 * era)
    same = omega arith

pub late :
    (yoe era doy : ℕ)
    → yoe < 400
    → 306 ≤ doy
    → doy ≤ 364 + leap_day yoe
    → (month_of doy ≤ 2)
      × IsAt
          (suc (yoe + 400 * era))
          (month_of doy)
          (day_of doy)
          (146097 * era + start yoe + doy + 60)
late yoe era doy h l u =
    go (month_of-Checked (is_leap (suc (yoe + 400 * era))) doy (within _ _ u (next_leap yoe era)))
  where
    within : (a b : ℕ) → doy ≤ 364 + a → a ≡ b → doy < 365 + b
    within a b l e = omega arith

    go :
        Checked
          (is_leap (suc (yoe + 400 * era)))
          doy
          (day_of doy)
          (month_of doy)
          (month_length (is_leap (suc (yoe + 400 * era))) (month_of doy))
          (days_to (is_leap (suc (yoe + 400 * era))) doy)
        → (month_of doy ≤ 2)
          × IsAt
              (suc (yoe + 400 * era))
              (month_of doy)
              (day_of doy)
              (146097 * era + start yoe + doy + 60)
    go (d1, dl, m1, m12, inl (_, less, _)) = absurd (apart doy less l)
    go (d1, dl, m1, m12, inr (m2, e)) =
        (m2, (m1, m12, d1, dl, late_count _ (day_of doy) doy _ _ d1 (march yoe era h) e))
