-- ===== src/Value/Machine.antt =====
-- The steps of `civil_from_days` of src/value.rs, on machine integers and on numbers.
use fing.Base.{
  ◌∙◌, ℕ, suc, ◌+◌, ◌-◌, ◌*◌, ◌/◌, ◌%◌, ◌^◌, ◌≤◌, ◌<◌, true, false, ◌≡◌, inl, inr, refl, ap,
  Bool-cases, arith, ltb, leb, if◌then◌else◌,
}
use fing.Base.Int.{◌≤ℤ◌, ℤ, pos, ◌+ℤ◌, ◌-ℤ◌, ◌*ℤ◌, quot_ℤ, wrap64, wrap32, wrap32_fits}
use fing.Value.Date.{
  year_in_era, day_in_year, month_from_march, day_in_month, month_number, year_number,
  civil_from_era,
}
use fing.Value.Eras.{start, leap_day, year_of_era, year_of_era-bounds}
use fing.Value.Months.{march_month, day_of, month_of}
use fing.Value.Civil.{early, late}

pub add_pos : (a b : ℕ) → a + b < 2 ^ 63 → wrap64 (pos a +ℤ pos b) ≡ pos (a + b)
unfolding wrap64 ◌+ℤ◌
add_pos a b h = ground arith

pub sub_pos : (a b : ℕ) → b ≤ a → a < 2 ^ 63 → wrap64 (pos a -ℤ pos b) ≡ pos (a - b)
unfolding wrap64 ◌-ℤ◌
sub_pos a b l h = ground arith

pub mul_pos : (a b : ℕ) → a * b < 2 ^ 63 → wrap64 (pos a *ℤ pos b) ≡ pos (a * b)
unfolding wrap64 ◌*ℤ◌
mul_pos a b h = ground arith

year_in_era-pos : (doe : ℕ) → doe < 146097 → year_in_era (pos doe) ≡ pos (year_of_era doe)
unfolding year_in_era quot_ℤ
year_in_era-pos doe h =
    rw
      (
        sub_pos doe (doe / 1460) (omega arith) (omega arith),
        add_pos (doe - doe / 1460) (doe / 36524) (omega arith),
        sub_pos (doe - doe / 1460 + doe / 36524) (doe / 146096) (omega arith) (omega arith),
      )
      refl

day_in_year-pos :
    (doe yoe : ℕ)
    → yoe < 400
    → start yoe ≤ doe
    → doe < 146097
    → day_in_year (pos doe) (pos yoe) ≡ pos (doe - start yoe)
unfolding day_in_year quot_ℤ
day_in_year-pos doe yoe l h u =
    rw
      (
        mul_pos 365 yoe (omega arith),
        add_pos (365 * yoe) (yoe / 4) (omega arith),
        sub_pos (365 * yoe + yoe / 4) (yoe / 100) (omega arith) (omega arith),
        sub_pos doe (start yoe) h (omega arith),
      )
      refl

month_from_march-pos : (doy : ℕ) → doy < 366 → month_from_march (pos doy) ≡ pos (march_month doy)
unfolding month_from_march quot_ℤ
month_from_march-pos doy h =
    rw (mul_pos 5 doy (omega arith), add_pos (5 * doy) 2 (omega arith)) refl

day_in_month-pos :
    (doy : ℕ) → doy < 366 → day_in_month (pos doy) (pos (march_month doy)) ≡ pos (day_of doy)
unfolding day_in_month quot_ℤ
day_in_month-pos doy h =
    rw
      (
        mul_pos 153 (march_month doy) (omega arith),
        add_pos (153 * march_month doy) 2 (omega arith),
        sub_pos doy ((153 * march_month doy + 2) / 5) (omega arith) (omega arith),
        add_pos (doy - (153 * march_month doy + 2) / 5) 1 (omega arith),
      )
      refl

month_number-pos :
    (mp : ℕ) → mp < 12 → month_number (pos mp) ≡ pos (if ltb mp 10 then mp + 3 else mp - 9)
unfolding month_number
month_number-pos mp h = elim (Bool-cases (ltb mp 10)) [
  | inl less ↦
      let e : ltb (mp + 0) 10 ≡ true = ground arith in rw (e, less, add_pos mp 3 (omega arith)) refl
  | inr more ↦
      let e : ltb (mp + 0) 10 ≡ false = ground arith in
      rw (e, more, sub_pos mp 9 (ground arith) (omega arith)) refl
]

year_number-pos :
    (m y : ℕ) → y < 2 ^ 31 → year_number (pos m) (pos y) ≡ pos (if leb m 2 then suc y else y)
unfolding year_number
year_number-pos m y h = elim (Bool-cases (leb m 2)) [
  | inl early ↦
      let e : leb (m + 0) 2 ≡ true = ground arith in
      rw (e, early, add_pos y 1 (omega arith)) (ap pos (omega arith))
  | inr late ↦ let e : leb (m + 0) 2 ≡ false = ground arith in rw (e, late) refl
]

-- The greatest era whose years an `i32` holds.
abbrev pub last_era : ℕ
last_era = 5368707

abbrev pub day_after : ℕ → ℕ
day_after doe = doe - start (year_of_era doe)

abbrev pub year_at : ℕ → ℕ → ℕ
year_at era doe =
    if leb (month_of (day_after doe)) 2
    then suc (year_of_era doe + 400 * era)
    else year_of_era doe + 400 * era

march_month-lt : (doy : ℕ) → doy < 366 → march_month doy < 12
march_month-lt doy h = omega arith

leap_day-le : (y : ℕ) → leap_day y ≤ 1
leap_day-le y = ground arith

pub day_after-lt : (doe : ℕ) → doe < 146097 → day_after doe < 366
day_after-lt doe h = go _ _ _ (year_of_era-bounds doe h).2 (leap_day-le (year_of_era doe))
  where
    go : (d s b : ℕ) → d ≤ s + 364 + b → b ≤ 1 → d - s < 366
    go d s b l m = omega arith

month_of-lt : (doy : ℕ) → doy < 366 → month_of doy < 2 ^ 32
month_of-lt doy h = ground (arith, march_month-lt doy h)

at_most : (y : ℕ) → y < 2 ^ 31 → pos y ≤ℤ pos (2 ^ 31 - 1)
at_most y h = omega arith

year_fits :
    (m yoe era : ℕ)
    → yoe < 400
    → era ≤ last_era
    → (if leb m 2 then suc (yoe + 400 * era) else yoe + 400 * era) < 2 ^ 31
year_fits m yoe era h l = ground arith

-- All but the year, which is that of the era's own year.
pub civil_from_era-of :
    (era : ℤ) (doe : ℕ) (y : ℤ)
    → doe < 146097
    → wrap64 (pos (year_of_era doe) +ℤ wrap64 (era *ℤ pos 400)) ≡ y
    → civil_from_era era (pos doe) ≡ (
      wrap32 (year_number (pos (month_of (day_after doe))) y),
      month_of (day_after doe),
      day_of (day_after doe),
    )
unfolding civil_from_era
civil_from_era-of era doe y l e =
    rw
      (
        year_in_era-pos doe l,
        day_in_year-pos doe (year_of_era doe) lt (year_of_era-bounds doe l).1 l,
        e,
        month_from_march-pos (day_after doe) (day_after-lt doe l),
        day_in_month-pos (day_after doe) (day_after-lt doe l),
        month_number-pos (march_month (day_after doe))
            (march_month-lt (day_after doe) (day_after-lt doe l)),
        small (month_of (day_after doe)) (month_of-lt (day_after doe) (day_after-lt doe l)),
        small (day_of (day_after doe)) (omega arith),
      )
      refl
  where
    lt : year_of_era doe < 400
    lt = (year_of_era-bounds doe l).0

    small : (n : ℕ) → n < 2 ^ 32 → n % 2 ^ 32 ≡ n
    small n h = omega arith

pub civil_from_era-pos :
    (era doe : ℕ)
    → era ≤ last_era
    → doe < 146097
    → civil_from_era (pos era) (pos doe)
      ≡ (pos (year_at era doe), month_of (day_after doe), day_of (day_after doe))
civil_from_era-pos era doe h l =
    civil_from_era-of (pos era) doe (pos (year_of_era doe + 400 * era)) l sum
    ∙ ap (λ (y : ℤ). (y, month_of (day_after doe), day_of (day_after doe)))
        (ap wrap32
            (year_number-pos (month_of (day_after doe)) (year_of_era doe + 400 * era) (omega arith))
          ∙ wrap32_fits (pos (year_at era doe)) (omega arith, year_bound))
  where
    lt : year_of_era doe < 400
    lt = (year_of_era-bounds doe l).0

    year_bound : pos (year_at era doe) ≤ℤ pos (2 ^ 31 - 1)
    year_bound = at_most _ (year_fits (month_of (day_after doe)) (year_of_era doe) era lt h)

    sum :
        wrap64 (pos (year_of_era doe) +ℤ wrap64 (pos era *ℤ pos 400))
        ≡ pos (year_of_era doe + 400 * era)
    sum =
        rw (mul_pos era 400 (omega arith), add_pos (year_of_era doe) (era * 400) (omega arith))
          (ap pos (omega arith))
