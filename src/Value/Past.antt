-- ===== src/Value/Past.antt =====
-- `civil_from_days` of src/value.rs before the year 0, where its eras count down.
use fing.Base.{
  ℕ, suc, ◌+◌, ◌-◌, ◌*◌, ◌/◌, ◌%◌, ◌^◌, ◌≤◌, ◌<◌, false, ◌≡◌, refl, ap, subst, sym, ◌∙◌, arith, leb,
  if◌then◌else◌,
}
use fing.Base.Int.{ℤ, pos, negsuc, sub_ℕ, ◌+ℤ◌, ◌-ℤ◌, ◌*ℤ◌, ◌≤ℤ◌, quot_ℤ, wrap64, wrap32}
use fing.Value.Date.{year_number, civil_from_era, civil_from_days}
use fing.Value.Calendar.{IsDate}
use fing.Value.Eras.{year_of_era, year_of_era-bounds}
use fing.Value.Months.{day_of, month_of}
use fing.Value.Machine.{day_after, year_at, civil_from_era-of}
use fing.Value.Dates.{year_at-IsAt, IsAt-IsDate}

-- How far back the years of an era fit an `i32`.
abbrev pub first_era : ℕ
first_era = 5368709

mul_400 : (e : ℕ) → e ≤ first_era → wrap64 (negsuc e *ℤ pos 400) ≡ negsuc (399 + 400 * e)
unfolding wrap64 ◌*ℤ◌
mul_400 e h = ground arith

mul_146097 :
    (e : ℕ) → e ≤ first_era → wrap64 (negsuc e *ℤ pos 146097) ≡ negsuc (146096 + 146097 * e)
unfolding wrap64 ◌*ℤ◌
mul_146097 e h = ground arith

add_back : (a b : ℕ) → a < 2 ^ 31 → b < 2 ^ 62 → wrap64 (pos a +ℤ negsuc b) ≡ sub_ℕ a (suc b)
unfolding wrap64 ◌+ℤ◌
add_back a b h l = ground arith

year_number-sub :
    (m a b : ℕ)
    → a < 2 ^ 31
    → b < 2 ^ 62
    → year_number (pos m) (sub_ℕ a b) ≡ sub_ℕ (if leb m 2 then suc a else a) b
unfolding year_number wrap64 ◌+ℤ◌
year_number-sub m a b h l = ground arith

wrap32-sub : (a b : ℕ) → a < 2 ^ 31 → b ≤ 2 ^ 31 → wrap32 (sub_ℕ a b) ≡ sub_ℕ a b
unfolding wrap32
wrap32-sub a b h l = ground arith

back_an_era : (z : ℕ) → z < 2 ^ 62 → wrap64 (negsuc z -ℤ pos 146096) ≡ negsuc (z + 146096)
unfolding wrap64 ◌-ℤ◌
back_an_era z h = ground arith

era_back : (z : ℕ) → quot_ℤ (negsuc (z + 146096)) 146097 ≡ negsuc (z / 146097)
unfolding quot_ℤ
era_back z = ground arith

-- The day of an era that many days before its end.
abbrev day_back : ℕ → ℕ
day_back z = 146096 - z % 146097

from_era :
    (z : ℕ)
    → z < 2 ^ 62
    → wrap64 (negsuc z -ℤ negsuc (146096 + 146097 * (z / 146097))) ≡ pos (day_back z)
unfolding wrap64 ◌-ℤ◌
from_era z h = ground arith

civil_from_days-neg :
    (days : ℤ) (z : ℕ)
    → wrap64 (days +ℤ pos 719468) ≡ negsuc z
    → z / 146097 < first_era
    → civil_from_days days ≡ civil_from_era (negsuc (z / 146097)) (pos (day_back z))
unfolding civil_from_days
civil_from_days-neg days z e h =
    let negative : leb (0 + suc z) (0 + 0) ≡ false = ground arith in
    rw
      (
        e,
        negative,
        back_an_era z (omega arith),
        era_back z,
        mul_146097 (z / 146097) (omega arith),
        from_era z (omega arith),
      )
      refl

era_start :
    (a e : ℕ)
    → a < 400
    → e < first_era
    → wrap64 (pos a +ℤ wrap64 (negsuc e *ℤ pos 400)) ≡ sub_ℕ a (400 * suc e)
era_start a e l h =
    rw (mul_400 e (omega arith), add_back a (399 + 400 * e) (omega arith) (omega arith))
      (ap (sub_ℕ a) (omega arith))

year_past :
    (m a e : ℕ)
    → a < 400
    → e < first_era
    → wrap32 (year_number (pos m) (sub_ℕ a (400 * suc e)))
      ≡ sub_ℕ (if leb m 2 then suc (a + 400 * 0) else a + 400 * 0) (400 * suc e)
year_past m a e l h =
    ap wrap32 (year_number-sub m a (400 * suc e) (omega arith) (omega arith))
    ∙ wrap32-sub (if leb m 2 then suc a else a) (400 * suc e) (ground arith) (omega arith)
    ∙ ap (λ (y : ℕ). sub_ℕ (if leb m 2 then suc y else y) (400 * suc e)) (omega arith)

civil_from_era-neg :
    (e doe : ℕ)
    → e < first_era
    → doe < 146097
    → civil_from_era (negsuc e) (pos doe)
      ≡ (sub_ℕ (year_at 0 doe) (400 * suc e), month_of (day_after doe), day_of (day_after doe))
civil_from_era-neg e doe h l =
    civil_from_era-of (negsuc e) doe (sub_ℕ (year_of_era doe) (400 * suc e)) l
      (era_start (year_of_era doe) e lt h)
    ∙ ap (λ (y : ℤ). (y, month_of (day_after doe), day_of (day_after doe)))
        (year_past (month_of (day_after doe)) (year_of_era doe) e lt h)
  where
    lt : year_of_era doe < 400
    lt = (year_of_era-bounds doe l).0

-- The calendar repeats itself every 400 years, which are 146097 days: a date is one of the calendar
-- when the date so many times 400 years later is.
abbrev pub IsProleptic : ℤ → ℤ × ℕ × ℕ → Type 0
IsProleptic days (y, m, d) =
    (e : ℕ) × (year : ℕ) × (y ≡ sub_ℕ year (400 * e))
    × IsDate (days +ℤ pos (146097 * e)) (pos year, m, d)

past : (a : ℕ) → 719468 ≤ a → a < 2 ^ 62 → wrap64 (negsuc a +ℤ pos 719468) ≡ negsuc (a - 719468)
unfolding wrap64 ◌+ℤ◌
past a l h = ground arith

to_era :
    (z : ℕ)
    → (negsuc (z + 719468) +ℤ pos (146097 * suc (z / 146097))) +ℤ pos 719528 ≡ pos (day_back z + 60)
unfolding ◌+ℤ◌
to_era z = ground arith

IsProleptic-days :
    (z : ℕ)
    → z / 146097 < first_era
    → IsProleptic (negsuc (z + 719468)) (
      sub_ℕ (year_at 0 (day_back z)) (400 * suc (z / 146097)),
      month_of (day_after (day_back z)),
      day_of (day_after (day_back z)),
    )
IsProleptic-days z h = (
  suc (z / 146097),
  year_at 0 (day_back z),
  refl,
  IsAt-IsDate (negsuc (z + 719468) +ℤ pos (146097 * suc (z / 146097))) _ _ _ _ _
      (year_at-IsAt 0 (day_back z) (omega arith)) (to_era z) (omega arith),
)

never : (a : ℕ) → pos a ≤ℤ negsuc 719468 → ⊥
never a h = omega (arith, h)

-- Before 0000-03-01, down to the first day whose year an `i32` holds by whole eras, the conversion
-- gives a date that is one of the calendar when a whole number of 400-year cycles is added to it:
-- its year is that many times 400 before the year of the cycles added.
pub civil_from_days-IsProleptic :
    (days : ℤ)
    → negsuc 784352998240 ≤ℤ days
    → days ≤ℤ negsuc 719468
    → IsProleptic days (civil_from_days days)
civil_from_days-IsProleptic (pos a) low high = absurd (never a high)
civil_from_days-IsProleptic (negsuc a) low high =
    subst (λ (days : ℤ). IsProleptic days (civil_from_days days)) same
      (subst (IsProleptic (negsuc (z + 719468))) (sym computed) (IsProleptic-days z h))
  where
    z : ℕ
    z = a - 719468

    same : negsuc (z + 719468) ≡ negsuc a
    same = ap negsuc (omega (arith, high))

    h : z / 146097 < first_era
    h = omega (arith, low)

    computed : civil_from_days (negsuc (z + 719468)) ≡ (
      sub_ℕ (year_at 0 (day_back z)) (400 * suc (z / 146097)),
      month_of (day_after (day_back z)),
      day_of (day_after (day_back z)),
    )
    computed =
        civil_from_days-neg (negsuc (z + 719468)) z
          (past (z + 719468) (omega arith) (omega arith) ∙ ap negsuc (omega arith)) h
        ∙ civil_from_era-neg (z / 146097) (day_back z) h (omega arith)
