-- ===== src/Value/Dates.antt =====
-- `civil_from_days` of src/value.rs against the calendar.
use fing.Base.{
  ℕ, ◌+◌, ◌-◌, ◌*◌, ◌/◌, ◌≤◌, ◌<◌, Bool, true, false, ◌≡◌, inl, inr, refl, ap, subst, sym, ◌∙◌,
  Bool-cases, arith, ltb, leb, if◌then◌else◌,
}
use fing.Base.Int.{ℤ, pos, negsuc, ◌+ℤ◌, ◌≤ℤ◌, quot_ℤ, wrap64}
use fing.Value.Date.{civil_from_era, civil_from_days}
use fing.Value.Calendar.{IsDate}
use fing.Value.Eras.{start, leap_day, year_of_era, year_of_era-bounds}
use fing.Value.Months.{day_of, month_of}
use fing.Value.Machine.{sub_pos, mul_pos, last_era, day_after, year_at, civil_from_era-pos}
use fing.Value.Civil.{IsAt, early, late}

of_ltb : {a b : ℕ} → ltb a b ≡ true → a < b
of_ltb h = ground arith

of_not_ltb : {a b : ℕ} → ltb a b ≡ false → b ≤ a
of_not_ltb h = ground arith

after_february : {m : ℕ} → 3 ≤ m → leb m 2 ≡ false
after_february h = ground arith

to_february : {m : ℕ} → m ≤ 2 → leb m 2 ≡ true
to_february h = ground arith

if_true : (b : Bool) (x y : ℕ) → b ≡ true → x ≡ (if b then x else y)
if_true b x y h = rw h refl

if_false : (b : Bool) (x y : ℕ) → b ≡ false → y ≡ (if b then x else y)
if_false b x y h = rw h refl

moved : (m d : ℕ) {y y' n n' : ℕ} → y ≡ y' → n ≡ n' → IsAt y m d n → IsAt y' m d n'
moved m d {y' = y'} {n = n} e f h = subst (IsAt y' m d) f (subst (λ y. IsAt y m d n) e h)

-- The date of a day of an era is one of the calendar.
pub year_at-IsAt :
    (era doe : ℕ)
    → doe < 146097
    → IsAt
        (year_at era doe)
        (month_of (day_after doe))
        (day_of (day_after doe))
        (146097 * era + doe + 60)
year_at-IsAt era doe h = elim (Bool-cases (ltb (day_after doe) 306)) [
  | inl less ↦
      let (m3, at) = early (year_of_era doe) era (day_after doe) lt (of_ltb less) in
      moved _ _ (if_false _ _ _ (after_february m3)) same at
  | inr more ↦
      let (m2, at) =
        late (year_of_era doe) era (day_after doe) lt (of_not_ltb more) (to_last _ _ _ bounds.2) in
      moved _ _ (if_true _ _ _ (to_february m2)) same at
]
  where
    bounds :
        (year_of_era doe < 400)
        × (start (year_of_era doe) ≤ doe)
        × (doe ≤ start (year_of_era doe) + 364 + leap_day (year_of_era doe))
    bounds = year_of_era-bounds doe h

    lt : year_of_era doe < 400
    lt = bounds.0

    to_last : (d s b : ℕ) → d ≤ s + 364 + b → d - s ≤ 364 + b
    to_last d s b l = omega arith

    together : (e d s : ℕ) → s ≤ d → e + s + (d - s) + 60 ≡ e + d + 60
    together e d s l = omega arith

    same : 146097 * era + start (year_of_era doe) + day_after doe + 60 ≡ 146097 * era + doe + 60
    same = together (146097 * era) doe (start (year_of_era doe)) bounds.1

-- The days from 0000-03-01, which begins an era.
from_march :
    (days : ℤ)
    → negsuc 719467 ≤ℤ days
    → days ≤ℤ pos 784351413207
    → (n : ℕ) × (wrap64 (days +ℤ pos 719468) ≡ pos n)
      × (n / 146097 ≤ last_era)
      × (days +ℤ pos 719528 ≡ pos (n + 60))
unfolding wrap64 ◌+ℤ◌
from_march (pos a) low high = (a + 719468, ground arith, omega arith, ground arith)
from_march (negsuc a) low high = (719467 - a, ground arith, omega arith, ground arith)

civil_from_days-pos :
    (days : ℤ) (n : ℕ)
    → wrap64 (days +ℤ pos 719468) ≡ pos n
    → n / 146097 ≤ last_era
    → civil_from_days days ≡ civil_from_era (pos (n / 146097)) (pos (n - n / 146097 * 146097))
unfolding civil_from_days quot_ℤ
civil_from_days-pos days n e h =
    let positive : leb 0 (n + 0) ≡ true = ground arith in
    rw
      (
        e,
        positive,
        mul_pos (n / 146097) 146097 (omega arith),
        sub_pos n (n / 146097 * 146097) (omega arith) (omega arith),
      )
      refl

pub IsAt-IsDate :
    (days : ℤ) (y m d k n : ℕ)
    → IsAt y m d k
    → days +ℤ pos 719528 ≡ pos n
    → n ≡ k
    → IsDate days (pos y, m, d)
IsAt-IsDate days y m d k n (m1, m12, d1, dl, at) e f =
    (y, refl, m1, m12, d1, dl, e ∙ ap pos (f ∙ sym at))

-- From 0000-03-01 to the last day of the era whose years an `i32` holds, the conversion gives a
-- date of the calendar, which lies as many days behind 1970-01-01 as it was given.
pub civil_from_days-IsDate :
    (days : ℤ)
    → negsuc 719467 ≤ℤ days
    → days ≤ℤ pos 784351413207
    → IsDate days (civil_from_days days)
civil_from_days-IsDate days low high =
    let (n, e, era, count) = from_march days low high in
    subst (IsDate days)
      (sym (civil_from_days-pos days n e era ∙ civil_from_era-pos (n / 146097) _ era (omega arith)))
      (IsAt-IsDate days _ _ _ _ _ (year_at-IsAt (n / 146097) _ (omega arith)) count (omega arith))
