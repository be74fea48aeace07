-- ===== src/Value/Date.antt =====
-- `civil_from_days` of src/value.rs. An `i64` result wraps, as in a release build.
use fing.Base.{ℕ, if◌then◌else◌}
use fing.Base.Int.{ℤ, pos, ◌+ℤ◌, ◌-ℤ◌, ◌*ℤ◌, quot_ℤ, ltb_ℤ, leb_ℤ, wrap64, wrap32, to_bits}

infixl 65 ◌+i◌ ◌-i◌
infixl 70 ◌*i◌
-- The operators of `i64`.
abbrev ◌+i◌ : ℤ → ℤ → ℤ
a +i b = wrap64 (a +ℤ b)

abbrev ◌-i◌ : ℤ → ℤ → ℤ
a -i b = wrap64 (a -ℤ b)

abbrev ◌*i◌ : ℤ → ℤ → ℤ
a *i b = wrap64 (a *ℤ b)

-- The cast `as u32`.
abbrev as_u32 : ℤ → ℕ
as_u32 = to_bits 0x1_0000_0000

unfoldable pub year_in_era : ℤ → ℤ
year_in_era doe = quot_ℤ (doe -i quot_ℤ doe 1460 +i quot_ℤ doe 36524 -i quot_ℤ doe 146096) 365

unfoldable pub day_in_year : ℤ → ℤ → ℤ
day_in_year doe yoe = doe -i (pos 365 *i yoe +i quot_ℤ yoe 4 -i quot_ℤ yoe 100)

unfoldable pub month_from_march : ℤ → ℤ
month_from_march doy = quot_ℤ (pos 5 *i doy +i pos 2) 153

unfoldable pub day_in_month : ℤ → ℤ → ℤ
day_in_month doy mp = doy -i quot_ℤ (pos 153 *i mp +i pos 2) 5 +i pos 1

unfoldable pub month_number : ℤ → ℤ
month_number mp = if ltb_ℤ mp (pos 10) then mp +i pos 3 else mp -i pos 9

unfoldable pub year_number : ℤ → ℤ → ℤ
year_number m y = if leb_ℤ m (pos 2) then y +i pos 1 else y

-- From the day of an era on.
unfoldable pub civil_from_era : ℤ → ℤ → ℤ × ℕ × ℕ
civil_from_era era doe =
    let yoe = year_in_era doe in
    let y = yoe +i era *i pos 400 in
    let doy = day_in_year doe yoe in
    let mp = month_from_march doy in
    let d = day_in_month doy mp in
    let m = month_number mp in (wrap32 (year_number m y), as_u32 m, as_u32 d)

unfoldable pub civil_from_days : ℤ → ℤ × ℕ × ℕ
civil_from_days days =
    let z = days +i pos 719468 in
    let era = quot_ℤ (if leb_ℤ (pos 0) z then z else z -i pos 146096) 146097 in
    let doe = z -i era *i pos 146097 in civil_from_era era doe
