-- ===== src/Value/SourceTests.antt =====
-- The tests at the end of src/value.rs on decimals, dates and accessors, under their names there;
-- the one that is a type has it in the spelling of types.
use fing.Base.{Bool, true, false, ◌&&◌, ◌≡◌, refl, ap, some, none, eq_list, ◌==◌, ℕ}
use fing.Base.Int.{ℤ, pos, negsuc, quot_ℤ, wrap32, wrap64, ◌+ℤ◌, ◌-ℤ◌, ◌*ℤ◌}
use fing.Base.Text.{Text, codes}
use fing.Base.Decimal.{to_string, to_string_ℤ, pad_number, pad_ℤ}
use fing.Value.{Value, display_value, Float, as_i64, as_f64}
use fing.Value.Decimal.{format_decimal}
use fing.Value.Date.{
  civil_from_days, civil_from_era, year_in_era, day_in_year, month_from_march, day_in_month,
  month_number, year_number,
}

abbrev formats_as : ℤ → ℕ → Text → Bool
unfolding format_decimal eq_list
formats_as whole scale text = eq_list (format_decimal whole scale) text

abbrev decimals_format_with_scale : Bool
decimals_format_with_scale =
    formats_as (pos 123456) 4 (codes "12.3456")
    && formats_as (pos 5) 2 (codes "0.05")
    && formats_as (pos 0) 2 (codes "0.00")
    && formats_as (pos 150) 0 (codes "150")

abbrev decimals_format_negatives : Bool
decimals_format_negatives =
    formats_as (negsuc 123455) 4 (codes "-12.3456")
    && formats_as (negsuc 4) 2 (codes "-0.05")
    && formats_as (negsuc 0) 0 (codes "-1")

abbrev same_date : ℤ × ℕ × ℕ → ℕ → ℕ → ℕ → Bool
same_date (pos y, m, d) year month day = y == year && m == month && d == day
same_date (negsuc y, m, d) year month day = false

abbrev dates_convert_from_epoch_days : Bool
unfolding civil_from_days
dates_convert_from_epoch_days =
    same_date (civil_from_days (pos 0)) 1970 1 1
    && same_date (civil_from_days (negsuc 0)) 1969 12 31
    && same_date (civil_from_days (pos 19723)) 2024 1 1
    && same_date (civil_from_days (pos 19782)) 2024 2 29

abbrev dates_display_zero_padded : Bool
unfolding display_value eq_list
dates_display_zero_padded =
    eq_list (display_value (Value.date (pos 0))) (codes "1970-01-01")
    && eq_list (display_value (Value.date (pos 19782))) (codes "2024-02-29")

source_tests :
    (decimals_format_with_scale ≡ true)
    × (decimals_format_negatives ≡ true)
    × (dates_convert_from_epoch_days ≡ true)
    × (dates_display_zero_padded ≡ true)
unfolding format_decimal eq_list to_string civil_from_days display_value civil_from_era year_in_era
    day_in_year month_from_march day_in_month month_number year_number quot_ℤ wrap32 wrap64 ◌+ℤ◌
    ◌-ℤ◌ ◌*ℤ◌ pad_number pad_ℤ to_string_ℤ
source_tests = (refl, refl, refl, refl)

-- `as_f64` of 12345 at scale 2 is the quotient that the float type gives.
NumericAccessors : (f : Float) → f.F64 → Type 0
NumericAccessors f quotient =
    (as_i64 (Value.small_int (pos 3)) ≡ some (pos 3))
    × (as_f64 f (Value.decimal (pos 12345) 2) ≡ some quotient)
    × (as_i64 (Value.string (codes "x")) ≡ none)

accessor_tests :
    (f : Float) (quotient : f.F64)
    → f.divide (f.of_int (pos 12345)) (f.ten_powi (pos 2)) ≡ quotient
    → NumericAccessors f quotient
unfolding NumericAccessors as_i64 as_f64 wrap32
accessor_tests f quotient e = (refl, ap some e, refl)
