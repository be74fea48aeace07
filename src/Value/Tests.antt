-- ===== src/Value/Tests.antt =====
-- Tests of src/value.rs, after those at its end, and the properties at concrete inputs.
use fing.Base.{ℕ, suc, ◌++◌, ◌≡◌, refl, arith}
use fing.Base.Int.{pos, negsuc, quot_ℤ, wrap32, wrap64, ◌+ℤ◌, ◌-ℤ◌, ◌*ℤ◌}
use fing.Value.Date.{
  civil_from_days, civil_from_era, year_in_era, day_in_year, month_from_march, day_in_month,
  month_number, year_number,
}
use fing.Value.Calendar.{IsDate}
use fing.Value.Dates.{civil_from_days-IsDate}
use fing.Value.Past.{IsProleptic, civil_from_days-IsProleptic}
use fing.Base.Decimal.{to_string}
use fing.Base.Decimal.Digits.{HasDigits}
use fing.Base.Text.{Text, codes}
use fing.Base.Int.{unsigned_abs}
use fing.Value.{precision_of}
use fing.Value.Decimal.{format_decimal}
use fing.Value.Written.{
  IsDecimal, sign_of, fraction, format_decimal-IsDecimal, precision_of-HasDigits,
}

civil_from_days_tests :
    (civil_from_days (pos 0) ≡ (pos 1970, 1, 1))
    × (civil_from_days (pos 20000) ≡ (pos 2024, 10, 4))
    × (civil_from_days (negsuc 0) ≡ (pos 1969, 12, 31))
    × (civil_from_days (pos 11016) ≡ (pos 2000, 2, 29))
    × (civil_from_days (negsuc 719528) ≡ (negsuc 0, 12, 31))
unfolding civil_from_days civil_from_era year_in_era day_in_year month_from_march day_in_month
    month_number year_number quot_ℤ wrap32 wrap64 ◌+ℤ◌ ◌-ℤ◌ ◌*ℤ◌
civil_from_days_tests = (refl, refl, refl, refl, refl)

civil_from_days-IsDate_example : IsDate (pos 11016) (civil_from_days (pos 11016))
civil_from_days-IsDate_example = civil_from_days-IsDate (pos 11016) (omega arith) (omega arith)

civil_from_days-IsProleptic_example : IsProleptic (negsuc 719528) (civil_from_days (negsuc 719528))
civil_from_days-IsProleptic_example =
    civil_from_days-IsProleptic (negsuc 719528) (omega arith) (omega arith)

format_decimal_tests :
    (format_decimal (pos 12345) 2 ≡ codes "123.45")
    × (format_decimal (negsuc 4) 3 ≡ codes "-0.005")
    × (format_decimal (pos 42) 0 ≡ codes "42")
unfolding format_decimal to_string
format_decimal_tests = (refl, refl, refl)

format_decimal-IsDecimal_example :
    (whole : Text) × (part : Text) × IsDecimal (unsigned_abs (negsuc 4)) 3 whole part
    × (format_decimal (negsuc 4) 3 ≡ sign_of (negsuc 4) ++ (whole ++ fraction part))
format_decimal-IsDecimal_example = format_decimal-IsDecimal (negsuc 4) 3

precision_of-HasDigits_example :
    (k : ℕ) × (precision_of (negsuc 104) ≡ suc k) × HasDigits (unsigned_abs (negsuc 104)) k
precision_of-HasDigits_example = precision_of-HasDigits (negsuc 104)
