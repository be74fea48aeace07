-- ===== src/Convert/SourceTests.antt =====
-- The tests at the end of src/convert.rs, under their names there; those that take floats or chrono
-- as parameters are types, and have theirs in the spelling of types.
use fing.Base.{ℕ, Bool, true, false, ◌&&◌, Option, none, some, ◌≡◌, refl, ap, ◌==◌, eq_list}
use fing.Base.Int.{ℤ, pos, negsuc, quot_ℤ, wrap32, wrap64, ◌+ℤ◌, ◌-ℤ◌, ◌*ℤ◌}
use fing.Base.Text.{Text, codes}
use fing.Error.{display_conversion, conversion_error, with_reason}
use fing.Value.{Value, Float, as_i64, as_str, as_f64, as_date_ymd, type_name}
use fing.Value.Date.{
  civil_from_days, civil_from_era, year_in_era, day_in_year, month_from_march, day_in_month,
  month_number, year_number,
}
use fing.Convert.{
  Converted, ok, err, i64, i16, u8, u32, int_name, int_from_value, str_from_value,
  string_from_value, option_from_value, value_from_value, out_of_range, try_from, f64_from_value,
  date_from_value,
}

abbrev is_number : ℕ → Converted ℤ → Bool
is_number n (ok (pos m)) = n == m
is_number n _ = false

abbrev is_err : {A : Type 0} → Converted A → Bool
is_err (err e) = true
is_err (ok a) = false

abbrev integers_widen : Bool
unfolding int_from_value
integers_widen =
    is_number 7 (int_from_value i64 (Value.small_int (pos 7)))
    && is_number 7 (int_from_value i64 (Value.int (pos 7)))
    && is_number 7 (int_from_value i64 (Value.big_int (pos 7)))

abbrev integers_narrow_when_they_fit : Bool
unfolding int_from_value
integers_narrow_when_they_fit =
    is_number 7 (int_from_value i16 (Value.big_int (pos 7)))
    && is_number 200 (int_from_value u8 (Value.int (pos 200)))

abbrev has_reason : Text → Converted ℤ → Bool
unfolding eq_list
has_reason text (err e) = same e.reason
  where
    same : Option Text → Bool
    same (some reason) = eq_list reason text
    same none = false
has_reason text (ok i) = false

abbrev narrowing_out_of_range_is_an_error : Bool
unfolding int_from_value eq_list
narrowing_out_of_range_is_an_error =
    has_reason (codes "value out of range") (int_from_value i16 (Value.big_int (pos 100000)))
    && is_err (int_from_value u32 (Value.int (negsuc 0)))

abbrev is_text : Text → Converted Text → Bool
unfolding eq_list
is_text text (ok t) = eq_list t text
is_text text (err e) = false

abbrev strings_read_from_varchar_and_char : Bool
unfolding str_from_value string_from_value eq_list
strings_read_from_varchar_and_char =
    is_text (codes "a") (str_from_value (Value.string (codes "a")))
    && is_text (codes "b") (string_from_value (Value.char 1 (codes "b")))

abbrev names_types : Converted ℤ → Bool
unfolding eq_list display_conversion
names_types (err e) =
    eq_list e.expected (codes "i64")
    && eq_list e.found (codes "VARCHAR")
    && eq_list (display_conversion e) (codes "cannot read VARCHAR as i64")
names_types (ok i) = false

abbrev type_mismatches_name_both_types : Bool
unfolding int_from_value eq_list display_conversion
type_mismatches_name_both_types = names_types (int_from_value i64 (Value.string (codes "a")))

abbrev is_none : Converted (Option ℤ) → Bool
is_none (ok none) = true
is_none _ = false

abbrev is_some : ℕ → Converted (Option ℤ) → Bool
is_some n (ok (some (pos m))) = n == m
is_some n _ = false

abbrev null_needs_an_option : Bool
unfolding int_from_value option_from_value
null_needs_an_option =
    is_err (int_from_value i64 Value.null)
    && is_none (option_from_value (int_from_value i64) Value.null)
    && is_some 1 (option_from_value (int_from_value i64) (Value.int (pos 1)))

abbrev is_true : Converted Value → Bool
is_true (ok (Value.bool b)) = b
is_true _ = false

-- `Value` and `&Value` are read alike.
abbrev values_pass_through : Bool
unfolding value_from_value
values_pass_through = is_true (value_from_value (Value.bool true))

source_tests :
    (integers_widen ≡ true)
    × (integers_narrow_when_they_fit ≡ true)
    × (narrowing_out_of_range_is_an_error ≡ true)
    × (strings_read_from_varchar_and_char ≡ true)
    × (type_mismatches_name_both_types ≡ true)
    × (null_needs_an_option ≡ true)
    × (values_pass_through ≡ true)
unfolding int_from_value eq_list str_from_value string_from_value display_conversion
    option_from_value value_from_value as_i64 as_str type_name int_name try_from out_of_range
    with_reason conversion_error
source_tests = (refl, refl, refl, refl, refl, refl, refl)

-- `quotient` is what the float type gives for 12345 over ten squared.
DecimalsReadAsFloatsButNotIntegers : (f : Float) → f.F64 → Type 0
DecimalsReadAsFloatsButNotIntegers f quotient =
    (f64_from_value f (Value.decimal (pos 12345) 2) ≡ ok quotient)
    × (is_err (int_from_value i64 (Value.decimal (pos 12345) 2)) ≡ true)

-- A date of `chrono` and its text are parameters.
DatesReadAsChrono : {D : Type 0} → (ℤ → ℕ → ℕ → Option D) → (D → Text) → Type 0
DatesReadAsChrono {D} from_ymd_opt to_text =
    (d : D) × (date_from_value from_ymd_opt (Value.date (pos 19782)) ≡ ok d)
    × (to_text d ≡ codes "2024-02-29")

parameter_tests :
    {D : Type 0} (f : Float) (quotient : f.F64) (from_ymd_opt : ℤ → ℕ → ℕ → Option D)
    (to_text : D → Text) (leap_day : D)
    → f.divide (f.of_int (pos 12345)) (f.ten_powi (pos 2)) ≡ quotient
    → from_ymd_opt (pos 2024) 2 29 ≡ some leap_day
    → to_text leap_day ≡ codes "2024-02-29"
    → DecimalsReadAsFloatsButNotIntegers f quotient × DatesReadAsChrono from_ymd_opt to_text
unfolding DecimalsReadAsFloatsButNotIntegers DatesReadAsChrono f64_from_value as_f64 int_from_value
    wrap32 date_from_value as_date_ymd civil_from_days civil_from_era year_in_era day_in_year
    month_from_march day_in_month month_number year_number quot_ℤ wrap64 ◌+ℤ◌ ◌-ℤ◌ ◌*ℤ◌
parameter_tests f quotient from_ymd_opt to_text leap_day q d t =
    ((ap ok q, refl), (leap_day, rw d refl, t))
