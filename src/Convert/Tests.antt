-- ===== src/Convert/Tests.antt =====
-- Tests of src/convert.rs, after those at its end, and the properties at concrete inputs.
use fing.Base.{ℕ, ◌++◌, ◌||◌, Option, ◌≢◌, ◌↔◌, ◌≡◌, Bool, true, none, some, refl}
use fing.Base.Int.{ℤ, pos, negsuc}
use fing.Base.Text.{codes}
use fing.Error.{ConversionError, conversion_error}
use fing.Value.{Value, Float, display_type, data_type, type_name, is_numeric}
use fing.Convert.{
  ok, err, int_name, i64, u8, u32, out_of_range, int_from_value, bool_from_value, option_from_value,
  f64_from_value, str_from_value, string_from_value, date_from_value,
}
use fing.Convert.Types.{
  holds_integer, holds_decimal, holds_text, holds_bool, arguments, HoldsNumber, HoldsText,
  HoldsBool, ReadsWhen, ReadsDate, data_type-ReadsWhen,
}
use fing.Convert.Ranges.{Reads, int_from_value-Reads, option_from_value_iff}

int_from_value_tests :
    (int_from_value u8 (Value.int (pos 200)) ≡ ok (pos 200))
    × (int_from_value u8 (Value.int (pos 300))
        ≡ err (out_of_range (codes "u8") (Value.int (pos 300))))
    × (int_from_value u32 (Value.big_int (negsuc 0))
        ≡ err (out_of_range (codes "u32") (Value.big_int (negsuc 0))))
    × (int_from_value i64 (Value.string (codes "7"))
        ≡ err (conversion_error (codes "i64") (codes "VARCHAR")))
unfolding int_from_value out_of_range int_name
int_from_value_tests = (refl, refl, refl, refl)

int_from_value-Reads_example :
    Reads u8 (Value.int (pos 300)) (int_from_value u8 (Value.int (pos 300)))
int_from_value-Reads_example = int_from_value-Reads u8 (Value.int (pos 300))

option_from_value_iff_example :
    ((option_from_value bool_from_value (Value.bool true) ≡ ok none)
      ↔ (Value.bool true ≡ Value.null))
    × ((a : Bool)
        → (option_from_value bool_from_value (Value.bool true) ≡ ok (some a))
          ↔ ((Value.bool true ≢ Value.null) × (bool_from_value (Value.bool true) ≡ ok a)))
    × ((x : ConversionError)
        → (option_from_value bool_from_value (Value.bool true) ≡ err x)
          ↔ ((Value.bool true ≢ Value.null) × (bool_from_value (Value.bool true) ≡ err x)))
option_from_value_iff_example = option_from_value_iff bool_from_value (Value.bool true)

-- Numbers as fractions, for a run of `as_f64`.
abbrev fractions : Float
fractions = record {
  F64 = ℤ × ℤ;
  of_int = λ i. (i, pos 1);
  divide = λ a b. (a.0, b.0);
  ten_powi = λ e. (pos 10, e);
}

abbrev ymd : ℤ → ℕ → ℕ → Option (ℤ × ℕ × ℕ)
ymd year month day = some (year, month, day)

abbrev cents : Value
cents = Value.decimal (pos 1999) 2

data_type-ReadsWhen_example :
    (display_type (data_type cents) ≡ type_name cents ++ arguments cents)
    × (is_numeric cents ≡ holds_integer (data_type cents) || holds_decimal (data_type cents))
    × ReadsWhen
        (is_numeric cents)
        (HoldsNumber fractions cents)
        (codes "f64")
        cents
        (f64_from_value fractions cents)
    × ReadsWhen
        (holds_bool (data_type cents))
        (HoldsBool cents)
        (codes "bool")
        cents
        (bool_from_value cents)
    × ReadsWhen
        (holds_text (data_type cents))
        (HoldsText cents)
        (codes "&str")
        cents
        (str_from_value cents)
    × ReadsWhen
        (holds_text (data_type cents))
        (HoldsText cents)
        (codes "String")
        cents
        (string_from_value cents)
    × ReadsDate ymd cents (date_from_value ymd cents)
data_type-ReadsWhen_example = data_type-ReadsWhen fractions ymd cents
