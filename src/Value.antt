-- ===== src/Value.antt =====
-- src/value.rs: column types and values. Dates are in `Value.Date`, decimals in `Value.Decimal`.
pub mod Date
pub mod Calendar
pub mod Eras
pub mod Months
pub mod Civil
pub mod Machine
pub mod Dates
pub mod Past
pub mod Written
mod SourceTests
mod Tests
pub mod Decimal
use fing.Base.{ℕ, ◌-◌, ◌<◌, ◌^◌, max, [], ◌++◌, Bool, true, false, Option, none, some, length}
use fing.Base.Int.{ℤ, pos, unsigned_abs, IsI64, IsI32, ◌≤ℤ◌, negsuc, wrap32}
use fing.Base.Text.{Text, codes}
use fing.Base.Decimal.{to_string, to_string_ℤ, pad_number, pad_ℤ}
use Date.{civil_from_days}
use Decimal.{format_decimal}

pub data DataType : Type 0 where
  big_int int small_int : DataType
  char : ℕ → DataType
  string : DataType
  decimal : (precision scale : ℕ) → DataType
  date bool null : DataType

-- A number is the integer that its bits stand for; `IsValue` gives the ranges.
pub data Value : Type 0 where
  big_int : ℤ → Value
  int : ℤ → Value
  small_int : ℤ → Value
  char : ℕ → Text → Value
  string : Text → Value
  decimal : ℤ → ℕ → Value
  date : ℤ → Value
  bool : Bool → Value
  null : Value

-- The ranges that the Rust types of the payloads give.
abbrev pub IsValue : Value → Type 0
IsValue (Value.big_int i) = IsI64 i
IsValue (Value.int i) = IsI32 i
IsValue (Value.small_int i) = (negsuc (2 ^ 15 - 1) ≤ℤ i) × (i ≤ℤ pos (2 ^ 15 - 1))
IsValue (Value.char n s) = n < 2 ^ 8
IsValue (Value.decimal w scale) = IsI64 w × (scale < 2 ^ 32)
IsValue (Value.date days) = IsI64 days
IsValue _ = Unit

-- `Display` of `DataType`
unfoldable pub display_type : DataType → Text
display_type DataType.big_int = codes "BIGINT"
display_type DataType.int = codes "INT"
display_type DataType.small_int = codes "SMALLINT"
display_type (DataType.char n) = codes "CHAR(" ++ to_string n ++ codes ")"
display_type DataType.string = codes "VARCHAR"
display_type (DataType.decimal p s) =
    codes "DECIMAL(" ++ to_string p ++ codes "," ++ to_string s ++ codes ")"
display_type DataType.date = codes "DATE"
display_type DataType.bool = codes "BOOL"
display_type DataType.null = codes "NULL"

unfoldable pub type_name : Value → Text
type_name (Value.big_int i) = codes "BIGINT"
type_name (Value.int i) = codes "INT"
type_name (Value.small_int i) = codes "SMALLINT"
type_name (Value.char n s) = codes "CHAR"
type_name (Value.string s) = codes "VARCHAR"
type_name (Value.decimal w scale) = codes "DECIMAL"
type_name (Value.date days) = codes "DATE"
type_name (Value.bool b) = codes "BOOL"
type_name Value.null = codes "NULL"

unfoldable pub precision_of : ℤ → ℕ
precision_of whole = let digits = length (to_string (unsigned_abs whole)) in max digits 1

unfoldable pub data_type : Value → DataType
unfolding precision_of
data_type (Value.big_int i) = DataType.big_int
data_type (Value.int i) = DataType.int
data_type (Value.small_int i) = DataType.small_int
data_type (Value.char n s) = DataType.char n
data_type (Value.string s) = DataType.string
data_type (Value.decimal whole scale) = DataType.decimal (precision_of whole) scale
data_type (Value.date days) = DataType.date
data_type (Value.bool b) = DataType.bool
data_type Value.null = DataType.null

unfoldable pub is_null : Value → Bool
is_null Value.null = true
is_null _ = false

unfoldable pub is_numeric : Value → Bool
is_numeric (Value.big_int i) = true
is_numeric (Value.int i) = true
is_numeric (Value.small_int i) = true
is_numeric (Value.decimal w scale) = true
is_numeric _ = false

unfoldable pub as_i64 : Value → Option ℤ
as_i64 (Value.big_int i) = some i
as_i64 (Value.int i) = some i
as_i64 (Value.small_int i) = some i
as_i64 _ = none

unfoldable pub as_str : Value → Option Text
as_str (Value.string s) = some s
as_str (Value.char n s) = some s
as_str _ = none

unfoldable pub as_bool : Value → Option Bool
as_bool (Value.bool b) = some b
as_bool _ = none

unfoldable pub as_date_ymd : Value → Option (ℤ × ℕ × ℕ)
as_date_ymd (Value.date days) = some (civil_from_days days)
as_date_ymd _ = none

abbrev display_bool : Bool → Text
display_bool true = codes "true"
display_bool false = codes "false"

-- `{y:04}-{m:02}-{d:02}`
abbrev display_date : ℤ × ℕ × ℕ → Text
display_date (y, m, d) = pad_ℤ 4 y ++ codes "-" ++ pad_number 2 m ++ codes "-" ++ pad_number 2 d

-- `Display` of `Value`
unfoldable pub display_value : Value → Text
display_value (Value.big_int i) = to_string_ℤ i
display_value (Value.int i) = to_string_ℤ i
display_value (Value.small_int i) = to_string_ℤ i
display_value (Value.char n s) = s
display_value (Value.string s) = s
display_value (Value.decimal whole scale) = format_decimal whole scale
display_value (Value.date days) = display_date (civil_from_days days)
display_value (Value.bool b) = display_bool b
display_value Value.null = codes "NULL"

-- Floating point is a parameter: the type `f64`, the cast `as f64`, division, and the power
-- `10f64.powi`, whose exponent has been cast to `i32`.
pub record Float : Type 1 where
  pub F64 : Type 0
  pub of_int : ℤ → F64
  pub divide : F64 → F64 → F64
  pub ten_powi : ℤ → F64

unfoldable pub as_f64 : (f : Float) → Value → Option f.F64
as_f64 f (Value.big_int i) = some (f.of_int i)
as_f64 f (Value.int i) = some (f.of_int i)
as_f64 f (Value.small_int i) = some (f.of_int i)
as_f64 f (Value.decimal whole scale) =
    some (f.divide (f.of_int whole) (f.ten_powi (wrap32 (pos scale))))
as_f64 f _ = none
