-- ===== src/Convert.antt =====
-- src/convert.rs: reading a value as a type of the caller's.
pub mod Ranges
pub mod Types
mod SourceTests
mod Tests
use fing.Base.{ℕ, ◌-◌, ◌^◌, ◌&&◌, Bool, Option, none, some, if◌then◌else◌}
use fing.Base.Int.{ℤ, pos, negsuc, leb_ℤ}
use fing.Base.Text.{Text, codes}
use fing.Error.{ConversionError, conversion_error, with_reason}
use fing.Value.{Value, type_name, as_i64, as_str, as_bool, as_date_ymd, Float, as_f64}

pub data Converted (A : Type 0) : Type 0 where
  ok : A → Converted A
  err : ConversionError → Converted A

-- The trait: how a value is read as an `A`.
abbrev pub FromValue : Type 0 → Type 0
FromValue A = Value → Converted A

unfoldable pub out_of_range : Text → Value → ConversionError
unfolding with_reason type_name
out_of_range expected value = with_reason expected (type_name value) (codes "value out of range")

-- The types that `int_from_value!` is applied to.
pub data IntType : Type 0 where
  i64 i32 i16 i8 u64 u32 u16 u8 usize isize : IntType

unfoldable pub int_name : IntType → Text
int_name i64 = codes "i64"
int_name i32 = codes "i32"
int_name i16 = codes "i16"
int_name i8 = codes "i8"
int_name u64 = codes "u64"
int_name u32 = codes "u32"
int_name u16 = codes "u16"
int_name u8 = codes "u8"
int_name usize = codes "usize"
int_name isize = codes "isize"

-- The least and the greatest value of a type; `usize` and `isize` are those of a 64-bit target.
abbrev pub int_min : IntType → ℤ
int_min i64 = negsuc (2 ^ 63 - 1)
int_min i32 = negsuc (2 ^ 31 - 1)
int_min i16 = negsuc (2 ^ 15 - 1)
int_min i8 = negsuc (2 ^ 7 - 1)
int_min isize = negsuc (2 ^ 63 - 1)
int_min _ = pos 0

abbrev pub int_max : IntType → ℤ
int_max i64 = pos (2 ^ 63 - 1)
int_max i32 = pos (2 ^ 31 - 1)
int_max i16 = pos (2 ^ 15 - 1)
int_max i8 = pos (2 ^ 7 - 1)
int_max u64 = pos (2 ^ 64 - 1)
int_max u32 = pos (2 ^ 32 - 1)
int_max u16 = pos (2 ^ 16 - 1)
int_max u8 = pos (2 ^ 8 - 1)
int_max usize = pos (2 ^ 64 - 1)
int_max isize = pos (2 ^ 63 - 1)

-- `<$ty>::try_from(wide)`
unfoldable pub try_from : IntType → ℤ → Option ℤ
try_from ty wide = if leb_ℤ (int_min ty) wide && leb_ℤ wide (int_max ty) then some wide else none

abbrev pub ok_or : {A : Type 0} → Option A → ConversionError → Converted A
ok_or none e = err e
ok_or (some a) e = ok a

abbrev narrow : IntType → Value → Option ℤ → Converted ℤ
narrow ty value none = err (conversion_error (int_name ty) (type_name value))
narrow ty value (some wide) = ok_or (try_from ty wide) (out_of_range (int_name ty) value)

unfoldable pub int_from_value : IntType → FromValue ℤ
unfolding try_from out_of_range conversion_error as_i64
int_from_value ty value = narrow ty value (as_i64 value)

unfoldable pub f64_from_value : (f : Float) → FromValue f.F64
unfolding conversion_error as_f64
f64_from_value f value = ok_or (as_f64 f value) (conversion_error (codes "f64") (type_name value))

unfoldable pub bool_from_value : FromValue Bool
unfolding conversion_error as_bool
bool_from_value value = ok_or (as_bool value) (conversion_error (codes "bool") (type_name value))

unfoldable pub str_from_value : FromValue Text
unfolding conversion_error as_str
str_from_value value = ok_or (as_str value) (conversion_error (codes "&str") (type_name value))

-- `map(str::to_owned)` copies the text.
unfoldable pub string_from_value : FromValue Text
unfolding conversion_error as_str
string_from_value value = ok_or (as_str value) (conversion_error (codes "String") (type_name value))

-- The impls for `Value` and `&Value`.
unfoldable pub value_from_value : FromValue Value
value_from_value value = ok value

abbrev map_some : {A : Type 0} → Converted A → Converted (Option A)
map_some (ok a) = ok (some a)
map_some (err e) = err e

-- The impl for `Option<T>`.
unfoldable pub option_from_value : {A : Type 0} → FromValue A → FromValue (Option A)
option_from_value read Value.null = ok none
option_from_value read other = map_some (read other)

-- The impl for `chrono::NaiveDate`. The date type and `from_ymd_opt` are parameters.
abbrev pub checked_date :
    {D : Type 0} → (ℤ → ℕ → ℕ → Option D) → Value → Option (ℤ × ℕ × ℕ) → Converted D
checked_date from_ymd_opt value none =
    err (conversion_error (codes "chrono::NaiveDate") (type_name value))
checked_date from_ymd_opt value (some (year, month, day)) =
    ok_or (from_ymd_opt year month day) (out_of_range (codes "chrono::NaiveDate") value)

unfoldable pub date_from_value : {D : Type 0} → (ℤ → ℕ → ℕ → Option D) → FromValue D
unfolding out_of_range conversion_error as_date_ymd
date_from_value from_ymd_opt value = checked_date from_ymd_opt value (as_date_ymd value)
