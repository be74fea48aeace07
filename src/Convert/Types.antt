-- ===== src/Convert/Types.antt =====
-- What values are read as by src/convert.rs and src/value.rs, by the type of their column.
use fing.Base.{
  ℕ, [], ◌++◌, Bool, true, false, ◌||◌, Option, none, some, ◌≡◌, ◌⊎◌, inl, inr, refl, ap, ◌∙◌,
}
use fing.Base.Int.{ℤ, pos, wrap32}
use fing.Base.Text.{Text, codes}
use fing.Base.Decimal.{to_string}
use fing.Error.{conversion_error, with_reason}
use fing.Value.{
  DataType, Value, display_type, type_name, data_type, is_numeric, Float, as_f64, precision_of,
  as_bool, as_str, as_date_ymd,
}
use fing.Value.Date.{civil_from_days}
use fing.Convert.{
  Converted, ok, err, out_of_range, f64_from_value, bool_from_value, str_from_value,
  string_from_value, date_from_value, checked_date, ok_or,
}

abbrev pub holds_integer : DataType → Bool
holds_integer DataType.big_int = true
holds_integer DataType.int = true
holds_integer DataType.small_int = true
holds_integer _ = false

abbrev pub holds_decimal : DataType → Bool
holds_decimal (DataType.decimal p s) = true
holds_decimal _ = false

abbrev pub holds_text : DataType → Bool
holds_text (DataType.char n) = true
holds_text DataType.string = true
holds_text _ = false

abbrev pub holds_bool : DataType → Bool
holds_bool DataType.bool = true
holds_bool _ = false

abbrev pub holds_date : DataType → Bool
holds_date DataType.date = true
holds_date _ = false

-- The numbers behind the name of a value's type.
abbrev pub arguments : Value → Text
arguments (Value.char n s) = codes "(" ++ to_string n ++ codes ")"
arguments (Value.decimal w scale) =
    codes "(" ++ to_string (precision_of w) ++ codes "," ++ to_string scale ++ codes ")"
arguments _ = []

-- The value is this number: an integer, or a decimal scaled down.
abbrev pub HoldsNumber : (f : Float) → Value → f.F64 → Type 0
HoldsNumber f (Value.big_int i) x = x ≡ f.of_int i
HoldsNumber f (Value.int i) x = x ≡ f.of_int i
HoldsNumber f (Value.small_int i) x = x ≡ f.of_int i
HoldsNumber f (Value.decimal w scale) x =
    x ≡ f.divide (f.of_int w) (f.ten_powi (wrap32 (pos scale)))
HoldsNumber f _ x = ⊥

abbrev pub HoldsText : Value → Text → Type 0
HoldsText (Value.char n s) t = t ≡ s
HoldsText (Value.string s) t = t ≡ s
HoldsText _ t = ⊥

abbrev pub HoldsBool : Value → Bool → Type 0
HoldsBool (Value.bool b) c = c ≡ b
HoldsBool _ c = ⊥

-- A value of the right type is read as what it holds, and any other is refused: the error names the
-- two types, and no reason.
abbrev pub ReadsWhen : {A : Type 0} → Bool → (A → Type 0) → Text → Value → Converted A → Type 0
ReadsWhen right Held expected v (ok a) = (right ≡ true) × Held a
ReadsWhen right Held expected v (err e) =
    (right ≡ false) × (e.expected ≡ expected) × (e.found ≡ type_name v) × (e.reason ≡ none)

abbrev pub of_parts : {D : Type 0} → (ℤ → ℕ → ℕ → Option D) → ℤ × ℕ × ℕ → Option D
of_parts from_ymd_opt (year, month, day) = from_ymd_opt year month day

-- The same for dates, with a reason when the date type does not have the date.
abbrev pub ReadsDate : {D : Type 0} → (ℤ → ℕ → ℕ → Option D) → Value → Converted D → Type 0
ReadsDate from_ymd_opt v (ok d) =
    (days : ℤ) × (v ≡ Value.date days) × (of_parts from_ymd_opt (civil_from_days days) ≡ some d)
ReadsDate from_ymd_opt v (err e) =
    (e.expected ≡ codes "chrono::NaiveDate")
    × (e.found ≡ type_name v)
    × (((holds_date (data_type v) ≡ false) × (e.reason ≡ none))
        ⊎ ((days : ℤ) × (v ≡ Value.date days)
            × (of_parts from_ymd_opt (civil_from_days days) ≡ none)
            × (e.reason ≡ some (codes "value out of range"))))

display_type-data_type : (v : Value) → display_type (data_type v) ≡ type_name v ++ arguments v
unfolding display_type data_type type_name
display_type-data_type (Value.big_int i) = refl
display_type-data_type (Value.int i) = refl
display_type-data_type (Value.small_int i) = refl
display_type-data_type (Value.char n s) = refl
display_type-data_type (Value.string s) = refl
display_type-data_type (Value.decimal w scale) = refl
display_type-data_type (Value.date days) = refl
display_type-data_type (Value.bool b) = refl
display_type-data_type Value.null = refl

f64-ReadsWhen :
    (f : Float) (v : Value)
    → ReadsWhen
        (holds_integer (data_type v) || holds_decimal (data_type v))
        (HoldsNumber f v)
        (codes "f64")
        v
        (f64_from_value f v)
unfolding f64_from_value data_type as_f64 conversion_error
f64-ReadsWhen f (Value.big_int i) = (refl, refl)
f64-ReadsWhen f (Value.int i) = (refl, refl)
f64-ReadsWhen f (Value.small_int i) = (refl, refl)
f64-ReadsWhen f (Value.decimal w scale) = (refl, refl)
f64-ReadsWhen f v = (refl, refl, refl, refl)

bool-ReadsWhen :
    (v : Value)
    → ReadsWhen (holds_bool (data_type v)) (HoldsBool v) (codes "bool") v (bool_from_value v)
unfolding bool_from_value data_type as_bool conversion_error
bool-ReadsWhen (Value.bool b) = (refl, refl)
bool-ReadsWhen v = (refl, refl, refl, refl)

str-ReadsWhen :
    (v : Value)
    → ReadsWhen (holds_text (data_type v)) (HoldsText v) (codes "&str") v (str_from_value v)
unfolding str_from_value data_type as_str conversion_error
str-ReadsWhen (Value.char n s) = (refl, refl)
str-ReadsWhen (Value.string s) = (refl, refl)
str-ReadsWhen v = (refl, refl, refl, refl)

string-ReadsWhen :
    (v : Value)
    → ReadsWhen (holds_text (data_type v)) (HoldsText v) (codes "String") v (string_from_value v)
unfolding string_from_value data_type as_str conversion_error
string-ReadsWhen (Value.char n s) = (refl, refl)
string-ReadsWhen (Value.string s) = (refl, refl)
string-ReadsWhen v = (refl, refl, refl, refl)

checked_date-ReadsDate :
    {D : Type 0} (from_ymd_opt : ℤ → ℕ → ℕ → Option D) (days : ℤ) (parts : ℤ × ℕ × ℕ)
    → civil_from_days days ≡ parts
    → ReadsDate from_ymd_opt
        (Value.date days)
        (checked_date from_ymd_opt (Value.date days) (some parts))
unfolding out_of_range with_reason
checked_date-ReadsDate {D = D} from_ymd_opt days (year, month, day) e =
    answered (from_ymd_opt year month day) refl
  where
    answered :
        (o : Option D)
        → from_ymd_opt year month day ≡ o
        → ReadsDate from_ymd_opt
            (Value.date days)
            (ok_or o (out_of_range (codes "chrono::NaiveDate") (Value.date days)))
    answered none h = (refl, refl, inr (days, refl, ap (of_parts from_ymd_opt) e ∙ h, refl))
    answered (some d) h = (days, refl, ap (of_parts from_ymd_opt) e ∙ h)

date-ReadsDate :
    {D : Type 0} (from_ymd_opt : ℤ → ℕ → ℕ → Option D) (v : Value)
    → ReadsDate from_ymd_opt v (date_from_value from_ymd_opt v)
unfolding date_from_value data_type as_date_ymd conversion_error
date-ReadsDate from_ymd_opt (Value.date days) =
    checked_date-ReadsDate from_ymd_opt days (civil_from_days days) refl
date-ReadsDate from_ymd_opt v = (refl, refl, inl (refl, refl))

is_numeric-data_type :
    (v : Value) → is_numeric v ≡ holds_integer (data_type v) || holds_decimal (data_type v)
unfolding is_numeric data_type
is_numeric-data_type (Value.big_int i) = refl
is_numeric-data_type (Value.int i) = refl
is_numeric-data_type (Value.small_int i) = refl
is_numeric-data_type (Value.decimal w scale) = refl
is_numeric-data_type v = refl

-- The column type of a value is written as the name of the value's type with its arguments: the
-- length of a CHAR, the digits and the scale of a DECIMAL. It alone decides what the value is read
-- as: an `f64` from the integer and decimal types, which are the numeric ones; a `bool` from BOOL; a
-- `&str` and a `String` from CHAR and VARCHAR. Such a read gives what the value holds, or from
-- another type the error of both types and no reason. A `NaiveDate` is read from a DATE whose civil
-- date it has; the error has a reason exactly when the value is a DATE it does not have.
pub data_type-ReadsWhen :
    {D : Type 0} (f : Float) (from_ymd_opt : ℤ → ℕ → ℕ → Option D) (v : Value)
    → (display_type (data_type v) ≡ type_name v ++ arguments v)
      × (is_numeric v ≡ holds_integer (data_type v) || holds_decimal (data_type v))
      × ReadsWhen (is_numeric v) (HoldsNumber f v) (codes "f64") v (f64_from_value f v)
      × ReadsWhen (holds_bool (data_type v)) (HoldsBool v) (codes "bool") v (bool_from_value v)
      × ReadsWhen (holds_text (data_type v)) (HoldsText v) (codes "&str") v (str_from_value v)
      × ReadsWhen (holds_text (data_type v)) (HoldsText v) (codes "String") v (string_from_value v)
      × ReadsDate from_ymd_opt v (date_from_value from_ymd_opt v)
data_type-ReadsWhen f from_ymd_opt v = (
  display_type-data_type v,
  is_numeric-data_type v,
  rw (is_numeric-data_type v) (f64-ReadsWhen f v),
  bool-ReadsWhen v,
  str-ReadsWhen v,
  string-ReadsWhen v,
  date-ReadsDate from_ymd_opt v,
)
