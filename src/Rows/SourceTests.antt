-- ===== src/Rows/SourceTests.antt =====
-- The tests at the end of src/rows.rs, under their names there.
use fing.Base.{
  ℕ, ◌-◌, List, length, drop, [], ◌∷◌, Bool, true, false, ◌&&◌, Option, none, some, ◌≡◌, refl, ◌==◌,
  eq_list,
}
use fing.Base.Int.{ℤ, pos}
use fing.Base.Text.{Text, codes, join, trim_end, trim_start, is_whitespace}
use fing.Base.Decimal.{to_string, to_string_ℤ}
use fing.Error.{
  Result, ok, err, unknown_column, column_out_of_range, conversion, display_conversion,
  conversion_error, Run, returns, panics,
}
use fing.Value.{DataType, Value, as_i64, as_str, type_name, display_value}
use fing.Schema.{Attribute, Schema, no_constraint, index_of, unqualified, len, column}
use fing.Schema
use fing.Convert.{i64, int_from_value, str_from_value, string_from_value, int_name, try_from}
use fing.Rows.{
  Rows, Row, ColumnIndex, by_name, by_position, get, value, index, index_in, rows_len, row_at,
  RowIter, iter, next,
}
use fing.Rows
use fing.Rows.Display.{
  display_rows, widths_from, widest, header, left_aligned, right_aligned, is_right_aligned, lines,
  cells_from,
}

abbrev attribute : Text → DataType → Attribute
attribute name dtype = record { name = name; dtype = dtype; constraint = no_constraint }

abbrev id_column : Schema
unfolding Schema.new
id_column = Schema.new (attribute (codes "id") DataType.int ∷ [])

abbrev sample : Rows
unfolding Rows.new Schema.new
sample =
    Rows.new
      (Schema.new
        (attribute (codes "id") DataType.int ∷ attribute (codes "name") DataType.string ∷ []))
      ((Value.int (pos 1) ∷ Value.string (codes "alice") ∷ [])
        ∷ (Value.int (pos 2) ∷ Value.string (codes "Ziad") ∷ [])
        ∷ [])
      none

-- What is asked of the row at a position, if there is one.
abbrev at_row : ℕ → (Row → Bool) → Bool
unfolding row_at Rows.new
at_row i test = asked (row_at sample i)
  where
    asked : Option Row → Bool
    asked (some row) = test row
    asked none = false

abbrev Got : Type 0 → Type 0
Got A = Run (Result (Unit {0}) A)

abbrev is_number : ℕ → Got ℤ → Bool
is_number n (returns (ok (pos m))) = n == m
is_number n _ = false

abbrev is_text : Text → Got Text → Bool
unfolding eq_list
is_text text (returns (ok t)) = eq_list t text
is_text text _ = false

abbrev has_name : Text → Option Row → Bool
unfolding get eq_list
has_name name (some row) = is_text name (get string_from_value row (by_name (codes "name")))
has_name name none = false

abbrev is_end : Option Row → Bool
is_end none = true
is_end (some row) = false

-- The rows that are left have these names, and there are no more.
abbrev are_named : List Text → RowIter → Bool
unfolding next
are_named [] it = is_end (next it).0
are_named (name ∷ rest) it = has_name name (next it).0 && are_named rest (next it).1

abbrev rows_are_iterable : Bool
unfolding rows_len iter
rows_are_iterable =
    rows_len sample == 2 && are_named (codes "alice" ∷ codes "Ziad" ∷ []) (iter sample)

abbrev columns_read_by_name_and_position : Bool
unfolding get eq_list row_at
columns_read_by_name_and_position =
    at_row 0 (λ row. is_number 1 (get (int_from_value i64) row (by_name (codes "id"))))
    && at_row 0 (λ row. is_number 1 (get (int_from_value i64) row (by_position 0)))
    && at_row 0 (λ row. is_text (codes "alice") (get str_from_value row (by_name (codes "name"))))

abbrev is_ziad : Run Value → Bool
unfolding eq_list
is_ziad (returns (Value.string s)) = eq_list s (codes "Ziad")
is_ziad _ = false

abbrev is_two : Run Value → Bool
is_two (returns (Value.int (pos n))) = n == 2
is_two _ = false

abbrev indexing_yields_raw_values : Bool
unfolding index eq_list row_at
indexing_yields_raw_values =
    at_row 1 (λ row. is_ziad (index (Unit {0}) row (by_name (codes "name"))))
    && at_row 1 (λ row. is_two (index (Unit {0}) row (by_position 0)))

abbrev is_unknown : Text → Got ℤ → Bool
unfolding eq_list
is_unknown text (returns (err (unknown_column name))) = eq_list name text
is_unknown text _ = false

abbrev unknown_columns_are_reported_by_name : Bool
unfolding get eq_list row_at
unknown_columns_are_reported_by_name =
    at_row 0
      (λ row. is_unknown (codes "nope") (get (int_from_value i64) row (by_name (codes "nope"))))

abbrev is_out_of_range : ℕ → ℕ → Got ℤ → Bool
is_out_of_range i n (returns (err (column_out_of_range index count))) = index == i && count == n
is_out_of_range i n _ = false

abbrev out_of_range_columns_report_the_row_width : Bool
unfolding get row_at
out_of_range_columns_report_the_row_width =
    at_row 0 (λ row. is_out_of_range 9 2 (get (int_from_value i64) row (by_position 9)))

abbrev is_name_as_i64 : Got ℤ → Bool
unfolding eq_list display_conversion
is_name_as_i64 (returns (err (conversion column e))) =
    eq_list column (codes "name")
    && eq_list (display_conversion e) (codes "cannot read VARCHAR as i64")
is_name_as_i64 _ = false

abbrev conversion_errors_name_the_column : Bool
unfolding get eq_list display_conversion row_at
conversion_errors_name_the_column =
    at_row 0 (λ row. is_name_as_i64 (get (int_from_value i64) row (by_name (codes "name"))))

abbrev shows : Run Text → Text → Bool
unfolding eq_list
shows (returns t) text = eq_list t text
shows panics text = false

abbrev display_renders_an_aligned_table : Bool
unfolding display_rows eq_list
display_renders_an_aligned_table =
    shows (display_rows sample)
      (codes " id | name\n----+-------\n  1 | alice\n  2 | Ziad\n(2 rows)")

abbrev display_handles_an_empty_result : Bool
unfolding display_rows eq_list Rows.new
display_handles_an_empty_result =
    shows (display_rows (Rows.new id_column [] none)) (codes " id\n----\n(0 rows)")

-- `str::ends_with`
abbrev ends_with : Text → Text → Bool
unfolding eq_list
ends_with suffix text = eq_list (drop (length text - length suffix) text) suffix

abbrev shows_end : Run Text → Text → Bool
shows_end (returns t) suffix = ends_with suffix t
shows_end panics suffix = false

abbrev display_uses_the_singular_for_one_row : Bool
unfolding display_rows eq_list Rows.new
display_uses_the_singular_for_one_row =
    shows_end (display_rows (Rows.new id_column ((Value.int (pos 1) ∷ []) ∷ []) none))
      (codes "(1 row)")

reads_pass :
    (rows_are_iterable ≡ true)
    × (columns_read_by_name_and_position ≡ true)
    × (indexing_yields_raw_values ≡ true)
    × (unknown_columns_are_reported_by_name ≡ true)
    × (out_of_range_columns_report_the_row_width ≡ true)
    × (conversion_errors_name_the_column ≡ true)
unfolding rows_len iter next string_from_value get eq_list row_at index display_conversion Rows.new
    Schema.new index_of unqualified len column int_from_value str_from_value as_i64 as_str type_name
    int_name try_from conversion_error
reads_pass = (refl, refl, refl, refl, refl, refl)

display_passes :
    (display_renders_an_aligned_table ≡ true)
    × (display_handles_an_empty_result ≡ true)
    × (display_uses_the_singular_for_one_row ≡ true)
unfolding display_rows eq_list Rows.new Schema.new widths_from widest header left_aligned
    right_aligned is_right_aligned lines cells_from display_value to_string to_string_ℤ join
    trim_end trim_start is_whitespace
display_passes = (refl, refl, refl)
