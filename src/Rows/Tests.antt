-- ===== src/Rows/Tests.antt =====
-- Tests of src/rows.rs, after those at its end, and the properties at concrete inputs.
use fing.Base.{ℕ, ◌≤◌, [], ◌∷◌, ◌≡◌, ◌↔◌, refl, arith}
use fing.Base.Int.{ℤ, pos}
use fing.Base.Text.{Text, codes}
use fing.Error.{Result, ok, err, unknown_column, column_out_of_range, Run, returns, panics}
use fing.Value.{Value, DataType}
use fing.Schema.{Schema, no_constraint, index_of, len, unqualified}
use fing.Convert.{i64, int_from_value}
use fing.Base.{◌⊎◌, inr, none, some, ◌-◌}
use fing.Base.Text.{join, trim_end, trim_start, is_whitespace}
use fing.Base.Decimal.{to_string, to_string_ℤ}
use fing.Value.{display_value}
use fing.Rows.Display.{
  display_rows, widths_from, widest, header, left_aligned, right_aligned, is_right_aligned, lines,
  cells_from,
}
use fing.Rows.Table.{Returns, display_rows-Returns}
use fing.Rows.Aligned.{display_rows-IsTable}
use fing.Rows.Layout.{IsTable}
use fing.Rows.Iterate.{calls, rows_from, calls-row_at}
use fing.Rows.{into_iter, size_hint, rows_len}
use fing.Rows.Display.{cells_of}
use fing.Rows.{Rows, by_position, by_name, index_in, Row, get}
use fing.Rows.Access.{get-panics_iff}
use fing.Rows.Gets.{Gets, get-Gets}

abbrev two_columns : Schema
two_columns = record {
  attributes =
      record { name = codes "t.id"; dtype = DataType.int; constraint = no_constraint }
      ∷ record { name = codes "t.name"; dtype = DataType.string; constraint = no_constraint }
      ∷ [];
}

abbrev full_row : Row
full_row = record {
  schema = two_columns;
  values = Value.int (pos 7) ∷ Value.string (codes "x") ∷ [];
}

abbrev short_row : Row
short_row = record { schema = two_columns; values = Value.int (pos 7) ∷ [] }

abbrev Answer : Type 0
Answer = Run (Result (Unit {0}) ℤ)

get_tests :
    (◌≡◌ {A = Answer}
      (get (int_from_value i64) full_row (by_name (codes "id")))
      (returns (ok (pos 7))))
    × (◌≡◌ {A = Answer}
        (get (int_from_value i64) full_row (by_name (codes "nope")))
        (returns (err (unknown_column (codes "nope")))))
    × (◌≡◌ {A = Answer}
        (get (int_from_value i64) full_row (by_position 2))
        (returns (err (column_out_of_range 2 2))))
    × (◌≡◌ {A = Answer} (get (int_from_value i64) short_row (by_name (codes "name"))) panics)
unfolding get int_from_value index_of unqualified len
get_tests = (refl, refl, refl, refl)

get-panics_iff_example :
    (get {C = Unit} (int_from_value i64) short_row (by_position 1) ≡ panics)
    ↔ ((i : ℕ) × (index_in {C = Unit} (by_position 1) two_columns ≡ ok i) × (1 ≤ i))
get-panics_iff_example = get-panics_iff (int_from_value i64) short_row (by_position 1)

get-Gets_example :
    Gets {C = Unit}
      (int_from_value i64)
      full_row
      (by_name (codes "name"))
      (get (int_from_value i64) full_row (by_name (codes "name")))
get-Gets_example = get-Gets (int_from_value i64) full_row (by_name (codes "name"))

abbrev two_rows : Rows
two_rows = record {
  schema = two_columns;
  rows =
      (Value.int (pos 7) ∷ Value.string (codes "x") ∷ [])
      ∷ (Value.int (pos 12) ∷ Value.null ∷ [])
      ∷ [];
  paging = none;
}

abbrev wide_row : Rows
wide_row = record two_rows { rows = (Value.null ∷ Value.null ∷ Value.null ∷ []) ∷ [] }

display_rows_tests :
    (display_rows two_rows
      ≡ returns (codes " t.id | t.name\n------+--------\n    7 | x\n   12 | NULL\n(2 rows)"))
    × (display_rows (record two_rows { rows = [] })
        ≡ returns (codes " t.id | t.name\n------+--------\n(0 rows)"))
    × (display_rows wide_row ≡ panics)
unfolding display_rows widths_from widest header left_aligned right_aligned is_right_aligned lines
    cells_from display_value to_string to_string_ℤ join trim_end trim_start is_whitespace
display_rows_tests = (refl, refl, refl)

display_rows-Returns_example :
    Returns (display_rows wide_row) ↔ ((two_columns.attributes ≡ []) ⊎ ((3 ≤ 2) × Unit {0}))
display_rows-Returns_example = display_rows-Returns wide_row

abbrev sample : Rows
sample = record {
  schema = two_columns;
  rows = full_row.values ∷ short_row.values ∷ [];
  paging = none;
}

display_rows-IsTable_example :
    (text : Text) × (display_rows sample ≡ returns text)
    × IsTable two_columns.attributes (cells_of sample) 2 text
display_rows-IsTable_example = display_rows-IsTable sample (inr (omega arith, (omega arith, tt)))

calls-row_at_example :
    ((calls 3 (into_iter sample)).0 ≡ rows_from 0 3 sample)
    × (size_hint (calls 3 (into_iter sample)).1 ≡ (rows_len sample - 3, some (rows_len sample - 3)))
calls-row_at_example = calls-row_at 3 sample
