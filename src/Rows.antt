-- ===== src/Rows.antt =====
-- src/rows.rs: result sets, and the reading of a row. The table of `Display` is in `Rows.Display`.
pub mod Access
pub mod Gets
pub mod Iterate
pub mod Display
pub mod Table
pub mod Aligned
pub mod Layout
pub mod Cells
mod SourceTests
mod Tests
use fing.Base.{
  ℕ, List, [], ◌∷◌, Bool, Option, none, some, length, is_nil, get_elem?, ltb, if◌then◌else◌,
}
use fing.Base.Text.{Text}
use fing.Base.Decimal.{to_string}
use fing.Error.{
  conversion, unknown_column, column_out_of_range, Result, ok, err, ok_or, Run, returns, panics,
}
use fing.Schema.{Attribute, Schema, columns, len, column, index_of}
use fing.Value.{Value}
use fing.Protocol.{PagingInfo}
use fing.Convert
use fing.Convert.{Converted, FromValue}

-- What names a column: a position, or a name. `String` and `&String` do what `&str` does.
pub data ColumnIndex : Type 0 where
  by_position : ℕ → ColumnIndex
  by_name : Text → ColumnIndex

unfoldable pub index_in : {C : Type 0} → ColumnIndex → Schema → Result C ℕ
unfolding len
index_in (by_position i) schema =
    if ltb i (len schema) then ok i else err (column_out_of_range i (len schema))
index_in (by_name name) schema = ok_or (index_of schema name) (unknown_column name)

pub record Rows : Type 0 where
  pub schema : Schema
  pub rows : List (List Value)
  pub paging : Option PagingInfo

pub record Row : Type 0 where
  pub schema : Schema
  pub values : List Value

unfoldable pub new : Schema → List (List Value) → Option PagingInfo → Rows
new schema rows paging = record { schema = schema; rows = rows; paging = paging }

unfoldable pub rows_schema : Rows → Schema
rows_schema r = r.schema

unfoldable pub rows_columns : Rows → List Attribute
rows_columns r = columns r.schema

unfoldable pub rows_len : Rows → ℕ
rows_len r = length r.rows

unfoldable pub rows_is_empty : Rows → Bool
rows_is_empty r = is_nil r.rows

abbrev as_row : Schema → Option (List Value) → Option Row
as_row schema none = none
as_row schema (some values) = some (record { schema = schema; values = values })

-- `Rows::get`
unfoldable pub row_at : Rows → ℕ → Option Row
row_at r index = as_row r.schema (get_elem? r.rows index)

-- `RowIter`: the schema, and the rows that the inner iterator has not given yet.
pub record RowIter : Type 0 where
  pub schema : Schema
  pub inner : List (List Value)

unfoldable pub iter : Rows → RowIter
iter r = record { schema = r.schema; inner = r.rows }

-- `IntoIterator` of `&Rows`
unfoldable pub into_iter : Rows → RowIter
unfolding iter
into_iter r = iter r

unfoldable pub rows_paging : Rows → Option PagingInfo
rows_paging r = r.paging

unfoldable pub into_values : Rows → List (List Value)
into_values r = r.rows

abbrev next_of : Schema → List (List Value) → Option Row × RowIter
next_of schema [] = (none, record { schema = schema; inner = [] })
next_of schema (values ∷ rest) =
    (some (record { schema = schema; values = values }), record { schema = schema; inner = rest })

unfoldable pub next : RowIter → Option Row × RowIter
next it = next_of it.schema it.inner

unfoldable pub size_hint : RowIter → ℕ × Option ℕ
size_hint it = (length it.inner, some (length it.inner))

-- `self.values[index]`, which panics past the end.
abbrev value_or_panic : Option Value → Run Value
value_or_panic none = panics
value_or_panic (some v) = returns v

abbrev index_values : List Value → ℕ → Run Value
index_values values index = value_or_panic (get_elem? values index)

-- The name of a column for an error, or its position.
abbrev pub column_label : ℕ → Option Attribute → Text
column_label index none = to_string index
column_label index (some a) = a.name

abbrev pub labelled : {C A : Type 0} → Text → Converted A → Result C A
labelled column (Convert.ok a) = ok a
labelled column (Convert.err source) = err (conversion column source)

abbrev read_value : {C A : Type 0} → FromValue A → Row → ℕ → Run Value → Run (Result C A)
read_value from row index panics = panics
read_value from row index (returns v) =
    returns (labelled (column_label index (column row.schema index)) (from v))

abbrev get_at : {C A : Type 0} → FromValue A → Row → Result C ℕ → Run (Result C A)
get_at from row (err e) = returns (err e)
get_at from row (ok index) = read_value from row index (index_values row.values index)

unfoldable pub get : {C A : Type 0} → FromValue A → Row → ColumnIndex → Run (Result C A)
unfolding index_in column
get from row col = get_at from row (index_in col row.schema)

abbrev value_result : {C : Type 0} → Run Value → Run (Result C Value)
value_result panics = panics
value_result (returns v) = returns (ok v)

abbrev value_at : {C : Type 0} → Row → Result C ℕ → Run (Result C Value)
value_at row (err e) = returns (err e)
value_at row (ok index) = value_result (index_values row.values index)

unfoldable pub value : {C : Type 0} → Row → ColumnIndex → Run (Result C Value)
unfolding index_in
value row col = value_at row (index_in col row.schema)

unfoldable pub row_values : Row → List Value
row_values row = row.values

unfoldable pub row_schema : Row → Schema
row_schema row = row.schema

unfoldable pub row_len : Row → ℕ
row_len row = length row.values

unfoldable pub row_is_empty : Row → Bool
row_is_empty row = is_nil row.values

abbrev expect : {C : Type 0} → Run (Result C Value) → Run Value
expect (returns (ok v)) = returns v
expect _ = panics

-- The two `Index` impls: `row["name"]` and `row[0]`.
unfoldable pub index : (C : Type 0) → Row → ColumnIndex → Run Value
unfolding value
index C row col = expect (value {C = C} row col)
