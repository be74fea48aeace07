-- ===== src/Client/Outcomes.antt =====
-- `Outcome` of src/client.rs: what a statement did.
use fing.Base.{ℕ, ◌++◌, Option, none, some, map}
use fing.Base.Text.{Text, codes}
use fing.Base.Decimal.{to_string}
use fing.Error.{unexpected_response, Result, ok, err}
use fing.Protocol
use fing.Protocol.{Tuple, QueryResult}
use fing.Rows
use fing.Rows.{Rows, rows_len}

pub data Outcome : Type 0 where
  message : Text → Outcome
  insert : (count : ℕ) → (table : Text) → Outcome
  rows : Rows → Outcome

unfoldable pub rows_affected : Outcome → ℕ
unfolding rows_len
rows_affected (message m) = 0
rows_affected (insert count table) = count
rows_affected (rows r) = rows_len r

unfoldable pub message_of : Outcome → Option Text
message_of (message m) = some m
message_of _ = none

unfoldable pub rows_of : Outcome → Option Rows
rows_of (rows r) = some r
rows_of _ = none

unfoldable pub into_rows : {C : Type 0} → Outcome → Result C Rows
into_rows (rows r) = ok r
into_rows (message m) =
    err (unexpected_response (codes "expected a result set, server said: " ++ m))
into_rows (insert count table) = err (
    unexpected_response (
      codes "expected a result set, but "
      ++ to_string count
      ++ codes " rows were inserted into "
      ++ table))

unfoldable pub into_outcome : QueryResult → Outcome
into_outcome (Protocol.message_only m) = message m
into_outcome (Protocol.insert inserted table_name) = insert inserted table_name
into_outcome (Protocol.select schema result paging_info) =
    rows (Rows.new schema (map (λ t. t.field_vals) result) paging_info)
