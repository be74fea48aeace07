-- ===== src/Client/ServerTests.antt =====
-- The tests of src/client.rs against a fake server, under their names there.
use fing.Base.{
  ℕ, List, [], ◌∷◌, ◌++◌, replicate, Bool, true, false, ◌&&◌, Option, none, some, ◌≡◌, refl, ◌==◌,
  eq_list,
}
use fing.Base.Int.{ℤ, pos}
use fing.Base.Text.{
  Text, codes, trim, is_whitespace, contains, split_by, strip_prefix, filter_non_empty,
}
use fing.Error.{
  from_io, query, not_connected, unsupported, multiple_statements, connection_closed,
  request_too_large, ok, err, Run, returns,
}
use fing.Value.{as_i64, as_str}
use fing.Schema.{Attribute, Schema, no_constraint, primary_key, index_of, unqualified, column}
use fing.Schema
use fing.Protocol
use fing.Protocol.{Response, Tuple, db_command, system_command}
use fing.Convert.{i64, int_from_value, str_from_value, try_from}
use fing.Rows.{Rows, Row, by_name, get, rows_len, row_at}
use fing.Rows
use fing.Sql.{inspect}
use fing.Codec.{write_request, read_response}
use fing.Codec.Frames.{framed}
use fing.Codec.Transport.{write_all, read_exact}
use fing.Codec.BigEndian.{to_be_bytes, from_be_bytes}
use fing.Client
use fing.Client.{Client, selected_database, set_statement_guard, check, outcome_of, expect_message}
use fing.Client.Names.{require_name, parse_list}
use fing.Client.Outcomes.{Outcome, rows_affected, into_outcome, into_rows}
use fing.Client.Connect.{connect_default}
use fing.Client.FakeServer.{debug, scripted, against, Answered, select_response}

abbrev is_name : Text → Option Text → Bool
unfolding eq_list
is_name text (some t) = eq_list t text
is_name text none = false

abbrev is_none : Option Text → Bool
is_none none = true
is_none (some t) = false

abbrev connected : List Response
connected = Protocol.system_msg (codes "Connected to database mydb") ∷ []

abbrev selecting_a_database_records_it_on_the_connection : Bool
unfolding Client.use_database selected_database eq_list connect_default
selecting_a_database_records_it_on_the_connection = against connected λ c.
    is_none (selected_database c)
    && is_name (codes "mydb")
        (selected_database (Client.use_database (scripted connected) debug (codes "mydb") c).1)

abbrev is_one : Run (Answered ℤ) → Bool
is_one (returns (ok (pos n))) = n == 1
is_one _ = false

abbrev is_alice : Run (Answered Text) → Bool
unfolding eq_list
is_alice (returns (ok t)) = eq_list t (codes "alice")
is_alice _ = false

abbrev is_typed : Option Row → Bool
unfolding get eq_list
is_typed (some row) =
    is_one (get (int_from_value i64) row (by_name (codes "id")))
    && is_alice (get str_from_value row (by_name (codes "name")))
is_typed none = false

abbrev has_one_row : Answered Rows → Bool
unfolding rows_len row_at get eq_list
has_one_row (ok rows) = rows_len rows == 1 && is_typed (row_at rows 0)
has_one_row (err e) = false

abbrev queries_yield_typed_rows : Bool
unfolding Client.query_rows rows_len row_at get eq_list connect_default Schema.new
queries_yield_typed_rows = against (select_response ∷ []) λ c.
    has_one_row
      (Client.query_rows (scripted (select_response ∷ [])) debug (codes "SELECT * FROM users") c).0

abbrev inserted : List Response
inserted = Protocol.query_result (Protocol.insert 2 (codes "users")) ∷ []

abbrev reports : ℕ → Answered Outcome → Bool
unfolding rows_affected
reports n (ok outcome) = rows_affected outcome == n
reports n (err e) = false

abbrev inserts_report_their_row_count : Bool
unfolding Client.execute rows_affected connect_default
inserts_report_their_row_count = against inserted λ c.
    reports 2
      (Client.execute (scripted inserted) debug (codes "INSERT INTO users VALUES (1, 'a')") c).0

abbrev is_query_error : Text → Answered Rows → Bool
unfolding eq_list
is_query_error text (err (query message)) = eq_list message text
is_query_error text _ = false

abbrev no_table : List Response
no_table = Protocol.query_execution_error (codes "no such table") ∷ []

abbrev query_execution_errors_surface_as_errors : Bool
unfolding Client.query_rows eq_list connect_default
query_execution_errors_surface_as_errors = against no_table λ c.
    is_query_error (codes "no such table")
      (Client.query_rows (scripted no_table) debug (codes "SELECT * FROM nope") c).0

abbrev is_not_connected : Answered Rows → Bool
is_not_connected (err not_connected) = true
is_not_connected _ = false

abbrev unselected : List Response
unselected = Protocol.system_err (codes "Not connected to a database") ∷ []

abbrev running_sql_before_selecting_a_database_is_reported_clearly : Bool
unfolding Client.query_rows connect_default
running_sql_before_selecting_a_database_is_reported_clearly =
    against unselected
      λ c. is_not_connected (Client.query_rows (scripted unselected) debug (codes "SELECT 1") c).0

abbrev is_unsupported : Answered Outcome → Bool
is_unsupported (err (unsupported what)) = true
is_unsupported _ = false

abbrev is_multiple : Answered Outcome → Bool
is_multiple (err multiple_statements) = true
is_multiple _ = false

abbrev multiple_refused : Answered Outcome × Client → Bool
unfolding Client.execute
multiple_refused (r, c) =
    is_unsupported r
    && is_multiple (Client.execute (scripted []) debug (codes "SELECT 1; SELECT 2") c).0

abbrev unsupported_statements_never_reach_the_wire : Bool
unfolding Client.execute connect_default
unsupported_statements_never_reach_the_wire =
    against []
      λ c. multiple_refused (Client.execute (scripted []) debug (codes "DELETE FROM users") c)

abbrev is_ok : Answered Outcome → Bool
is_ok (ok outcome) = true
is_ok (err e) = false

abbrev agreed : List Response
agreed = Protocol.system_msg (codes "ok") ∷ []

abbrev the_statement_guard_can_be_turned_off : Bool
unfolding Client.execute set_statement_guard connect_default
the_statement_guard_can_be_turned_off = against agreed λ c.
    is_ok
      (Client.execute (scripted agreed) debug (codes "DELETE FROM users")
        (set_statement_guard c false)).0

abbrev is_too_large : Answered Outcome → Bool
is_too_large (err (request_too_large size max)) = true
is_too_large _ = false

abbrev oversized_statements_are_refused_locally : Bool
unfolding Client.execute connect_default
oversized_statements_are_refused_locally = against [] λ c.
    is_too_large
      (Client.execute (scripted []) debug
        (codes "SELECT * FROM t WHERE name = '" ++ replicate 2000 b'x' ++ codes "'") c).0

abbrev is_closed : Answered Rows → Bool
is_closed (err connection_closed) = true
is_closed _ = false

abbrev a_hung_up_server_reports_a_closed_connection : Bool
unfolding Client.query_rows connect_default
a_hung_up_server_reports_a_closed_connection =
    against [] λ c. is_closed (Client.query_rows (scripted []) debug (codes "SELECT 1") c).0

abbrev are_users_and_orders : Answered (List Text) → Bool
unfolding eq_list
are_users_and_orders (ok (s ∷ t ∷ [])) = eq_list s (codes "users") && eq_list t (codes "orders")
are_users_and_orders _ = false

abbrev two_tables : List Response
two_tables = Protocol.query_result (Protocol.message_only (codes "Tables: users, orders")) ∷ []

abbrev table_listings_are_parsed : Bool
unfolding Client.tables eq_list connect_default
table_listings_are_parsed =
    against two_tables λ c. are_users_and_orders (Client.tables (scripted two_tables) debug c).0

source_tests :
    (selecting_a_database_records_it_on_the_connection ≡ true)
    × (queries_yield_typed_rows ≡ true)
    × (inserts_report_their_row_count ≡ true)
    × (query_execution_errors_surface_as_errors ≡ true)
    × (running_sql_before_selecting_a_database_is_reported_clearly ≡ true)
    × (unsupported_statements_never_reach_the_wire ≡ true)
    × (the_statement_guard_can_be_turned_off ≡ true)
    × (oversized_statements_are_refused_locally ≡ true)
    × (a_hung_up_server_reports_a_closed_connection ≡ true)
    × (table_listings_are_parsed ≡ true)
unfolding selecting_a_database_records_it_on_the_connection queries_yield_typed_rows
    inserts_report_their_row_count query_execution_errors_surface_as_errors
    running_sql_before_selecting_a_database_is_reported_clearly
    unsupported_statements_never_reach_the_wire the_statement_guard_can_be_turned_off
    oversized_statements_are_refused_locally a_hung_up_server_reports_a_closed_connection
    table_listings_are_parsed is_name has_one_row is_typed is_alice reports is_query_error
    multiple_refused are_users_and_orders Client.execute inspect Client.db write_request db_command
    write_all read_response read_exact framed to_be_bytes from_be_bytes check outcome_of into_rows
    into_outcome Rows.new contains is_whitespace split_by strip_prefix filter_non_empty trim
    connect_default against select_response require_name Client.query_rows Client.use_database
    Client.tables parse_list expect_message int_from_value str_from_value try_from system_command
    get row_at rows_len column index_of Schema.new unqualified as_i64 as_str eq_list
    selected_database set_statement_guard rows_affected from_io
source_tests = (refl, refl, refl, refl, refl, refl, refl, refl, refl, refl)
