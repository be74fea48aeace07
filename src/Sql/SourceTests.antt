-- ===== src/Sql/SourceTests.antt =====
-- The tests at the end of src/sql.rs, under their names there.
use fing.Base.{Bool, true, false, ◌&&◌, ◌≡◌, refl, eq_list}
use fing.Base.Text.{Text, codes}
use fing.Error.{unsupported, multiple_statements, invalid_argument, Result, ok, err}
use fing.Sql.{StatementKind, query, insert, create_table, inspect}

abbrev Inspected : Type 0
Inspected = Result (Unit {0}) StatementKind

abbrev same_kind : StatementKind → StatementKind → Bool
same_kind query query = true
same_kind insert insert = true
same_kind create_table create_table = true
same_kind _ _ = false

abbrev is_kind : StatementKind → Inspected → Bool
is_kind kind (ok k) = same_kind k kind
is_kind kind (err e) = false

abbrev is_unsupported : Inspected → Bool
is_unsupported (err (unsupported what)) = true
is_unsupported _ = false

abbrev is_unsupported_as : Text → Inspected → Bool
is_unsupported_as text (err (unsupported what)) = eq_list what text
is_unsupported_as text _ = false

abbrev is_multiple : Inspected → Bool
is_multiple (err multiple_statements) = true
is_multiple _ = false

abbrev is_invalid : Inspected → Bool
is_invalid (err (invalid_argument what)) = true
is_invalid _ = false

abbrev inspects_as : StatementKind → Text → Bool
unfolding inspect
inspects_as kind sql = is_kind kind (inspect sql)

abbrev supported_statements_are_classified : Bool
supported_statements_are_classified =
    inspects_as query (codes "SELECT * FROM t")
    && inspects_as insert (codes "insert into t values (1)")
    && inspects_as create_table (codes "CREATE TABLE t (a INT)")

abbrev a_trailing_semicolon_is_fine : Bool
a_trailing_semicolon_is_fine =
    inspects_as query (codes "SELECT 1;")
    && inspects_as query (codes "SELECT 1;   ")
    && inspects_as query (codes "SELECT 1; -- done")

abbrev statements_the_server_cannot_run_are_rejected : Bool
unfolding inspect
statements_the_server_cannot_run_are_rejected =
    is_unsupported (inspect (codes "UPDATE t SET a = 1"))
    && is_unsupported (inspect (codes "DELETE FROM t"))
    && is_unsupported (inspect (codes "DROP TABLE t"))
    && is_unsupported (inspect (codes "ALTER TABLE t ADD b INT"))
    && is_unsupported (inspect (codes "TRUNCATE TABLE t"))
    && is_unsupported (inspect (codes "EXPLAIN SELECT 1"))

abbrev only_create_table_is_supported : Bool
unfolding inspect eq_list
only_create_table_is_supported =
    is_unsupported_as (codes "CREATE INDEX statements") (inspect (codes "CREATE INDEX i ON t (a)"))
    && inspects_as create_table (codes "CREATE TABLE t (a INT)")

abbrev multiple_statements_are_rejected : Bool
unfolding inspect
multiple_statements_are_rejected =
    is_multiple (inspect (codes "SELECT 1; SELECT 2"))
    && is_multiple (inspect (codes "INSERT INTO t VALUES (1); INSERT INTO t VALUES (2);"))

abbrev semicolons_inside_strings_do_not_split_statements : Bool
semicolons_inside_strings_do_not_split_statements =
    inspects_as insert (codes "INSERT INTO t VALUES ('a;b')")
    && inspects_as query (codes "SELECT * FROM t WHERE s = 'it''s; fine'")

abbrev semicolons_inside_comments_do_not_split_statements : Bool
semicolons_inside_comments_do_not_split_statements =
    inspects_as query (codes "SELECT 1 -- ; not a statement")
    && inspects_as query (codes "/* ; */ SELECT 1")

abbrev leading_comments_are_skipped : Bool
leading_comments_are_skipped =
    inspects_as query (codes "-- a comment\nSELECT 1")
    && inspects_as insert (codes "/* block */ INSERT INTO t VALUES (1)")

abbrev parenthesized_queries_are_queries : Bool
parenthesized_queries_are_queries = inspects_as query (codes "(SELECT 1)")

abbrev empty_input_is_rejected : Bool
unfolding inspect
empty_input_is_rejected =
    is_invalid (inspect (codes ""))
    && is_invalid (inspect (codes "  \n -- hi"))
    && is_invalid (inspect (codes ";"))

abbrev quoted_identifiers_are_not_keywords : Bool
quoted_identifiers_are_not_keywords = inspects_as query (codes "SELECT \"UPDATE\" FROM t")

statements_pass :
    (supported_statements_are_classified ≡ true)
    × (a_trailing_semicolon_is_fine ≡ true)
    × (statements_the_server_cannot_run_are_rejected ≡ true)
    × (only_create_table_is_supported ≡ true)
    × (multiple_statements_are_rejected ≡ true)
unfolding inspect eq_list
statements_pass = (refl, refl, refl, refl, refl)

text_passes :
    (semicolons_inside_strings_do_not_split_statements ≡ true)
    × (semicolons_inside_comments_do_not_split_statements ≡ true)
    × (leading_comments_are_skipped ≡ true)
    × (parenthesized_queries_are_queries ≡ true)
    × (empty_input_is_rejected ≡ true)
    × (quoted_identifiers_are_not_keywords ≡ true)
unfolding inspect
text_passes = (refl, refl, refl, refl, refl, refl)
