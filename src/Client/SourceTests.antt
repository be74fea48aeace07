-- ===== src/Client/SourceTests.antt =====
-- The tests at the end of src/client.rs that need no server, under their names there.
use fing.Base.{ℕ, List, [], ◌∷◌, Bool, true, false, not, ◌&&◌, ◌≡◌, refl, eq_list, is_nil, ◌==◌}
use fing.Base.Text.{
  Text, codes, split_whitespace, is_whitespace, trim, contains, split_by, strip_prefix,
  filter_non_empty,
}
use fing.Base.Decimal.{parse_usize}
use fing.Error.{not_connected, server, query, server_shutdown, Result, ok, err}
use fing.Protocol
use fing.Protocol.{Response}
use fing.Client.{check}
use fing.Client.Names.{parse_list, parse_imported, require_name}
use fing.Client.Outcomes.{message, insert, rows_affected, into_rows}

abbrev Tested : Type 0 → Type 0
Tested A = Result (Unit {0}) A

abbrev is_err : {A : Type 0} → Tested A → Bool
is_err (err e) = true
is_err (ok a) = false

abbrev eq_texts : List Text → List Text → Bool
unfolding eq_list
eq_texts [] [] = true
eq_texts (s ∷ ss) (t ∷ ts) = eq_list s t && eq_texts ss ts
eq_texts _ _ = false

abbrev database_lists_are_parsed_from_prose : Bool
unfolding parse_list eq_list
database_lists_are_parsed_from_prose =
    eq_texts (parse_list (codes "Databases: a, b, c") (codes "Databases:"))
      (codes "a" ∷ codes "b" ∷ codes "c" ∷ [])
    && eq_texts (parse_list (codes "Tables: users") (codes "Tables:")) (codes "users" ∷ [])

abbrev an_empty_list_parses_as_no_entries : Bool
unfolding parse_list
an_empty_list_parses_as_no_entries =
    is_nil (parse_list (codes "Tables: ") (codes "Tables:"))
    && is_nil (parse_list (codes "Databases:") (codes "Databases:"))

abbrev is_forty_two : Tested ℕ → Bool
is_forty_two (ok n) = n == 42
is_forty_two (err e) = false

abbrev import_counts_are_parsed_from_prose : Bool
unfolding parse_imported
import_counts_are_parsed_from_prose =
    is_forty_two (parse_imported (codes "Imported 42 rows into table users"))
    && is_err (parse_imported (codes "Imported rows into table users"))

abbrev is_not_connected : Tested Response → Bool
is_not_connected (err not_connected) = true
is_not_connected _ = false

abbrev is_server : Tested Response → Bool
is_server (err (server text)) = true
is_server _ = false

abbrev is_query : Tested Response → Bool
is_query (err (query text)) = true
is_query _ = false

abbrev is_shutdown : Tested Response → Bool
is_shutdown (err server_shutdown) = true
is_shutdown _ = false

abbrev error_responses_become_errors : Bool
unfolding check
error_responses_become_errors =
    is_not_connected (check (Protocol.system_err (codes "Not connected to a database")))
    && is_server (check (Protocol.system_err (codes "boom")))
    && is_query (check (Protocol.query_execution_error (codes "bad sql")))
    && is_shutdown (check (Protocol.shutdown false))
    && not (is_err (check Protocol.ok))

abbrev is_text : Text → Tested Text → Bool
unfolding eq_list
is_text text (ok t) = eq_list t text
is_text text (err e) = false

abbrev names_must_not_be_blank : Bool
unfolding require_name eq_list
names_must_not_be_blank =
    is_err (require_name (codes "  ") (codes "database name"))
    && is_text (codes "mydb") (require_name (codes " mydb ") (codes "database name"))

abbrev outcomes_report_affected_rows : Bool
unfolding rows_affected into_rows
outcomes_report_affected_rows =
    rows_affected (insert 3 (codes "t")) == 3
    && rows_affected (message (codes "ok")) == 0
    && is_err (into_rows {C = Unit {0}} (message (codes "ok")))

source_tests :
    (database_lists_are_parsed_from_prose ≡ true)
    × (an_empty_list_parses_as_no_entries ≡ true)
    × (import_counts_are_parsed_from_prose ≡ true)
    × (error_responses_become_errors ≡ true)
    × (names_must_not_be_blank ≡ true)
    × (outcomes_report_affected_rows ≡ true)
unfolding parse_list eq_list parse_imported check require_name rows_affected into_rows trim
    is_whitespace split_whitespace parse_usize split_by strip_prefix filter_non_empty contains
source_tests = (refl, refl, refl, refl, refl, refl)
