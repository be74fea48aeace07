-- ===== src/Example/Completes.antt =====
-- examples/basic.rs against a server that has a database with the table `users`.
use fing.Base.{List, [], ◌∷◌, ◌++◌, Bool, true, false, Option, none, some, ◌≡◌, refl, ap, ◌∙◌, map}
use fing.Base.Text.{Text, codes, trim, is_whitespace}
use fing.Error.{Error, Result, ok, Run, returns}
use fing.Protocol
use fing.Protocol.{Response, Tuple, PagingInfo}
use fing.Schema.{Schema}
use fing.Value.{Value}
use fing.Rows.{Rows}
use fing.Rows
use fing.Rows.Display.{display_rows}
use fing.Sql.{query, inspect}
use fing.Codec.{Cbor}
use fing.Client
use fing.Client.{Client, Session, outcome_of, server_addr}
use fing.Client.Names.{parse_list}
use fing.Client.Outcomes.{into_rows, into_outcome}
use fing.Client.Wire.{Operation}
use fing.Client.Queries.{Passes}
use fing.Client.Exchanges.{request_of, unless_refused, IsName, refusal, settle, Arrived, received}
use fing.Client.Operations.{run-meaning}
use fing.Example.{
  ◌>>◌, World, Program, go_on, ◌>>=◌, on_client, print, first_or_demo, any_users, create_missing,
  populate, select_users, print_rows, print_table, session,
}
use fing.Example.Printed.{User, user_line, print_rows-lines}

select_users-Passes :
    (cbor : Cbor) (debug : Response → Text) (on : Bool) → Passes cbor debug on select_users
unfolding inspect trim is_whitespace
select_users-Passes cbor debug true = (query, refl)
select_users-Passes cbor debug false = refl

module _ (cbor : Cbor) (debug : Response → Text) where
  open cbor use {CborError}

  -- The server lists a database and accepts its choice, lists a table `users`, and answers the query
  -- with its rows; each response has arrived when it is asked for.
  pub record Serves (c : Client) : Type 0 where
    pub listing : Text
    pub name : Text
    pub others : List Text
    pub listed : parse_list listing (codes "Databases:") ≡ name ∷ others
    pub named : IsName name
    pub first_reply :
        Arrived cbor debug (request_of Operation.databases) c (Protocol.system_msg listing)
    pub chosen : Response
    pub accepts : refusal cbor debug chosen ≡ none
    pub second_reply :
        Arrived cbor debug
          (request_of (Operation.use_database name))
          (received cbor debug c first_reply)
          chosen
    pub third : Text
    pub has_users : any_users (parse_list third (codes "Tables:")) ≡ true
    pub third_reply :
        Arrived cbor debug
          (request_of Operation.tables)
          (record (received cbor debug (received cbor debug c first_reply) second_reply) {
            database = some (trim name);
          })
          (Protocol.system_msg third)
    pub schema : Schema
    pub users : List (User schema)
    pub tuples : List Tuple
    pub hold : map (λ (t : Tuple). t.field_vals) tuples ≡ map (λ (u : User schema). u.values) users
    pub paging : Option PagingInfo
    pub table : Text
    pub shown :
        display_rows (Rows.new schema (map (λ (t : Tuple). t.field_vals) tuples) paging)
        ≡ returns table
    pub fourth_reply :
        Arrived cbor debug
          (request_of (Operation.query select_users))
          (received cbor debug
            (record (received cbor debug (received cbor debug c first_reply) second_reply) {
              database = some (trim name);
            })
            third_reply)
          (Protocol.query_result (Protocol.select schema tuples paging))

  asked :
      {A B : Type 0} (m : Session CborError A) (f : A → Program CborError B) (w : World) (a : A)
      (d : Client)
      → m w.client ≡ (ok a, d)
      → (on_client m >>= f) w ≡ f a (record w { client = d })
  asked m f w a d e =
      ap (λ (p : Result CborError _ × Client). go_on (returns p.0) f (record w { client = p.1 })) e

  module _ (c : Client) (s : Serves c) where
    -- The client behind each of the four replies.
    abbrev listed_at : Client
    listed_at = received cbor debug c s.first_reply

    abbrev chosen_at : Client
    chosen_at = record (received cbor debug listed_at s.second_reply) {
      database = some (trim s.name);
    }

    abbrev tables_at : Client
    tables_at = received cbor debug chosen_at s.third_reply

    abbrev pub finished : Client
    finished = received cbor debug tables_at s.fourth_reply

    abbrev rows : Rows
    rows = record {
      schema = s.schema;
      rows = map (λ (t : Tuple). t.field_vals) s.tuples;
      paging = s.paging;
    }

    abbrev greeting : Text
    greeting = codes "connected to " ++ c.addr

    abbrev using_line : Text
    using_line = codes "using database `" ++ s.name ++ codes "`"

    abbrev table_text : Text
    table_text = codes "\n" ++ s.table ++ codes "\n"

    -- What the example prints.
    abbrev pub session_lines : List Text
    session_lines = greeting ∷ using_line ∷ table_text ∷ map (λ u. user_line u) s.users

    -- The rest of the session behind the rows, the tables, the choice and the listing.
    abbrev with_rows : Rows → Program CborError (Unit {0})
    with_rows r = do print_table cbor debug (display_rows r); print_rows cbor debug r.schema r.rows

    abbrev query_users : Program CborError (Unit {0})
    query_users = do r ← on_client (Client.query_rows cbor debug select_users); with_rows r

    abbrev with_tables : List Text → Program CborError (Unit {0})
    with_tables tables = do populate cbor debug (any_users tables); query_users

    abbrev with_database : Text → Program CborError (Unit {0})
    with_database name = do
      print (codes "using database `" ++ name ++ codes "`")
      tables ← on_client (Client.tables cbor debug)
      with_tables tables

    abbrev with_listing : List Text → Program CborError (Unit {0})
    with_listing existing = do
      create_missing cbor debug existing (first_or_demo existing)
      on_client (Client.use_database cbor debug (first_or_demo existing))
      with_database (first_or_demo existing)

    lists : Client.databases cbor debug c ≡ (ok (s.name ∷ s.others), listed_at)
    lists =
        run-meaning cbor debug Operation.databases c (Protocol.system_msg s.listing) tt
          s.first_reply
        ∙ ap (λ (names : List Text). (ok names, listed_at)) s.listed

    chooses : Client.use_database cbor debug s.name listed_at ≡ (ok tt, chosen_at)
    chooses =
        run-meaning cbor debug (Operation.use_database s.name) listed_at s.chosen s.named
          s.second_reply
        ∙ ap
            (λ (o : Option (Error CborError)). (
              unless_refused cbor debug o (ok tt),
              settle cbor debug (Operation.use_database s.name) o
                  (received cbor debug listed_at s.second_reply),
            ))
            s.accepts

    finds :
        Client.tables cbor debug chosen_at ≡ (ok (parse_list s.third (codes "Tables:")), tables_at)
    finds =
        run-meaning cbor debug Operation.tables chosen_at (Protocol.system_msg s.third) tt
          s.third_reply

    reads : Client.query_rows cbor debug select_users tables_at ≡ (ok rows, finished)
    unfolding outcome_of into_outcome into_rows Rows.new
    reads =
        run-meaning cbor debug (Operation.query select_users) tables_at
          (Protocol.query_result (Protocol.select s.schema s.tuples s.paging))
          (select_users-Passes cbor debug c.statement_guard) s.fourth_reply

    -- The example comes to its end when the server lists a database, accepts its choice, lists a
    -- table `users` and answers the query with its rows: it has greeted, named its database, printed
    -- the table and a line for each user, in order, and sent four requests.
    pub session-completes :
        session cbor debug (record { client = c; printed = [] })
        ≡ (returns (ok tt), record { client = finished; printed = session_lines })
    unfolding session create_missing populate Client.server_addr Rows.new
    session-completes =
        asked (Client.databases cbor debug) with_listing
          (record { client = c; printed = greeting ∷ [] }) _ _ lists
        ∙ asked (Client.use_database cbor debug s.name) (λ _. with_database s.name)
            (record { client = listed_at; printed = greeting ∷ [] }) _ _ chooses
        ∙ asked (Client.tables cbor debug) with_tables
            (record { client = chosen_at; printed = greeting ∷ using_line ∷ [] }) _ _ finds
        ∙ ap
            (λ (found : Bool).
              (populate cbor debug found >>= λ _. query_users)
                (record { client = tables_at; printed = greeting ∷ using_line ∷ [] }))
            s.has_users
        ∙ asked (Client.query_rows cbor debug select_users) with_rows
            (record { client = tables_at; printed = greeting ∷ using_line ∷ [] }) _ _ reads
        ∙ ap
            (λ (text : Run Text).
              (print_table cbor debug text >>= λ _. print_rows cbor debug rows.schema rows.rows)
                (record { client = finished; printed = greeting ∷ using_line ∷ [] }))
            s.shown
        ∙ ap
            (λ (values : List (List Value)).
              print_rows cbor debug s.schema values
                (record { client = finished; printed = greeting ∷ using_line ∷ table_text ∷ [] }))
            s.hold
        ∙ print_rows-lines cbor debug s.schema s.users
            (record { client = finished; printed = greeting ∷ using_line ∷ table_text ∷ [] })
