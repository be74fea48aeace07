-- ===== src/Client/Exchanges.antt =====
-- The operations of src/client.rs, and what a response that has arrived means to each.
use fing.Base.{
  ℕ, ◌≤◌, ◌<◌, List, [], ◌∷◌, ◌++◌, true, false, Bool-cases, inl, inr, Option, none, some, ◌≡◌,
  refl, ap, ◌∙◌, length, is_nil, if◌then◌else◌,
}
use fing.Base.Text.{Text, Bytes, codes, trim, contains}
use fing.Error.{
  Error, server, query, not_connected, unexpected_response, server_shutdown, Result, ok, err, ◌>>=◌,
}
use fing.Protocol
use fing.Protocol.{SystemCommand, DbCommand, CommandWithArgs, system_command, db_command, Response}
use fing.Rows.{Rows}
use fing.Codec.{coded, Cbor, max_request_bytes, max_response_bytes}
use fing.Codec.Transport.{Stream}
use fing.Codec.Frames.{framed, read_response-framed}
use fing.Codec.Requests.{round_trip-sends}
use fing.Client
use fing.Client.{
  Client, Session, SocketAddr, give, proceed, bind, check, round_trip, system, db, guarded,
  outcome_of, expect_message, unexpected, set_database,
}
use fing.Client.Outcomes.{Outcome, into_rows}
use fing.Client.Names.{require_name, parse_list, parse_imported}
use fing.Client.Wire.{
  Operation, create_database, use_database, databases, tables, execute, query, import_csv, commit,
  help, reset_server,
}
use fing.Client.Queries.{Passes}

-- The request of an operation.
abbrev pub request_of : Operation → CommandWithArgs
request_of (create_database name) = system_command Protocol.create (trim name ∷ [])
request_of (use_database name) = system_command Protocol.connect (trim name ∷ [])
request_of databases = system_command Protocol.show_databases []
request_of tables = db_command Protocol.show_tables []
request_of (execute sql) = db_command Protocol.execute_sql (sql ∷ [])
request_of (query sql) = db_command Protocol.execute_sql (sql ∷ [])
request_of (import_csv path table) = db_command Protocol.import (trim path ∷ trim table ∷ [])
request_of commit = db_command Protocol.commit []
request_of help = system_command Protocol.help []
request_of reset_server = system_command Protocol.reset []

-- What an operation returns.
abbrev pub Answer : Operation → Type 0
Answer databases = List Text
Answer tables = List Text
Answer (execute sql) = Outcome
Answer (query sql) = Rows
Answer (import_csv path table) = ℕ
Answer help = Text
Answer op = Unit

-- The text that a response carries for its reader.
abbrev pub told : Response → Option Text
told (Protocol.system_msg text) = some text
told (Protocol.query_result (Protocol.message_only text)) = some text
told _ = none

abbrev pub IsName : Text → Type 0
IsName name = is_nil (trim name) ≡ false

module _ (cbor : Cbor) (debug : Response → Text) where
  open cbor use {CborError, to_vec, from_slice}

  abbrev pub run : (op : Operation) → Session CborError (Answer op)
  run (create_database name) = Client.create_database cbor debug name
  run (use_database name) = Client.use_database cbor debug name
  run databases = Client.databases cbor debug
  run tables = Client.tables cbor debug
  run (execute sql) = Client.execute cbor debug sql
  run (query sql) = Client.query_rows cbor debug sql
  run (import_csv path table) = Client.import_csv cbor debug path table
  run commit = Client.commit cbor debug
  run help = Client.help cbor debug
  run reset_server = Client.reset_server cbor debug

  -- What has to hold before a request is sent.
  abbrev pub IsReady : Operation → Client → Type 0
  IsReady (create_database name) c = IsName name
  IsReady (use_database name) c = IsName name
  IsReady (execute sql) c = Passes cbor debug c.statement_guard sql
  IsReady (query sql) c = Passes cbor debug c.statement_guard sql
  IsReady (import_csv path table) c = IsName path × IsName table
  IsReady op c = Unit

  -- The error that a response carries.
  abbrev pub refusal : Response → Option (Error CborError)
  refusal (Protocol.system_err text) =
      some
        (if contains text (codes "Not connected to a database") then not_connected else server text)
  refusal (Protocol.query_execution_error text) = some (Error.query text)
  refusal Protocol.quiet_err = some (server (codes "server reported an error"))
  refusal (Protocol.shutdown false) = some server_shutdown
  refusal _ = none

  abbrev pub unless_refused :
      {A : Type 0} → Option (Error CborError) → Result CborError A → Result CborError A
  unless_refused (some e) r = err e
  unless_refused none r = r

  abbrev pub read_text :
      {A : Type 0} → Response → (Text → Result CborError A) → Option Text → Result CborError A
  read_text r f (some text) = f text
  read_text r f none = err (unexpected_response (debug r))

  -- What a response means to an operation.
  abbrev pub meaning : (op : Operation) → Response → Result CborError (Answer op)
  meaning databases r =
      unless_refused (refusal r)
        (read_text r (λ m. ok (parse_list m (codes "Databases:"))) (told r))
  meaning tables r =
      unless_refused (refusal r) (read_text r (λ m. ok (parse_list m (codes "Tables:"))) (told r))
  meaning (execute sql) r = unless_refused (refusal r) (outcome_of cbor debug r)
  meaning (query sql) r = unless_refused (refusal r) (outcome_of cbor debug r >>= into_rows)
  meaning (import_csv path table) r =
      unless_refused (refusal r) (read_text r parse_imported (told r))
  meaning help r = unless_refused (refusal r) (read_text r ok (told r))
  meaning (create_database name) r = unless_refused (refusal r) (ok tt)
  meaning (use_database name) r = unless_refused (refusal r) (ok tt)
  meaning commit r = unless_refused (refusal r) (ok tt)
  meaning reset_server r = unless_refused (refusal r) (ok tt)

  -- What an operation that is not refused changes of the client.
  abbrev pub settle : Operation → Option (Error CborError) → Client → Client
  settle (use_database name) none c = record c { database = some (trim name) }
  settle reset_server none c = record c { database = none }
  settle op refused c = c

  -- The server has the whole of a request, and its answer to it stands at the front of the stream.
  pub record Arrived (command : CommandWithArgs) (c : Client) (r : Response) : Type 0 where
    pub request : Bytes
    pub encodes : to_vec command ≡ coded request
    pub request_fits : length request ≤ max_request_bytes
    pub writable : c.stream.broken ≡ none
    pub body : Bytes
    pub rest : Bytes
    pub arrives : c.stream.incoming ≡ framed body ++ rest
    pub not_empty : 0 < length body
    pub body_fits : length body ≤ max_response_bytes
    pub decodes : from_slice body ≡ coded r

  -- The client behind that: one request sent, one frame read.
  abbrev pub received :
      {command : CommandWithArgs} {r : Response} (c : Client) → Arrived command c r → Client
  received c x = record c {
    stream = record (c.stream) { incoming = x.rest; sent = c.stream.sent ++ (x.request ∷ []) };
  }

  pub round_trip-Arrived :
      (command : CommandWithArgs) (c : Client) (r : Response) (x : Arrived command c r)
      → round_trip cbor debug command c ≡ (ok r, received c x)
  unfolding round_trip
  round_trip-Arrived command c r x =
      ap (λ (p : Result CborError Response × Stream). (p.0, record c { stream = p.1 }))
        (round_trip-sends cbor command x.request c.stream x.encodes x.request_fits x.writable
          ∙ read_response-framed cbor x.body x.rest
              (record (c.stream) { sent = c.stream.sent ++ (x.request ∷ []) }) x.not_empty
              x.body_fits x.arrives
          ∙ rw x.decodes)

  pub check-refusal : (r : Response) → check r ≡ unless_refused (refusal r) (ok r)
  unfolding check
  check-refusal (Protocol.system_err text) =
      elim (Bool-cases (contains text (codes "Not connected to a database"))) [
        | inl named ↦ rw named refl
        | inr not_named ↦ rw not_named refl
      ]
  check-refusal (Protocol.shutdown true) = refl
  check-refusal (Protocol.shutdown false) = refl
  check-refusal Protocol.ok = refl
  check-refusal (Protocol.system_msg text) = refl
  check-refusal (Protocol.query_result result) = refl
  check-refusal (Protocol.query_execution_error text) = refl
  check-refusal Protocol.quiet_ok = refl
  check-refusal Protocol.quiet_err = refl

  pub require_name-ok :
      (name what : Text) → IsName name → require_name {C = CborError} name what ≡ ok (trim name)
  unfolding require_name
  require_name-ok name what h = rw h refl

  pub expect_message-told : (r : Response) → expect_message cbor debug r ≡ read_text r ok (told r)
  unfolding expect_message unexpected
  expect_message-told (Protocol.query_result (Protocol.message_only text)) = refl
  expect_message-told (Protocol.query_result (Protocol.select schema tuples paging)) = refl
  expect_message-told (Protocol.query_result (Protocol.insert count table)) = refl
  expect_message-told Protocol.ok = refl
  expect_message-told (Protocol.system_msg text) = refl
  expect_message-told (Protocol.system_err text) = refl
  expect_message-told (Protocol.query_execution_error text) = refl
  expect_message-told (Protocol.shutdown b) = refl
  expect_message-told Protocol.quiet_ok = refl
  expect_message-told Protocol.quiet_err = refl
