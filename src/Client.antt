-- ===== src/Client.antt =====
-- src/client.rs: the connection. Its operations take the client and return it with their result.
-- `serde_cbor`, the derived `Debug` text of a response, and the network are parameters.
pub mod Outcomes
pub mod Names
pub mod Connect
pub mod Keeps
pub mod Wire
pub mod Rules
pub mod Frame
pub mod Selected
pub mod Spec
pub mod Opened
pub mod Connected
pub mod Establish
pub mod Connects
pub mod Sessions
pub mod Controls
pub mod Queries
pub mod Answers
pub mod Exchanges
pub mod Operations
pub mod Refused
pub mod Complete
pub mod Taken
pub mod Served
pub mod Late
pub mod Ends
pub mod Pipeline
pub mod Listing
pub mod Imported
mod SourceTests
mod FakeServer
mod ServerTests
mod Tests
mod SessionTests
mod CompleteTests
use fing.Base.{
  ℕ, List, [], ◌∷◌, ◌++◌, Bool, true, false, Option, none, some, is_nil, ◌==◌, if◌then◌else◌,
}
use fing.Base.Text.{Text, codes, trim, contains}
use fing.Error.{
  ErrorKind, Error, from_io, server, query, not_connected, unexpected_response, invalid_argument,
  server_shutdown, Result, ok, err, ◌>>=◌, Run,
}
use fing.Protocol
use fing.Protocol.{
  SystemCommand, DbCommand, CommandWithArgs, system_command, db_command, QueryResult, Response,
}
use fing.Rows.{Rows}
use fing.Sql.{inspect}
use fing.Codec.{Cbor, write_request, read_response}
use fing.Codec.Transport.{Stream, Io, pure, lift, continue}
use fing.Codec.Transport.{◌>>=◌ as io_bind}
use Outcomes.{Outcome, into_outcome, into_rows}
use Names.{require_name, parse_list, parse_imported}

-- `SocketAddr`, as its text.
abbrev pub SocketAddr : Type 0
SocketAddr = Text

pub record Client : Type 0 where
  pub stream : Stream
  pub addr : SocketAddr
  pub database : Option Text
  pub statement_guard : Bool

unfoldable pub server_addr : Client → SocketAddr
server_addr c = c.addr

-- `Client::database`
unfoldable pub selected_database : Client → Option Text
selected_database c = c.database

unfoldable pub set_statement_guard : Client → Bool → Client
set_statement_guard c enabled = record c { statement_guard = enabled }

-- The error-carrying responses become errors.
unfoldable pub check : {C : Type 0} → Response → Result C Response
check (Protocol.system_err message) =
    if contains message (codes "Not connected to a database")
    then err not_connected
    else err (server message)
check (Protocol.query_execution_error message) = err (query message)
check Protocol.quiet_err = err (server (codes "server reported an error"))
check (Protocol.shutdown false) = err server_shutdown
check other = ok other

-- Code on a client that may fail.
abbrev pub Session : Type 0 → Type 0 → Type 0
Session C A = Client → Result C A × Client

module _ {C : Type 0} where
  abbrev pub give : {A : Type 0} → Result C A → Session C A
  give r c = (r, c)

  abbrev pub proceed :
      {A B : Type 0} → Result C A → (A → Session C B) → Client → Result C B × Client
  proceed (ok a) f c = f a c
  proceed (err e) f c = (err e, c)

  abbrev pub bind : {A B : Type 0} → Session C A → (A → Session C B) → Session C B
  bind m f c = proceed (m c).0 f (m c).1

  -- What is done on the stream alone.
  abbrev pub on_stream : {A : Type 0} → Io C A → Session C A
  on_stream m c = let (r, s) = m c.stream in (r, record c { stream = s })

module _ (cbor : Cbor) (debug : Response → Text) where
  open cbor use {CborError}

  unfoldable pub unexpected : Response → Error CborError
  unexpected response = unexpected_response (debug response)

  unfoldable pub expect_message : Response → Result CborError Text
  unfolding unexpected
  expect_message (Protocol.system_msg message) = ok message
  expect_message (Protocol.query_result (Protocol.message_only message)) = ok message
  expect_message other = err (unexpected other)

  unfoldable pub round_trip : CommandWithArgs → Session CborError Response
  round_trip command = on_stream (io_bind (write_request cbor command) (λ _. read_response cbor))

  unfoldable pub system : SystemCommand → List Text → Session CborError Response
  unfolding round_trip
  system command args =
      bind (round_trip (system_command command args)) (λ response. give (check response))

  unfoldable pub db : DbCommand → List Text → Session CborError Response
  unfolding round_trip
  db command args = bind (round_trip (db_command command args)) (λ response. give (check response))

  abbrev done : Session CborError (Unit {0})
  done = give (ok tt)

  unfoldable pub create_database : Text → Session CborError (Unit {0})
  unfolding system
  create_database name =
      bind (give (require_name name (codes "database name")))
        λ name'. bind (system Protocol.create (name' ∷ [])) λ _. done

  abbrev set_database : Option Text → Session CborError (Unit {0})
  set_database name c = (ok tt, record c { database = name })

  unfoldable pub use_database : Text → Session CborError (Unit {0})
  unfolding system
  use_database name =
      bind (give (require_name name (codes "database name")))
        λ name'. bind (system Protocol.connect (name' ∷ [])) λ _. set_database (some name')

  unfoldable pub databases : Session CborError (List Text)
  unfolding system
  databases = bind (system Protocol.show_databases []) λ response.
      bind (give (expect_message response))
        λ message. give (ok (parse_list message (codes "Databases:")))

  unfoldable pub tables : Session CborError (List Text)
  unfolding db
  tables = bind (db Protocol.show_tables []) λ response.
      bind (give (expect_message response))
        λ message. give (ok (parse_list message (codes "Tables:")))

  -- What is checked before anything is sent.
  abbrev guarded : Bool → Text → Result CborError (Unit {0})
  guarded true sql = inspect sql >>= λ _. ok tt
  guarded false sql =
      if is_nil (trim sql) then err (invalid_argument (codes "statement is empty")) else ok tt

  -- The `match response` of `execute`.
  unfoldable pub outcome_of : Response → Result CborError Outcome
  unfolding unexpected
  outcome_of (Protocol.query_result result) = ok (into_outcome result)
  outcome_of (Protocol.system_msg text) = ok (Outcomes.message text)
  outcome_of Protocol.ok = ok (Outcomes.message [])
  outcome_of Protocol.quiet_ok = ok (Outcomes.message [])
  outcome_of other = err (unexpected other)

  unfoldable pub execute : Text → Session CborError Outcome
  execute sql c =
      bind (give (guarded c.statement_guard sql))
        (λ _. bind (db Protocol.execute_sql (sql ∷ [])) λ response. give (outcome_of response)) c

  unfoldable pub query_rows : Text → Session CborError Rows
  query_rows sql = bind (execute sql) λ outcome. give (into_rows outcome)

  unfoldable pub import_csv : Text → Text → Session CborError ℕ
  unfolding db
  import_csv server_path table = bind (give (require_name server_path (codes "path"))) λ path.
      bind (give (require_name table (codes "table name"))) λ table'.
        bind (db Protocol.import (path ∷ table' ∷ []))
          λ response. bind (give (expect_message response)) λ message. give (parse_imported message)

  unfoldable pub commit : Session CborError (Unit {0})
  unfolding db
  commit = bind (db Protocol.commit []) λ _. done

  unfoldable pub help : Session CborError Text
  unfolding system
  help = bind (system Protocol.help []) λ response. give (expect_message response)

  unfoldable pub reset_server : Session CborError (Unit {0})
  unfolding system
  reset_server = bind (system Protocol.reset []) λ _. set_database none

  -- The wake-up connection to `self.addr` has no effect on the result, which ignores its outcome.
  abbrev shut_down : Response → Result CborError (Unit {0})
  shut_down (Protocol.shutdown _) = ok tt
  shut_down Protocol.quiet_ok = ok tt
  shut_down other = err (unexpected other)

  unfoldable pub shutdown_server : Session CborError (Unit {0})
  unfolding round_trip
  shutdown_server =
      bind (round_trip (system_command Protocol.shutdown [])) λ response. give (shut_down response)

  unfoldable pub close : Session CborError (Unit {0})
  unfolding system
  close = bind (system Protocol.close_connection []) λ _. done
