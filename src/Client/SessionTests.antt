-- ===== src/Client/SessionTests.antt =====
-- Sessions of src/client.rs at concrete inputs, from `connect` on.
use fing.Base.{List, [], ◌∷◌, ◌++◌, true, false, none, some, ◌≡◌, ◌↔◌, refl, arith, All, length}
use fing.Base.Text.{Text, codes, split_whitespace, trim, is_whitespace}
use fing.Base.Decimal.{to_string, parse_usize}
use fing.Error.{unexpected_eof, from_io, ok, err}
use fing.Protocol.{Response, system_msg, system_command}
use fing.Client.Exchanges.{request_of, IsName, run, meaning, settle, Arrived, received}
use fing.Client.Operations.{run-meaning}
use fing.Codec.Frames.{framed}
use fing.Codec.Transport.{Stream}
use fing.Codec.Toy.{toy}
use fing.Client
use fing.Client.{Client}
use fing.Client.Names.{parse_imported}
use fing.Client.Imported.{IsNoNumber, parse_imported-first}
use fing.Client.Keeps.{IsGuarded}
use fing.Client.Wire.{Operation, after_all}
use fing.Client.Frame.{Framed, after_all-Framed}
use fing.Client.Spec.{view, spec_run, outcomes, after_all-refines}
use fing.Client.Connect.{ClientBuilder, Network, done, builder, invalid_input, connect}
use fing.Client.Connects.{Connects, connect_iff}
use fing.Client.Opened.{Ensures, IsConnected}
use fing.Client.Connected.{trimmed, connect-IsConnected}
use fing.Client.Sessions.{OpensFresh, session-IsGuarded}

abbrev debug : Response → Text
debug r = codes "?"

abbrev fresh : Stream
fresh = record {
  incoming = framed (codes "Connected") ++ framed (codes "Databases: mydb");
  ending = unexpected_eof;
  sent = [];
  broken = none;
  nodelay = false;
  read_timeout = none;
  write_timeout = none;
}

abbrev server : Network
server = record {
  resolve = λ name. done (codes "127.0.0.1:3333" ∷ codes "[::1]:3333" ∷ []);
  open_stream = λ a. done fresh;
  open_within = λ a t. done fresh;
  set_nodelay = λ s. done tt;
}

abbrev chosen : ClientBuilder
chosen = record builder { database = some (codes " mydb "); read_timeout = some 5000 }

abbrev client : Client
client = record {
  stream = fresh;
  addr = codes "127.0.0.1:3333";
  database = some (codes "old");
  statement_guard = true;
}

abbrev operations : List Operation
operations =
    Operation.use_database (codes " mydb ") ∷ Operation.databases ∷ Operation.reset_server ∷ []

-- The server answers the first two requests and closes the connection.
outcomes_tests :
    (outcomes toy debug operations client ≡ true ∷ true ∷ false ∷ [])
    × (spec_run operations (true ∷ true ∷ false ∷ []) (view client)
        ≡ record { chosen = some (codes "mydb"); guard = true })
unfolding Client.use_database Client.databases Client.reset_server fing.Client.Names.require_name
    fing.Base.Text.trim fing.Base.Text.is_whitespace fing.Codec.write_request
    Client.Protocol.system_command fing.Codec.Transport.write_all fing.Codec.read_response
    fing.Codec.Transport.read_exact framed fing.Codec.BigEndian.to_be_bytes
    fing.Codec.BigEndian.from_be_bytes Client.check Client.expect_message
outcomes_tests = (refl, refl)

after_all-refines_example :
    view (after_all toy debug operations client)
    ≡ spec_run operations (outcomes toy debug operations client) (view client)
after_all-refines_example = after_all-refines toy debug operations client

after_all-Framed_example : Framed (length operations) client (after_all toy debug operations client)
after_all-Framed_example = after_all-Framed toy debug operations client

connect-IsConnected_example :
    Ensures
      (IsConnected server chosen (codes "localhost:3333") (trimmed chosen.database) 1)
      (connect toy debug server chosen (codes "localhost:3333"))
connect-IsConnected_example = connect-IsConnected toy debug server chosen (codes "localhost:3333")

server-OpensFresh : OpensFresh toy debug server
server-OpensFresh = record { plain = λ a s e. cc; within = λ a t s e. cc }

session-IsGuarded_example :
    Ensures
      (λ c. (ops : List Operation) → IsGuarded toy debug (after_all toy debug ops c))
      (connect toy debug server chosen (codes "localhost:3333"))
session-IsGuarded_example =
    session-IsGuarded toy debug server chosen (codes "localhost:3333") server-OpensFresh (λ e. cc)

IsNoNumber-before : All IsNoNumber (split_whitespace (codes "Successfully imported"))
unfolding parse_usize split_whitespace
IsNoNumber-before = (refl, (refl, tt))

parse_imported-first_example :
    parse_imported {C = Unit {0}}
      (codes "Successfully imported" ++ (b' ' ∷ (to_string 12 ++ (b' ' ∷ codes "rows"))))
    ≡ ok 12
parse_imported-first_example =
    parse_imported-first (codes "Successfully imported") (codes "rows") 12 (omega arith)
      IsNoNumber-before

mydb-IsName : IsName (codes " mydb ")
unfolding trim is_whitespace
mydb-IsName = refl

accepted :
    Arrived toy debug
      (request_of (Operation.use_database (codes " mydb ")))
      client
      (system_msg (codes "Connected"))
unfolding trim is_whitespace system_command
accepted = record {
  request = codes "mydb";
  encodes = refl;
  request_fits = omega arith;
  writable = refl;
  body = codes "Connected";
  rest = framed (codes "Databases: mydb");
  arrives = refl;
  not_empty = omega arith;
  body_fits = omega arith;
  decodes = refl;
}

run-meaning_example : run toy debug (Operation.use_database (codes " mydb ")) client ≡ (
  meaning toy debug (Operation.use_database (codes " mydb ")) (system_msg (codes "Connected")),
  settle toy debug
      (Operation.use_database (codes " mydb "))
      none
      (received toy debug client accepted),
)
run-meaning_example =
    run-meaning toy debug (Operation.use_database (codes " mydb ")) client
      (system_msg (codes "Connected")) mydb-IsName accepted

abbrev hurried : ClientBuilder
hurried = record builder { read_timeout = some 0 }

-- A timeout of zero is refused.
connect_iff_example :
    (connect toy debug server hurried (codes "localhost:3333") ≡ err (from_io invalid_input))
    ↔ Connects toy debug server hurried (codes "localhost:3333") (err (from_io invalid_input))
connect_iff_example =
    connect_iff toy debug server hurried (codes "localhost:3333") (err (from_io invalid_input))
