-- ===== src/Client/Wire.antt =====
-- What a session of src/client.rs puts on the wire.
use fing.Base.{List, [], ◌∷◌}
use fing.Base.Text.{Text}
use fing.Protocol.{Response}
use fing.Codec.{Cbor}
use fing.Client
use fing.Client.{
  Client, Session, give, proceed, bind, check, set_database, round_trip, system, db, guarded,
  outcome_of,
}
use fing.Client.Keeps.{
  IsGuarded, Keeps-create_database, Keeps-use_database, Keeps-databases, Keeps-tables,
  Keeps-execute, Keeps-query_rows, Keeps-import_csv, Keeps-commit, Keeps-help, Keeps-reset_server,
}

-- The operations that a client can be asked for, but for `set_statement_guard`, the timeouts, and
-- the two that consume it.
pub data Operation : Type 0 where
  create_database : Text → Operation
  use_database : Text → Operation
  databases : Operation
  tables : Operation
  execute : Text → Operation
  query : Text → Operation
  import_csv : Text → Text → Operation
  commit : Operation
  help : Operation
  reset_server : Operation

module _ (cbor : Cbor) (debug : Response → Text) where
  open cbor use {CborError}

  -- The client after an operation; the result is dropped.
  abbrev pub after : Operation → Client → Client
  after (create_database name) c = (Client.create_database cbor debug name c).1
  after (use_database name) c = (Client.use_database cbor debug name c).1
  after databases c = (Client.databases cbor debug c).1
  after tables c = (Client.tables cbor debug c).1
  after (execute sql) c = (Client.execute cbor debug sql c).1
  after (query sql) c = (Client.query_rows cbor debug sql c).1
  after (import_csv path table) c = (Client.import_csv cbor debug path table c).1
  after commit c = (Client.commit cbor debug c).1
  after help c = (Client.help cbor debug c).1
  after reset_server c = (Client.reset_server cbor debug c).1

  abbrev pub after_all : List Operation → Client → Client
  after_all [] c = c
  after_all (op ∷ ops) c = after_all ops (after op c)

  pub after-IsGuarded :
      (op : Operation) (c : Client) → IsGuarded cbor debug c → IsGuarded cbor debug (after op c)
  after-IsGuarded (create_database name) = (Keeps-create_database cbor debug name).at
  after-IsGuarded (use_database name) = (Keeps-use_database cbor debug name).at
  after-IsGuarded databases = (Keeps-databases cbor debug).at
  after-IsGuarded tables = (Keeps-tables cbor debug).at
  after-IsGuarded (execute sql) = (Keeps-execute cbor debug sql).at
  after-IsGuarded (query sql) = (Keeps-query_rows cbor debug sql).at
  after-IsGuarded (import_csv path table) = (Keeps-import_csv cbor debug path table).at
  after-IsGuarded commit = (Keeps-commit cbor debug).at
  after-IsGuarded help = (Keeps-help cbor debug).at
  after-IsGuarded reset_server = (Keeps-reset_server cbor debug).at

  -- Whatever operations a client with the guard on performs, and whatever the server answers or
  -- the network breaks off, each chunk on the wire is the encoding of one command, of at most
  -- 1024 bytes, or the beginning of one; and if that command is an SQL statement, the guard has
  -- let it through.
  pub after_all-IsGuarded :
      (ops : List Operation) (c : Client)
      → IsGuarded cbor debug c
      → IsGuarded cbor debug (after_all ops c)
  after_all-IsGuarded [] c g = g
  after_all-IsGuarded (op ∷ ops) c g = after_all-IsGuarded ops (after op c) (after-IsGuarded op c g)
