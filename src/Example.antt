-- ===== src/Example.antt =====
-- examples/basic.rs: a session from the address on the command line to the rows of a table. It
-- returns its result, and what it has printed and sent before that, or before a panic.

pub mod Guarded
pub mod Printed
pub mod Completes
mod Tests
use fing.Base.{
  ℕ, List, [], ◌∷◌, ◌++◌, Bool, true, false, Option, none, some, is_nil, eq_list, ◌||◌,
  if◌then◌else◌,
}
use fing.Base.Int.{ℤ}
use fing.Base.Text.{Text, codes}
use fing.Base.Decimal.{to_string_ℤ}
use fing.Error.{Error, Result, ok, err, Run, returns, panics}
use fing.Protocol.{Response}
use fing.Schema.{Schema}
use fing.Value.{Value}
use fing.Convert.{FromValue, i64, int_from_value, str_from_value}
use fing.Rows.{Rows, Row, ColumnIndex, by_name}
use fing.Rows
use fing.Rows.Display.{display_rows}
use fing.Codec.{Cbor}
use fing.Client
use fing.Client.{Client, Session, SocketAddr, server_addr}
use fing.Client.Connect.{Network, connect_default}

-- The client, and the lines that were printed.
pub record World : Type 0 where
  pub client : Client
  pub printed : List Text

-- `main` from a point on: it may end early with an error, or panic.
abbrev pub Program : Type 0 → Type 0 → Type 0
Program C A = World → Run (Result C A) × World

module _ {C : Type 0} where
  abbrev pub finish : {A : Type 0} → Run (Result C A) → Program C A
  finish r w = (r, w)

  abbrev pub go_on : {A B : Type 0} → Run (Result C A) → (A → Program C B) → Program C B
  go_on (returns (ok a)) f w = f a w
  go_on (returns (err e)) f w = (returns (err e), w)
  go_on panics f w = (panics, w)

  infixl 5 ◌>>=◌ ◌>>◌
  abbrev pub ◌>>=◌ : {A B : Type 0} → Program C A → (A → Program C B) → Program C B
  (m >>= f) w = go_on (m w).0 f (m w).1

  abbrev pub ◌>>◌ : {A B : Type 0} → Program C A → Program C B → Program C B
  m >> n = m >>= λ _. n

  -- An operation of the client, with `?`.
  abbrev pub on_client : {A : Type 0} → Session C A → Program C A
  on_client m w = let (r, c) = m w.client in (returns r, record w { client = c })

  abbrev pub print : Text → Program C (Unit {0})
  print text w = (returns (ok tt), record w { printed = w.printed ++ (text ∷ []) })

-- `unwrap_or_else(|| "127.0.0.1:3333".into())`
abbrev pub address : Option Text → Text
address none = codes "127.0.0.1:3333"
address (some addr) = addr

-- `existing.first().cloned().unwrap_or_else(|| "demo".into())`
abbrev pub first_or_demo : List Text → Text
first_or_demo [] = codes "demo"
first_or_demo (name ∷ _) = name

-- `iter().any(|table| table == "users")`
unfoldable pub any_users : List Text → Bool
unfolding eq_list
any_users [] = false
any_users (table ∷ tables) = eq_list table (codes "users") || any_users tables

abbrev pub create_users : Text
create_users = codes "CREATE TABLE users (id INTEGER PRIMARY KEY, name VARCHAR(255))"

abbrev pub insert_alice : Text
insert_alice = codes "INSERT INTO users VALUES (1, 'alice')"

abbrev pub insert_ziad : Text
insert_ziad = codes "INSERT INTO users VALUES (2, 'Ziad')"

abbrev pub select_users : Text
select_users = codes "SELECT * FROM users"

module _ (cbor : Cbor) (debug : Response → Text) where
  open cbor use {CborError}

  -- `if existing.is_empty()`
  unfoldable pub create_missing : List Text → Text → Program CborError (Unit {0})
  create_missing [] database = on_client (Client.create_database cbor debug database)
  create_missing (_ ∷ _) database = finish (returns (ok tt))

  unfoldable pub populate : Bool → Program CborError (Unit {0})
  populate true = finish (returns (ok tt))
  populate false = do
    on_client (Client.execute cbor debug create_users)
    on_client (Client.execute cbor debug insert_alice)
    on_client (Client.execute cbor debug insert_ziad)
    print (codes "created and populated `users`")

  -- The body of the loop over the rows.
  unfoldable pub print_row : Row → Program CborError (Unit {0})
  print_row row = do
    id ← finish (Rows.get (int_from_value i64) row (by_name (codes "id")))
    name ← finish (Rows.get str_from_value row (by_name (codes "name")))
    print (to_string_ℤ id ++ codes ": " ++ name)

  unfoldable pub print_rows : Schema → List (List Value) → Program CborError (Unit {0})
  print_rows schema [] = finish (returns (ok tt))
  print_rows schema (values ∷ rest) = do
    print_row (record { schema = schema; values = values })
    print_rows schema rest

  -- `db.server_addr()`
  abbrev addressed : Program CborError SocketAddr
  addressed w = (returns (ok (server_addr w.client)), w)

  -- `println!("\n{rows}\n")`
  abbrev pub print_table : Run Text → Program CborError (Unit {0})
  print_table panics = finish panics
  print_table (returns table) = print (codes "\n" ++ table ++ codes "\n")

  unfoldable pub session : Program CborError (Unit {0})
  session = do
    peer ← addressed
    print (codes "connected to " ++ peer)
    existing ← on_client (Client.databases cbor debug)
    create_missing existing (first_or_demo existing)
    on_client (Client.use_database cbor debug (first_or_demo existing))
    print (codes "using database `" ++ first_or_demo existing ++ codes "`")
    tables ← on_client (Client.tables cbor debug)
    populate (any_users tables)
    rows ← on_client (Client.query_rows cbor debug select_users)
    print_table (display_rows rows)
    print_rows rows.schema rows.rows

  -- Without a connection there is no session.
  abbrev pub begin : Result CborError Client → Run (Result CborError (Unit {0})) × Option World
  begin (err e) = (returns (err e), none)
  begin (ok c) = let (r, w) = session (record { client = c; printed = [] }) in (r, some w)

  unfoldable pub main : Network → Option Text → Run (Result CborError (Unit {0})) × Option World
  unfolding connect_default
  main net arg = begin (connect_default cbor debug net (address arg))
