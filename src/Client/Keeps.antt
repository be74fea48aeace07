-- ===== src/Client/Keeps.antt =====
-- The guard and the wire, for each operation of src/client.rs.
use fing.Base.{List, [], ◌∷◌, true, Option, none, some, ◌≡◌, ◌≢◌, refl, ap, All}
use fing.Base.Text.{Text, Bytes, codes}
use fing.Error.{Result, ok, err, ◌>>=◌}
use fing.Protocol
use fing.Protocol.{
  SystemCommand, DbCommand, Command, CommandWithArgs, system_command, db_command, Response,
}
use fing.Sql.{StatementKind, inspect}
use fing.Codec.{Cbor}
use fing.Codec.Requests.{IsEncoding, round_trip-All}
use fing.Client
use fing.Client.Names.{require_name, parse_list, parse_imported}
use fing.Client.{
  Client, Session, give, proceed, bind, check, set_database, round_trip, system, db, guarded,
  outcome_of,
}

-- The command is no SQL statement, or one statement that the guard lets through.
pub data IsAllowed (C : Type 0) : CommandWithArgs → Type 0 where
  control :
      {command : CommandWithArgs}
      → command.command ≢ Protocol.db Protocol.execute_sql
      → IsAllowed C command
  statement :
      {command : CommandWithArgs} (sql : Text) (k : StatementKind)
      → command ≡ db_command Protocol.execute_sql (sql ∷ [])
      → inspect {C = C} sql ≡ ok k
      → IsAllowed C command

module _ (cbor : Cbor) (debug : Response → Text) where
  open cbor use {CborError}

  -- What may stand on the wire: the encoding, of at most 1024 bytes, of an allowed command, or
  -- the beginning of one.
  pub record IsRequest (chunk : Bytes) : Type 0 where
    pub command : CommandWithArgs
    pub encoding : IsEncoding cbor command chunk
    pub allowed : IsAllowed CborError command

  -- The guard is on, and nothing else is on the wire.
  pub record IsGuarded (c : Client) : Type 0 where
    pub guard_on : c.statement_guard ≡ true
    pub requests : All IsRequest c.stream.sent

  -- An action keeps that, whatever client it begins with.
  pub record Keeps {A : Type 0} (m : Session CborError A) : Type 0 where
    pub at : (c : Client) → IsGuarded c → IsGuarded (m c).1

  Keeps-give : {A : Type 0} (r : Result CborError A) → Keeps (give r)
  Keeps-give r = record { at = λ c g. g }

  Keeps-proceed :
      {A B : Type 0} (r : Result CborError A) (f : A → Session CborError B)
      → ((a : A) → r ≡ ok a → Keeps (f a))
      → Keeps (proceed r f)
  Keeps-proceed (ok a) f k = k a refl
  Keeps-proceed (err e) f k = record { at = λ c g. g }

  Keeps-bind :
      {A B : Type 0} (m : Session CborError A) (f : A → Session CborError B)
      → Keeps m
      → ((a : A) → Keeps (f a))
      → Keeps (bind m f)
  Keeps-bind m f km kf = record {
    at = λ c g. (Keeps-proceed (m c).0 f (λ a _. kf a)).at (m c).1 (km.at c g);
  }

  Keeps-set_database : (name : Option Text) → Keeps (set_database cbor debug name)
  Keeps-set_database name = record {
    at = λ c g. record { guard_on = g.guard_on; requests = g.requests };
  }

  Keeps-round_trip :
      (command : CommandWithArgs)
      → IsAllowed CborError command
      → Keeps (round_trip cbor debug command)
  unfolding round_trip
  Keeps-round_trip command a = record {
    at = λ c g. record {
      guard_on = g.guard_on;
      requests =
          round_trip-All cbor IsRequest command c.stream
            (λ chunk e. record { command = command; encoding = e; allowed = a }) g.requests;
    };
  }

  Keeps-system :
      (command : SystemCommand) (args : List Text) → Keeps (system cbor debug command args)
  unfolding system system_command
  Keeps-system command args =
      Keeps-bind _ _ (Keeps-round_trip _ (control (λ e. cc))) (λ r. Keeps-give (check r))

  Keeps-db :
      (command : DbCommand) (args : List Text)
      → IsAllowed CborError (db_command command args)
      → Keeps (db cbor debug command args)
  unfolding db
  Keeps-db command args a = Keeps-bind _ _ (Keeps-round_trip _ a) (λ r. Keeps-give (check r))

  guarded-ok :
      (sql : Text) (r : Result CborError StatementKind)
      → inspect sql ≡ r
      → guarded cbor debug true sql ≡ ok tt
      → (k : StatementKind) × (inspect {C = CborError} sql ≡ ok k)
  guarded-ok sql (ok k) e h = (k, e)
  guarded-ok sql (err x) e h = cc (ap (λ (r : Result CborError StatementKind). r >>= λ _. ok tt) e)

  -- The statement that is sent has passed the guard.
  pub Keeps-execute : (sql : Text) → Keeps (Client.execute cbor debug sql)
  unfolding Client.execute
  Keeps-execute sql = record {
    at = λ c g.
        (Keeps-proceed (guarded cbor debug c.statement_guard sql) _ (λ a e.
            let (k, passed) = guarded-ok sql (inspect sql) refl (rw g.guard_on at e) in
            Keeps-bind _ _ (Keeps-db Protocol.execute_sql (sql ∷ []) (statement sql k refl passed))
              (λ r. Keeps-give (outcome_of cbor debug r)))).at
          c g;
  }

  db_command-IsAllowed :
      (command : DbCommand) (args : List Text)
      → Protocol.db command ≢ Protocol.db Protocol.execute_sql
      → IsAllowed CborError (db_command command args)
  unfolding db_command
  db_command-IsAllowed command args ne = control ne

  Keeps-message :
      {A : Type 0} (r : Response) (f : Text → Result CborError A)
      → Keeps (bind (give (Client.expect_message cbor debug r)) λ m. give (f m))
  Keeps-message r f =
      Keeps-bind (give (Client.expect_message cbor debug r)) (λ m. give (f m)) (Keeps-give _)
        (λ m. Keeps-give (f m))

  Keeps-named :
      {A : Type 0} (name what : Text) (f : Text → Session CborError A)
      → ((n : Text) → Keeps (f n))
      → Keeps (bind (give (require_name name what)) f)
  Keeps-named name what f k = Keeps-bind (give (require_name name what)) f (Keeps-give _) k

  pub Keeps-create_database : (name : Text) → Keeps (Client.create_database cbor debug name)
  unfolding Client.create_database
  Keeps-create_database name =
      Keeps-named name (codes "database name") _
        λ n. Keeps-bind _ _ (Keeps-system Protocol.create (n ∷ [])) λ _. Keeps-give (ok tt)

  pub Keeps-use_database : (name : Text) → Keeps (Client.use_database cbor debug name)
  unfolding Client.use_database
  Keeps-use_database name =
      Keeps-named name (codes "database name") _ λ n.
        Keeps-bind _ _ (Keeps-system Protocol.connect (n ∷ [])) λ _. Keeps-set_database (some n)

  pub Keeps-databases : Keeps (Client.databases cbor debug)
  unfolding Client.databases
  Keeps-databases =
      Keeps-bind _ _ (Keeps-system Protocol.show_databases [])
        λ r. Keeps-message r λ m. ok (parse_list m (codes "Databases:"))

  pub Keeps-tables : Keeps (Client.tables cbor debug)
  unfolding Client.tables
  Keeps-tables =
      Keeps-bind _ _
        (Keeps-db Protocol.show_tables [] (db_command-IsAllowed Protocol.show_tables [] (λ e. cc)))
        λ r. Keeps-message r λ m. ok (parse_list m (codes "Tables:"))

  pub Keeps-import_csv : (path table : Text) → Keeps (Client.import_csv cbor debug path table)
  unfolding Client.import_csv
  Keeps-import_csv path table = Keeps-named path (codes "path") _ λ p.
      Keeps-named table (codes "table name") _ λ t.
        Keeps-bind _ _
          (Keeps-db Protocol.import (p ∷ t ∷ []) (db_command-IsAllowed Protocol.import _ (λ e. cc)))
          λ r. Keeps-message r parse_imported

  pub Keeps-commit : Keeps (Client.commit cbor debug)
  unfolding Client.commit
  Keeps-commit =
      Keeps-bind _ _
        (Keeps-db Protocol.commit [] (db_command-IsAllowed Protocol.commit [] (λ e. cc)))
        λ _. Keeps-give (ok tt)

  pub Keeps-query_rows : (sql : Text) → Keeps (Client.query_rows cbor debug sql)
  unfolding Client.query_rows
  Keeps-query_rows sql = Keeps-bind _ _ (Keeps-execute sql) λ o. Keeps-give _

  pub Keeps-help : Keeps (Client.help cbor debug)
  unfolding Client.help
  Keeps-help = Keeps-bind _ _ (Keeps-system Protocol.help []) λ r. Keeps-give _

  pub Keeps-reset_server : Keeps (Client.reset_server cbor debug)
  unfolding Client.reset_server
  Keeps-reset_server = Keeps-bind _ _ (Keeps-system Protocol.reset []) λ _. Keeps-set_database none
