-- ===== src/Client/Rules.antt =====
-- How a relation between a client and the client that comes of it is carried through each operation
-- of src/client.rs. It is graded by the number of requests.
use fing.Base.{ℕ, ◌+◌, List, [], ◌∷◌, none, some}
use fing.Base.Text.{Text, codes}
use fing.Error.{Result, ok, err}
use fing.Protocol
use fing.Protocol.{SystemCommand, DbCommand, CommandWithArgs, system_command, db_command, Response}
use fing.Codec.{Cbor}
use fing.Client
use fing.Client.{
  Client, Session, give, proceed, bind, check, set_database, round_trip, system, db, guarded,
  outcome_of, expect_message,
}
use fing.Client.Names.{require_name, parse_list, parse_imported}
use fing.Client.Wire.{
  Operation, create_database, use_database, databases, tables, execute, query, import_csv, commit,
  help, reset_server, after,
}

-- A relation with what its rules need: it holds of a client and itself, and of each step of the code
-- that sends.
pub record Carried (cbor : Cbor) (debug : Response → Text) : Type 1 where
  pub Rel : ℕ → Client → Client → Type 0
  pub same : (c : Client) → Rel 0 c c
  pub more : (n : ℕ) (c d : Client) → Rel 0 c d → Rel n c d
  pub join : (m n : ℕ) (b c d : Client) → Rel m b c → Rel n c d → Rel (m + n) b d
  pub request :
      (command : CommandWithArgs) (c : Client) → Rel 1 c (round_trip cbor debug command c).1

module _ (cbor : Cbor) (debug : Response → Text) (carried : Carried cbor debug) where
  open cbor use {CborError}
  open carried use {Rel, same, more, join, request}

  -- An action over which the relation holds, with at most `n` requests.
  record Sends (n : ℕ) {A : Type 0} (m : Session CborError A) : Type 0 where
    at : (c : Client) → Rel n c (m c).1

  Sends-give : {A : Type 0} (r : Result CborError A) → Sends 0 (give r)
  Sends-give r = record { at = same }

  Sends-more : {A : Type 0} (n : ℕ) (m : Session CborError A) → Sends 0 m → Sends n m
  Sends-more n m h = record { at = λ c. more n c (m c).1 (h.at c) }

  Sends-proceed :
      {A B : Type 0} (n : ℕ) (r : Result CborError A) (f : A → Session CborError B)
      → ((a : A) → Sends n (f a))
      → Sends n (proceed r f)
  Sends-proceed n (ok a) f h = h a
  Sends-proceed n (err e) f h = Sends-more n (proceed (err e) f) (Sends-give (err e))

  Sends-bind :
      {A B : Type 0} (n k : ℕ) (m : Session CborError A) (f : A → Session CborError B)
      → Sends n m
      → ((a : A) → Sends k (f a))
      → Sends (n + k) (bind m f)
  Sends-bind n k m f h g = record {
    at = λ c. join n k c (m c).1 _ (h.at c) ((Sends-proceed k (m c).0 f g).at (m c).1);
  }

  Sends-round_trip : (command : CommandWithArgs) → Sends 1 (round_trip cbor debug command)
  Sends-round_trip command = record { at = request command }

  Sends-system :
      (command : SystemCommand) (args : List Text) → Sends 1 (system cbor debug command args)
  unfolding system
  Sends-system command args =
      Sends-bind 1 0 _ _ (Sends-round_trip (system_command command args))
        (λ r. Sends-give (check r))

  Sends-db : (command : DbCommand) (args : List Text) → Sends 1 (db cbor debug command args)
  unfolding db
  Sends-db command args =
      Sends-bind 1 0 _ _ (Sends-round_trip (db_command command args)) (λ r. Sends-give (check r))

  pub system_related :
      (command : SystemCommand) (args : List Text) (c : Client)
      → Rel 1 c (system cbor debug command args c).1
  system_related command args = (Sends-system command args).at

  -- One request, and what becomes of its response.
  one_system :
      {A : Type 0} (command : SystemCommand) (args : List Text) (f : Response → Session CborError A)
      → ((r : Response) → Sends 0 (f r))
      → Sends 1 (bind (system cbor debug command args) f)
  one_system command args f h = Sends-bind 1 0 _ f (Sends-system command args) h

  one_db :
      {A : Type 0} (command : DbCommand) (args : List Text) (f : Response → Session CborError A)
      → ((r : Response) → Sends 0 (f r))
      → Sends 1 (bind (db cbor debug command args) f)
  one_db command args f h = Sends-bind 1 0 _ f (Sends-db command args) h

  -- A check before the request.
  checked :
      {A B : Type 0} (r : Result CborError A) (f : A → Session CborError B)
      → ((a : A) → Sends 1 (f a))
      → Sends 1 (bind (give r) f)
  checked r f h = Sends-bind 0 1 (give r) f (Sends-give r) h

  message_read :
      {A : Type 0} (r : Response) (f : Text → Result CborError A)
      → Sends 0 (bind (give (expect_message cbor debug r)) λ m. give (f m))
  message_read r f =
      Sends-bind 0 0 (give (expect_message cbor debug r)) _ (Sends-give _) (λ m. Sends-give (f m))

  Sends-execute : (sql : Text) → Sends 1 (Client.execute cbor debug sql)
  unfolding Client.execute
  Sends-execute sql = record {
    at = λ c.
        (checked (guarded cbor debug c.statement_guard sql) _ (λ _.
            one_db Protocol.execute_sql (sql ∷ []) _
              (λ r. Sends-give (outcome_of cbor debug r)))).at
          c;
  }

  -- The operations that record a database: they need the relation across that.
  abbrev pub Chooses : Operation → Type 0
  Chooses (use_database name) = (n : Text) (c : Client) → Rel 0 c (record c { database = some n })
  Chooses reset_server = (c : Client) → Rel 0 c (record c { database = none })
  Chooses op = Unit

  -- Every operation carries the relation, with one request at most.
  pub after_related : (op : Operation) → Chooses op → (c : Client) → Rel 1 c (after cbor debug op c)
  unfolding Client.create_database Client.use_database Client.databases Client.tables
      Client.query_rows Client.import_csv Client.commit Client.help Client.reset_server
  after_related (create_database name) h =
      (checked (require_name name (codes "database name")) _
        λ n. one_system Protocol.create (n ∷ []) _ λ _. Sends-give (ok tt)).at
  after_related (use_database name) h =
      (checked (require_name name (codes "database name")) _
        λ n. one_system Protocol.connect (n ∷ []) _ λ _. record { at = h n }).at
  after_related databases h =
      (one_system Protocol.show_databases [] _
        λ r. message_read r λ m. ok (parse_list m (codes "Databases:"))).at
  after_related tables h =
      (one_db Protocol.show_tables [] _
        λ r. message_read r λ m. ok (parse_list m (codes "Tables:"))).at
  after_related (execute sql) h = (Sends-execute sql).at
  after_related (query sql) h = (Sends-bind 1 0 _ _ (Sends-execute sql) λ o. Sends-give _).at
  after_related (import_csv path table) h =
      (checked (require_name path (codes "path")) _ λ p.
        checked (require_name table (codes "table name")) _
          λ t. one_db Protocol.import (p ∷ t ∷ []) _ λ r. message_read r parse_imported).at
  after_related commit h = (one_db Protocol.commit [] _ λ _. Sends-give (ok tt)).at
  after_related help h = (one_system Protocol.help [] _ λ r. Sends-give _).at
  after_related reset_server h = (one_system Protocol.reset [] _ λ _. record { at = h }).at
