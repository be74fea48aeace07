-- ===== src/Example/Guarded.antt =====
-- What examples/basic.rs puts on the wire.
use fing.Base.{◌++◌, List, [], ◌∷◌, Bool, true, false, Option, none, some}
use fing.Base.Text.{Text, codes}
use fing.Error.{Result, ok, err, Run, returns, panics}
use fing.Protocol.{Response}
use fing.Schema.{Schema}
use fing.Value.{Value}
use fing.Rows.{Row, by_name, get}
use fing.Convert.{i64, int_from_value, str_from_value}
use fing.Base.Decimal.{to_string_ℤ}
use fing.Rows.Display.{display_rows}
use fing.Codec.{Cbor}
use fing.Client
use fing.Client.{Client, Session}
use fing.Client.Wire.{Operation, after_all}
use fing.Client.Keeps.{
  IsGuarded, Keeps, Keeps-create_database, Keeps-use_database, Keeps-databases, Keeps-tables,
  Keeps-execute, Keeps-query_rows,
}
use fing.Client.Connect.{Network, builder, connect, connect_default}
use fing.Client.Opened.{Ensures}
use fing.Client.Sessions.{OpensFresh, session-IsGuarded}
use fing.Example.{
  World, Program, finish, go_on, ◌>>=◌, on_client, print, address, first_or_demo, any_users,
  create_missing, populate, create_users, insert_alice, insert_ziad, select_users, print_row,
  print_rows, print_table, addressed, session, begin, main,
}

module _ (cbor : Cbor) (debug : Response → Text) where
  open cbor use {CborError}

  -- A program that keeps the guard on and the wire clean, however it ends.
  record Guards {A : Type 0} (m : Program CborError A) : Type 0 where
    at : (w : World) → IsGuarded cbor debug w.client → IsGuarded cbor debug (m w).1.client

  Guards-finish : {A : Type 0} (r : Run (Result CborError A)) → Guards (finish r)
  Guards-finish r = record { at = λ w g. g }

  Guards-print : (text : Text) → Guards (print text)
  Guards-print text = record { at = λ w g. g }

  Guards-on_client :
      {A : Type 0} (m : Session CborError A) → Keeps cbor debug m → Guards (on_client m)
  Guards-on_client m k = record { at = λ w g. k.at w.client g }

  Guards-go_on :
      {A B : Type 0} (r : Run (Result CborError A)) (f : A → Program CborError B)
      → ((a : A) → Guards (f a))
      → Guards (go_on r f)
  Guards-go_on (returns (ok a)) f k = k a
  Guards-go_on (returns (err e)) f k = record { at = λ w g. g }
  Guards-go_on panics f k = record { at = λ w g. g }

  Guards-then :
      {A B : Type 0} (m : Program CborError A) (f : A → Program CborError B)
      → Guards m
      → ((a : A) → Guards (f a))
      → Guards (m >>= f)
  Guards-then m f h k = record { at = λ w g. (Guards-go_on (m w).0 f k).at (m w).1 (h.at w g) }

  Guards-create_missing :
      (existing : List Text) (database : Text)
      → Guards (create_missing cbor debug existing database)
  unfolding create_missing
  Guards-create_missing [] database = Guards-on_client _ (Keeps-create_database cbor debug database)
  Guards-create_missing (_ ∷ _) database = Guards-finish (returns (ok tt))

  Guards-execute : (sql : Text) → Guards (on_client (Client.execute cbor debug sql))
  Guards-execute sql = Guards-on_client _ (Keeps-execute cbor debug sql)

  Guards-populate : (found : Bool) → Guards (populate cbor debug found)
  unfolding populate
  Guards-populate true = Guards-finish (returns (ok tt))
  Guards-populate false = Guards-then _ _ (Guards-execute create_users) λ _.
      Guards-then _ _ (Guards-execute insert_alice)
        λ _. Guards-then _ _ (Guards-execute insert_ziad) λ _. Guards-print _

  Guards-print_row : (row : Row) → Guards (print_row cbor debug row)
  unfolding print_row
  Guards-print_row row =
      Guards-then (finish (get (int_from_value i64) row (by_name (codes "id")))) _ (Guards-finish _)
        λ id.
          Guards-then (finish (get str_from_value row (by_name (codes "name")))) _ (Guards-finish _)
            λ name. Guards-print (to_string_ℤ id ++ codes ": " ++ name)

  Guards-print_rows :
      (schema : Schema) (rows : List (List Value)) → Guards (print_rows cbor debug schema rows)
  unfolding print_rows
  Guards-print_rows schema [] = Guards-finish (returns (ok tt))
  Guards-print_rows schema (values ∷ rest) =
      Guards-then _ _ (Guards-print_row _) λ _. Guards-print_rows schema rest

  Guards-print_table : (r : Run Text) → Guards (print_table cbor debug r)
  Guards-print_table panics = Guards-finish panics
  Guards-print_table (returns table) = Guards-print _

  Guards-addressed : Guards (addressed cbor debug)
  Guards-addressed = record { at = λ w g. g }

  Guards-session : Guards (session cbor debug)
  unfolding session
  Guards-session = Guards-then _ _ Guards-addressed λ peer.
      Guards-then _ _ (Guards-print (codes "connected to " ++ peer)) λ _.
        Guards-then _ _ (Guards-on_client _ (Keeps-databases cbor debug)) λ existing.
          Guards-then _ _ (Guards-create_missing existing (first_or_demo existing)) λ _.
            Guards-then _ _
              (Guards-on_client _ (Keeps-use_database cbor debug (first_or_demo existing)))
              λ _.
                Guards-then _ _
                  (Guards-print (codes "using database `" ++ first_or_demo existing ++ codes "`"))
                  λ _. Guards-then _ _ (Guards-on_client _ (Keeps-tables cbor debug)) λ tables.
                    Guards-then _ _ (Guards-populate (any_users tables)) λ _.
                      Guards-then _ _
                        (Guards-on_client _ (Keeps-query_rows cbor debug select_users))
                        λ rows.
                          Guards-then _ _ (Guards-print_table (display_rows rows))
                            λ _. Guards-print_rows rows.schema rows.rows

  -- The client that the program leaves, when it came to have one.
  abbrev pub Leaves : Option World → Type 0
  Leaves none = Unit
  Leaves (some w) = IsGuarded cbor debug w.client

  -- Whatever the command line, a network that opens fresh connections and its servers: the example
  -- sends only what the guard allows, whether it comes to its end, stops at an error or panics.
  pub main-IsGuarded :
      (net : Network) (arg : Option Text)
      → OpensFresh cbor debug net
      → Leaves (main cbor debug net arg).1
  unfolding main connect_default
  main-IsGuarded net arg f =
      started (connect cbor debug net builder (address arg))
        (session-IsGuarded cbor debug net builder (address arg) f (λ e. cc))
    where
      started :
          (r : Result CborError Client)
          → Ensures
              (λ c. (ops : List Operation) → IsGuarded cbor debug (after_all cbor debug ops c))
              r
          → Leaves (begin cbor debug r).1
      started (ok c) h = Guards-session.at (record { client = c; printed = [] }) (h [])
      started (err e) h = tt
