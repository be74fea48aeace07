-- ===== src/Client/Refused.antt =====
-- What stops an operation of src/client.rs before anything is sent.
use fing.Base.{◌++◌, Bool, true, false, Bool-cases, ◌⊎◌, inl, inr, ◌≡◌, refl, ◌∙◌, is_nil}
use fing.Base.Text.{Text, codes, trim}
use fing.Error.{Error, invalid_argument, Result, ok, err}
use fing.Protocol.{Response}
use fing.Sql.{inspect}
use fing.Codec.{Cbor}
use fing.Client
use fing.Client.{Client, Session, give, proceed, bind, guarded}
use fing.Client.Names.{require_name}
use fing.Client.Wire.{
  Operation, create_database, use_database, databases, tables, execute, query, import_csv, commit,
  help, reset_server,
}
use fing.Client.Queries.{Passes}
use fing.Client.Exchanges.{IsName, IsReady, run, require_name-ok}

abbrev pub IsBlank : Text → Type 0
IsBlank name = is_nil (trim name) ≡ true

pub IsName-or-IsBlank : (name : Text) → IsBlank name ⊎ IsName name
IsName-or-IsBlank name = Bool-cases (is_nil (trim name))

module _ (cbor : Cbor) (debug : Response → Text) where
  open cbor use {CborError}

  abbrev Stops : Bool → Text → Error CborError → Type 0
  Stops true sql e = inspect sql ≡ err e
  Stops false sql e = IsBlank sql × (e ≡ invalid_argument (codes "statement is empty"))

  -- A blank name, or a statement that the guard stops, and the error for it.
  abbrev pub Refused : Operation → Client → Error CborError → Type 0
  Refused (create_database name) c e =
      IsBlank name × (e ≡ invalid_argument (codes "database name is empty"))
  Refused (use_database name) c e =
      IsBlank name × (e ≡ invalid_argument (codes "database name is empty"))
  Refused (execute sql) c e = Stops c.statement_guard sql e
  Refused (query sql) c e = Stops c.statement_guard sql e
  Refused (import_csv path table) c e =
      (IsBlank path × (e ≡ invalid_argument (codes "path is empty")))
      ⊎ (IsName path × IsBlank table × (e ≡ invalid_argument (codes "table name is empty")))
  Refused op c e = ⊥

  require_name-err :
      {A : Type 0} (name what : Text) (f : Text → Session CborError A) (c : Client)
      → IsBlank name
      → bind (give (require_name name what)) f c
        ≡ (err (invalid_argument (what ++ codes " is empty")), c)
  unfolding require_name
  require_name-err name what f c h = rw h refl

  guarded-Stops :
      (b : Bool) (sql : Text) (e : Error CborError)
      → Stops b sql e
      → guarded cbor debug b sql ≡ err e
  guarded-Stops true sql e h = rw h refl
  guarded-Stops false sql e (h, same) = rw (h, same) refl

  execute-Stops :
      (sql : Text) (c : Client) (e : Error CborError)
      → Stops c.statement_guard sql e
      → Client.execute cbor debug sql c ≡ (err e, c)
  unfolding Client.execute
  execute-Stops sql c e h = rw (guarded-Stops c.statement_guard sql e h) refl

  -- An operation that is refused gives that error, and the client is as it was.
  pub run-Refused :
      (op : Operation) (c : Client) (e : Error CborError)
      → Refused op c e
      → run cbor debug op c ≡ (err e, c)
  unfolding Client.create_database Client.use_database Client.query_rows Client.import_csv
  run-Refused (create_database name) c e (h, same) =
      require_name-err name (codes "database name") _ c h ∙ rw same refl
  run-Refused (use_database name) c e (h, same) =
      require_name-err name (codes "database name") _ c h ∙ rw same refl
  run-Refused (execute sql) c e h = execute-Stops sql c e h
  run-Refused (query sql) c e h = rw (execute-Stops sql c e h) refl
  run-Refused (import_csv path table) c e (inl (h, same)) =
      require_name-err path (codes "path") _ c h ∙ rw same refl
  run-Refused (import_csv path table) c e (inr (p, h, same)) =
      rw (require_name-ok cbor debug path (codes "path") p)
        (require_name-err table (codes "table name") _ c h ∙ rw same refl)
  run-Refused databases c e h = elim h [ ]
  run-Refused tables c e h = elim h [ ]
  run-Refused commit c e h = elim h [ ]
  run-Refused help c e h = elim h [ ]
  run-Refused reset_server c e h = elim h [ ]

  Result-cases :
      {A : Type 0} (r : Result CborError A)
      → ((a : A) × (r ≡ ok a)) ⊎ ((e : Error CborError) × (r ≡ err e))
  Result-cases (ok a) = inl (a, refl)
  Result-cases (err e) = inr (e, refl)

  Passes-or-Stops :
      (b : Bool) (sql : Text) → Passes cbor debug b sql ⊎ ((e : Error CborError) × Stops b sql e)
  Passes-or-Stops true sql = Result-cases (inspect sql)
  Passes-or-Stops false sql = elim (IsName-or-IsBlank sql) [
    | inl blank ↦ inr (_, (blank, refl))
    | inr written ↦ inl written
  ]

  -- An operation is ready to be sent, or refused.
  pub IsReady-or-Refused :
      (op : Operation) (c : Client)
      → IsReady cbor debug op c ⊎ ((e : Error CborError) × Refused op c e)
  IsReady-or-Refused (create_database name) c = elim (IsName-or-IsBlank name) [
    | inl blank ↦ inr (_, (blank, refl))
    | inr written ↦ inl written
  ]
  IsReady-or-Refused (use_database name) c = elim (IsName-or-IsBlank name) [
    | inl blank ↦ inr (_, (blank, refl))
    | inr written ↦ inl written
  ]
  IsReady-or-Refused (execute sql) c = Passes-or-Stops c.statement_guard sql
  IsReady-or-Refused (query sql) c = Passes-or-Stops c.statement_guard sql
  IsReady-or-Refused (import_csv path table) c = elim (IsName-or-IsBlank path) [
    | inl blank ↦ inr (_, inl (blank, refl))
    | inr written ↦ elim (IsName-or-IsBlank table) [
      | inl blank ↦ inr (_, inr (written, blank, refl))
      | inr both ↦ inl (written, both)
    ]
  ]
  IsReady-or-Refused databases c = inl tt
  IsReady-or-Refused tables c = inl tt
  IsReady-or-Refused commit c = inl tt
  IsReady-or-Refused help c = inl tt
  IsReady-or-Refused reset_server c = inl tt
