-- ===== src/Client/Selected.antt =====
-- The database that a client of src/client.rs has on record.
use fing.Base.{List, [], ◌∷◌, Option, none, some, ◌≡◌, inl, inr, refl, ◌∙◌, is_nil, Bool-cases}
use fing.Base.Text.{Text, trim}
use fing.Error.{Result, ok, err}
use fing.Protocol
use fing.Protocol.{SystemCommand, DbCommand, CommandWithArgs, Response}
use fing.Codec.{Cbor}
use fing.Client
use fing.Client.{
  Client, Session, give, proceed, bind, check, set_database, round_trip, system, db, guarded,
  outcome_of,
}
use fing.Client.Names.{require_name}
use fing.Client.Wire.{Operation, after}
use fing.Client.Rules.{Carried, Chooses, system_related, after_related}

module _ (cbor : Cbor) (debug : Response → Text) where
  open cbor use {CborError}

  record_request :
      (command : CommandWithArgs) (c : Client)
      → (round_trip cbor debug command c).1.database ≡ c.database
  unfolding round_trip
  record_request command c = refl

  -- The record stays.
  pub recorded : Carried cbor debug
  recorded = record {
    Rel = λ _ c d. d.database ≡ c.database;
    same = λ c. refl;
    more = λ n c d e. e;
    join = λ m n b c d e f. f ∙ e;
    request = record_request;
  }

  -- What an answer of `use_database`, and of `reset_server`, says of the record.
  abbrev pub Records : Option Text → Client → Result CborError (Unit {0}) × Client → Type 0
  Records name c (ok _, c') = c'.database ≡ name
  Records name c (err _, c') = c'.database ≡ c.database

  Records-system :
      (command : SystemCommand) (args : List Text) (name : Option Text) (c d : Client)
      → d.database ≡ c.database
      → Records name c (bind (system cbor debug command args) (λ _. set_database cbor debug name) d)
  unfolding recorded
  Records-system command args name c d e =
      by_result (system cbor debug command args d).0 _
        (system_related cbor debug recorded command args d ∙ e)
    where
      by_result :
          (r : Result CborError Response) (d' : Client)
          → d'.database ≡ c.database
          → Records name c (proceed r (λ _. set_database cbor debug name) d')
      by_result (ok a) d' e' = refl
      by_result (err x) d' e' = e'

  -- The operations that do not choose a database leave the record alone.
  pub after-database :
      (op : Operation)
      → Chooses cbor debug recorded op
      → (c : Client) → (after cbor debug op c).database ≡ c.database
  unfolding recorded
  after-database op h = after_related cbor debug recorded op h

  -- `use_database` records the trimmed name when it returns without an error, and else leaves the
  -- record as it was.
  pub use_database-Records :
      (name : Text) (c : Client)
      → Records (some (trim name)) c (Client.use_database cbor debug name c)
  unfolding Client.use_database require_name
  use_database-Records name c = elim (Bool-cases (is_nil (trim name))) [
    | inl blank ↦ rw blank refl
    | inr named ↦
        rw named (Records-system Protocol.connect (trim name ∷ []) (some (trim name)) c c refl)
  ]

  -- `reset_server` forgets the database when it returns without an error, and else keeps it.
  pub reset_server-Records : (c : Client) → Records none c (Client.reset_server cbor debug c)
  unfolding Client.reset_server
  reset_server-Records c = Records-system Protocol.reset [] none c c refl
