-- ===== src/Client/Operations.antt =====
-- Each operation of src/client.rs gives what its response means.
use fing.Base.{[], ◌∷◌, Option, none, some, ◌≡◌, refl, ap, ◌∙◌}
use fing.Base.Text.{Text, codes, trim}
use fing.Error.{Error, Result, ok, err, ◌>>=◌}
use fing.Protocol
use fing.Protocol.{CommandWithArgs, Response}
use fing.Codec.{Cbor}
use fing.Client
use fing.Client.{
  Client, Session, give, proceed, bind, check, round_trip, system, db, outcome_of, expect_message,
  set_database,
}
use fing.Client.Outcomes.{Outcome, into_rows}
use fing.Client.Names.{require_name, parse_imported}
use fing.Client.Wire.{
  Operation, create_database, use_database, databases, tables, execute, query, import_csv, commit,
  help, reset_server,
}
use fing.Client.Queries.{Passes, Passes-guarded}
use fing.Client.Exchanges.{
  request_of, told, IsName, run, IsReady, refusal, unless_refused, read_text, meaning, settle,
  Arrived, received, round_trip-Arrived, check-refusal, require_name-ok, expect_message-told,
}

module _ (cbor : Cbor) (debug : Response → Text) where
  open cbor use {CborError}

  -- What follows a response, unless it carries an error.
  abbrev carry : {A : Type 0} → Option (Error CborError) → Session CborError A → Session CborError A
  carry none m d = m d
  carry (some e) m d = (err e, d)

  proceed-refusal :
      {A : Type 0} (o : Option (Error CborError)) (r : Response)
      (f : Response → Session CborError A) (d : Client)
      → proceed (unless_refused cbor debug o (ok r)) f d ≡ carry o (f r) d
  proceed-refusal none r f d = refl
  proceed-refusal (some e) r f d = refl

  pub answered :
      {A : Type 0} (command : CommandWithArgs) (f : Response → Session CborError A) (c d : Client)
      (r : Response)
      → round_trip cbor debug command c ≡ (ok r, d)
      → bind (bind (round_trip cbor debug command) (λ q. give (check q))) f c
        ≡ carry (refusal cbor debug r) (f r) d
  answered command f c d r x =
      ap
        (λ (p : Result CborError Response × Client).
          bind (λ (k : Client). proceed p.0 (λ q. give (check q)) p.1) f c)
        x
      ∙ ap (λ (q : Result CborError Response). proceed q f d) (check-refusal cbor debug r)
      ∙ proceed-refusal (refusal cbor debug r) r f d

  pub carry-give :
      {A : Type 0} (o : Option (Error CborError)) (a : Result CborError A) (d : Client)
      → carry o (give a) d ≡ (unless_refused cbor debug o a, d)
  carry-give none a d = refl
  carry-give (some e) a d = refl

  carry-use :
      (o : Option (Error CborError)) (name : Text) (d : Client)
      → carry o (set_database cbor debug (some (trim name))) d
        ≡ (unless_refused cbor debug o (ok tt), settle cbor debug (use_database name) o d)
  carry-use none name d = refl
  carry-use (some e) name d = refl

  carry-reset :
      (o : Option (Error CborError)) (d : Client)
      → carry o (set_database cbor debug none) d
        ≡ (unless_refused cbor debug o (ok tt), settle cbor debug reset_server o d)
  carry-reset none d = refl
  carry-reset (some e) d = refl

  read_text-give :
      {A : Type 0} (r : Response) (t : Option Text) (f : Text → Result CborError A) (d : Client)
      → bind (give (read_text cbor debug r ok t)) (λ m. give (f m)) d
        ≡ (read_text cbor debug r f t, d)
  read_text-give r none f d = refl
  read_text-give r (some text) f d = refl

  carry-told :
      {A : Type 0} (o : Option (Error CborError)) (r : Response) (f : Text → Result CborError A)
      (d : Client)
      → carry o (bind (give (expect_message cbor debug r)) (λ m. give (f m))) d
        ≡ (unless_refused cbor debug o (read_text cbor debug r f (told r)), d)
  carry-told none r f d =
      ap (λ (q : Result CborError Text). bind (give q) (λ m. give (f m)) d)
        (expect_message-told cbor debug r)
      ∙ read_text-give r (told r) f d
  carry-told (some e) r f d = refl

  pub named :
      {A : Type 0} (name what : Text) (f : Text → Session CborError A) (c : Client)
      → IsName name
      → bind (give (require_name name what)) f c ≡ f (trim name) c
  named name what f c h =
      ap (λ (q : Result CborError Text). proceed q f c) (require_name-ok cbor debug name what h)

  executed :
      (sql : Text) (c d : Client) (r : Response)
      → Passes cbor debug c.statement_guard sql
      → round_trip cbor debug (request_of (execute sql)) c ≡ (ok r, d)
      → Client.execute cbor debug sql c
        ≡ (unless_refused cbor debug (refusal cbor debug r) (outcome_of cbor debug r), d)
  unfolding Client.execute db
  executed sql c d r p x =
      ap
        (λ (g : Result CborError (Unit {0})).
          proceed g (λ _. bind (db cbor debug Protocol.execute_sql (sql ∷ [])) after_response) c)
        (Passes-guarded cbor debug c.statement_guard sql p)
      ∙ answered _ after_response c d r x
      ∙ carry-give (refusal cbor debug r) (outcome_of cbor debug r) d
    where
      after_response : Response → Session CborError Outcome
      after_response response = give (outcome_of cbor debug response)

  queried :
      (o : Option (Error CborError)) (a : Result CborError Outcome) (d : Client)
      → proceed (unless_refused cbor debug o a) (λ outcome. give (into_rows outcome)) d
        ≡ (unless_refused cbor debug o (a >>= into_rows), d)
  queried none (ok a) d = refl
  queried none (err e) d = refl
  queried (some e) a d = refl

  -- The operation behind a round trip that gave a response.
  pub run-answered :
      (op : Operation) (c d : Client) (r : Response)
      → IsReady cbor debug op c
      → round_trip cbor debug (request_of op) c ≡ (ok r, d)
      → run cbor debug op c
        ≡ (meaning cbor debug op r, settle cbor debug op (refusal cbor debug r) d)
  unfolding Client.create_database Client.use_database Client.databases Client.tables
      Client.query_rows Client.import_csv Client.commit Client.help Client.reset_server system db
  run-answered (create_database name) c d r h x =
      named name (codes "database name") _ c h
      ∙ answered _ _ c d r x
      ∙ carry-give (refusal cbor debug r) (ok tt) d
  run-answered (use_database name) c d r h x =
      named name (codes "database name") _ c h
      ∙ answered _ _ c d r x
      ∙ carry-use (refusal cbor debug r) name d
  run-answered databases c d r h x = answered _ _ c d r x ∙ carry-told (refusal cbor debug r) r _ d
  run-answered tables c d r h x = answered _ _ c d r x ∙ carry-told (refusal cbor debug r) r _ d
  run-answered (execute sql) c d r h x = executed sql c d r h x
  run-answered (query sql) c d r h x =
      ap
        (λ (p : Result CborError Outcome × Client).
          proceed p.0 (λ outcome. give (into_rows outcome)) p.1)
        (executed sql c d r h x)
      ∙ queried (refusal cbor debug r) (outcome_of cbor debug r) d
  run-answered (import_csv path table) c d r (p, t) x =
      named path (codes "path") _ c p
      ∙ named table (codes "table name") _ c t
      ∙ answered _ _ c d r x
      ∙ carry-told (refusal cbor debug r) r parse_imported d
  run-answered commit c d r h x = answered _ _ c d r x ∙ carry-give (refusal cbor debug r) (ok tt) d
  run-answered help c d r h x =
      answered _ _ c d r x
      ∙ carry-give (refusal cbor debug r) (expect_message cbor debug r) d
      ∙ ap (λ (q : Result CborError Text). (unless_refused cbor debug (refusal cbor debug r) q, d))
          (expect_message-told cbor debug r)
  run-answered reset_server c d r h x = answered _ _ c d r x ∙ carry-reset (refusal cbor debug r) d

  -- When the response of an operation has arrived, the operation gives what that response means to
  -- it, whichever operation and whichever response: the error that the response carries, or what the
  -- operation reads in it. One request has been sent and one frame read; choosing a database and
  -- resetting record their outcome, when they are not refused, and nothing else has changed.
  pub run-meaning :
      (op : Operation) (c : Client) (r : Response)
      → IsReady cbor debug op c
      → (x : Arrived cbor debug (request_of op) c r)
      → run cbor debug op c ≡ (
        meaning cbor debug op r,
        settle cbor debug op (refusal cbor debug r) (received cbor debug c x),
      )
  run-meaning op c r h x =
      run-answered op c (received cbor debug c x) r h
        (round_trip-Arrived cbor debug (request_of op) c r x)
