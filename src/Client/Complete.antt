-- ===== src/Client/Complete.antt =====
-- All that an operation of src/client.rs can come to.
use fing.Base.{◌⊎◌, inl, inr, ◌≡◌, refl, ap, ◌∙◌}
use fing.Base.Text.{Text, codes}
use fing.Error.{Error, Result, ok, err, ◌>>=◌}
use fing.Protocol.{CommandWithArgs, Response}
use fing.Codec.{Cbor}
use fing.Codec.Transport.{Stream}
use fing.Codec.Exchange.{Exchanges}
use fing.Codec.Exchange.Sound.{round_trip-Exchanges}
use fing.Codec.Exchange.Total.{Exchanges-some}
use fing.Client
use fing.Client.{Client, Session, give, proceed, bind, check, round_trip, system, db, outcome_of}
use fing.Client.Wire.{
  Operation, create_database, use_database, databases, tables, execute, query, import_csv, commit,
  help, reset_server,
}
use fing.Client.Queries.{Passes-guarded}
use fing.Client.Exchanges.{request_of, run, IsReady, refusal, meaning, settle}
use fing.Client.Operations.{run-answered, named}
use fing.Client.Refused.{Refused, run-Refused, IsReady-or-Refused}

module _ (cbor : Cbor) (debug : Response → Text) where
  open cbor use {CborError}

  pub unanswered :
      {A : Type 0} (command : CommandWithArgs) (f : Response → Session CborError A) (c d : Client)
      (e : Error CborError)
      → round_trip cbor debug command c ≡ (err e, d)
      → bind (bind (round_trip cbor debug command) (λ q. give (check q))) f c ≡ (err e, d)
  unanswered command f c d e x =
      ap
        (λ (p : Result CborError Response × Client).
          bind (λ (k : Client). proceed p.0 (λ q. give (check q)) p.1) f c)
        x

  execute-unanswered :
      (sql : Text) (c d : Client) (e : Error CborError)
      → IsReady cbor debug (execute sql) c
      → round_trip cbor debug (request_of (execute sql)) c ≡ (err e, d)
      → Client.execute cbor debug sql c ≡ (err e, d)
  unfolding Client.execute db
  execute-unanswered sql c d e p x =
      rw (Passes-guarded cbor debug c.statement_guard sql p) (unanswered _ _ c d e x)

  -- An operation whose round trip fails gives that error, and changes no more of the client.
  run-unanswered :
      (op : Operation) (c d : Client) (e : Error CborError)
      → IsReady cbor debug op c
      → round_trip cbor debug (request_of op) c ≡ (err e, d)
      → run cbor debug op c ≡ (err e, d)
  unfolding Client.create_database Client.use_database Client.databases Client.tables
      Client.query_rows Client.import_csv Client.commit Client.help Client.reset_server system db
  run-unanswered (create_database name) c d e h x =
      named cbor debug name (codes "database name") _ c h ∙ unanswered _ _ c d e x
  run-unanswered (use_database name) c d e h x =
      named cbor debug name (codes "database name") _ c h ∙ unanswered _ _ c d e x
  run-unanswered databases c d e h x = unanswered _ _ c d e x
  run-unanswered tables c d e h x = unanswered _ _ c d e x
  run-unanswered (execute sql) c d e h x = execute-unanswered sql c d e h x
  run-unanswered (query sql) c d e h x = rw (execute-unanswered sql c d e h x) refl
  run-unanswered (import_csv path table) c d e (p, t) x =
      named cbor debug path (codes "path") _ c p
      ∙ named cbor debug table (codes "table name") _ c t
      ∙ unanswered _ _ c d e x
  run-unanswered commit c d e h x = unanswered _ _ c d e x
  run-unanswered help c d e h x = unanswered _ _ c d e x
  run-unanswered reset_server c d e h x = unanswered _ _ c d e x

  -- What an operation changes of the client behind its exchange.
  abbrev pub settled : Operation → Result CborError Response → Client → Client
  settled op (ok r) d = settle cbor debug op (refusal cbor debug r) d
  settled op (err e) d = d

  pub round_trip-stream :
      (command : CommandWithArgs) (c : Client) (q : Result CborError Response) (s : Stream)
      → Exchanges cbor command c.stream q s
      → round_trip cbor debug command c ≡ (q, record c { stream = s })
  unfolding round_trip
  round_trip-stream command c q s x =
      ap (λ (p : Result CborError Response × Stream). (p.0, record c { stream = p.1 }))
        (round_trip-Exchanges cbor command c.stream s q x)

  -- Once its request has been exchanged, in whatever way, an operation that was ready gives what
  -- the response means to it, or the error of the exchange.
  pub run-Exchanges :
      (op : Operation) (c : Client) (q : Result CborError Response) (s : Stream)
      → IsReady cbor debug op c
      → Exchanges cbor (request_of op) c.stream q s
      → run cbor debug op c
        ≡ ((q >>= meaning cbor debug op), settled op q (record c { stream = s }))
  run-Exchanges op c (ok r) s h x =
      run-answered cbor debug op c (record c { stream = s }) r h
        (round_trip-stream (request_of op) c (ok r) s x)
  run-Exchanges op c (err e) s h x =
      run-unanswered op c (record c { stream = s }) e h
        (round_trip-stream (request_of op) c (err e) s x)

  -- Whichever operation on whichever client, there are two ends. Either it is refused for a blank
  -- name or by the guard: it gives the error for that, and the client is as it was. Or it was
  -- ready and its request and response came to one of the exchanges of `Exchanges`: it gives what
  -- the response means to it, or the error of the exchange, and but for the stream the client
  -- changes only where a response that is no refusal selects a database or resets the server.
  pub run_complete :
      (op : Operation) (c : Client)
      → ((e : Error CborError) × Refused cbor debug op c e × (run cbor debug op c ≡ (err e, c)))
        ⊎ (IsReady cbor debug op c
            × ((q : Result CborError Response) × (s : Stream) × Exchanges cbor
                  (request_of op)
                  c.stream
                  q
                  s
                × (run cbor debug op c
                    ≡ ((q >>= meaning cbor debug op), settled op q (record c { stream = s })))))
  run_complete op c = elim (IsReady-or-Refused cbor debug op c) [
    | inr (e, h) ↦ inl (e, h, run-Refused cbor debug op c e h)
    | inl ready ↦
        let (q, s, x) = Exchanges-some cbor (request_of op) c.stream in
        inr (ready, (q, s, x, run-Exchanges op c q s ready x))
  ]
