-- ===== src/Client/Queries.antt =====
-- `execute` and `query` of src/client.rs from the guard to the result.
use fing.Base.{
  ◌≤◌, ◌<◌, List, [], ◌∷◌, ◌++◌, Bool, true, false, Option, none, ◌≡◌, refl, ap, ◌∙◌, length, map,
  is_nil,
}
use fing.Base.Text.{Text, Bytes, trim}
use fing.Error.{Error, Result, ok, err, ◌>>=◌}
use fing.Protocol
use fing.Protocol.{Tuple, PagingInfo, Response, db_command}
use fing.Rows
use fing.Schema.{Schema}
use fing.Sql.{StatementKind, inspect}
use fing.Codec.{coded, Cbor, max_request_bytes, max_response_bytes, write_request, read_response}
use fing.Codec.Transport.{Stream}
use fing.Codec.Transport.{◌>>=◌ as io_bind}
use fing.Codec.Frames.{framed, read_response-framed}
use fing.Codec.Requests.{round_trip-sends}
use fing.Client.{Client, check, guarded, db, outcome_of, execute, query_rows, proceed, give}
use fing.Client.Outcomes.{into_outcome, into_rows}

module _ (cbor : Cbor) (debug : Response → Text) where
  open cbor use {CborError, to_vec, from_slice}

  -- A statement that the guard refuses is not sent, and nothing is read: the error is the
  -- guard's, and the client is as it was.
  pub execute-inspect_err :
      (sql : Text) (c : Client) (e : Error CborError)
      → c.statement_guard ≡ true
      → inspect {C = CborError} sql ≡ err e
      → execute cbor debug sql c ≡ (err e, c)
  unfolding execute
  execute-inspect_err sql c e on refused = rw refusal
    where
      refusal : guarded cbor debug c.statement_guard sql ≡ err e
      refusal = rw on (rw refused)

  -- The statement passes what is checked before anything is sent: the guard, or with the guard
  -- off the test that it is not blank.
  abbrev pub Passes : Bool → Text → Type 0
  Passes true sql = (k : StatementKind) × (inspect {C = CborError} sql ≡ ok k)
  Passes false sql = is_nil (trim sql) ≡ false

  pub Passes-guarded : (b : Bool) (sql : Text) → Passes b sql → guarded cbor debug b sql ≡ ok tt
  Passes-guarded true sql (k, e) = rw e
  Passes-guarded false sql h = rw h

  -- The server has the whole of a request, and its answer to it stands at the front of the stream.
  pub record Exchange (sql : Text) (c : Client) (r : Response) : Type 0 where
    pub passes : Passes c.statement_guard sql
    pub request : Bytes
    pub encodes : to_vec (db_command Protocol.execute_sql (sql ∷ [])) ≡ coded request
    pub request_fits : length request ≤ max_request_bytes
    pub writable : c.stream.broken ≡ none
    pub body : Bytes
    pub rest : Bytes
    pub arrives : c.stream.incoming ≡ framed body ++ rest
    pub not_empty : 0 < length body
    pub body_fits : length body ≤ max_response_bytes
    pub decodes : from_slice body ≡ coded r

  module _ (sql : Text) (c : Client) (r : Response) (x : Exchange sql c r) where
    -- The client behind the exchange: one request sent, one frame read.
    abbrev pub exchanged : Client
    exchanged = record c {
      stream = record (c.stream) { incoming = x.rest; sent = c.stream.sent ++ (x.request ∷ []) };
    }

    db-Exchange : db cbor debug Protocol.execute_sql (sql ∷ []) c ≡ (check r, exchanged)
    unfolding db
    db-Exchange =
        ap
          (λ (p : Result CborError Response × Stream).
            proceed p.0 (λ response. give (check response)) (record c { stream = p.1 }))
          io
      where
        sent : Stream
        sent = record (c.stream) { sent = c.stream.sent ++ (x.request ∷ []) }

        io :
            io_bind
              (write_request cbor (db_command Protocol.execute_sql (sql ∷ [])))
              (λ _. read_response cbor)
              c.stream
            ≡ (
              ok r,
              record (c.stream) { incoming = x.rest; sent = c.stream.sent ++ (x.request ∷ []) },
            )
        io =
            round_trip-sends cbor _ x.request c.stream x.encodes x.request_fits x.writable
            ∙ read_response-framed cbor x.body x.rest sent x.not_empty x.body_fits x.arrives
            ∙ rw x.decodes

    reply :
        {A B : Type 0} (a : Result CborError A) (f : A → Result CborError B) (d : Client)
        → proceed a (λ x. give (f x)) d ≡ ((a >>= f), d)
    reply (ok a) f d = refl
    reply (err e) f d = refl

    -- What a statement gives is what its response says: an error that the response carries, or
    -- the outcome that it describes.
    pub execute-Exchange :
        execute cbor debug sql c ≡ ((check r >>= outcome_of cbor debug), exchanged)
    unfolding execute
    execute-Exchange =
        rw (Passes-guarded c.statement_guard sql x.passes)
          (rw db-Exchange (reply (check r) (outcome_of cbor debug) exchanged))

  -- A result set arrives as it was sent: its schema, the values of its tuples in order, and its
  -- paging. One request has been sent, and the stream is at the byte behind the response.
  pub query_rows-select :
      (sql : Text) (c : Client) (schema : Schema) (tuples : List Tuple) (paging : Option PagingInfo)
      → (x : Exchange sql c (Protocol.query_result (Protocol.select schema tuples paging)))
      → query_rows cbor debug sql c ≡ (
        ok (record { schema = schema; rows = map (λ t. t.field_vals) tuples; paging = paging }),
        exchanged sql c _ x,
      )
  unfolding query_rows check outcome_of into_outcome into_rows Rows.new
  query_rows-select sql c schema tuples paging x = rw (execute-Exchange sql c _ x)
