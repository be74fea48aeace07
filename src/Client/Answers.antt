-- ===== src/Client/Answers.antt =====
-- What each response means to `execute` of src/client.rs, without its intermediate steps.
use fing.Base.{ℕ, map, Option, List, [], true, false, ◌≡◌, ◌⊎◌, inl, inr, refl, Bool-cases}
use fing.Base.Text.{Text, codes, contains}
use fing.Error.{
  Error, server, query, not_connected, unexpected_response, server_shutdown, Result, ok, err, ◌>>=◌,
}
use fing.Protocol
use fing.Schema.{Schema}
use fing.Protocol.{Response, Tuple, PagingInfo}
use fing.Rows
use fing.Rows.{Rows}
use fing.Codec.{Cbor}
use fing.Client.{Client, check, unexpected, outcome_of, execute}
use fing.Client.Outcomes
use fing.Client.Outcomes.{Outcome, into_outcome}
use fing.Client.Queries.{Exchange, exchanged, execute-Exchange}

module _ (cbor : Cbor) (debug : Response → Text) where
  open cbor use {CborError}

  -- The error that stands for an error text of the server.
  abbrev pub SystemError : Text → Error CborError → Type 0
  SystemError text e =
      ((contains text (codes "Not connected to a database") ≡ true) × (e ≡ not_connected))
      ⊎ ((contains text (codes "Not connected to a database") ≡ false) × (e ≡ server text))

  -- The errors that a response stands for, and the outcomes.
  pub data Says : Response → Result CborError Outcome → Type 0 where
    system_error :
        (text : Text) (e : Error CborError)
        → SystemError text e
        → Says (Protocol.system_err text) (err e)
    execution_error : (text : Text) → Says (Protocol.query_execution_error text) (err (query text))
    quiet_error : Says Protocol.quiet_err (err (server (codes "server reported an error")))
    shutting_down : Says (Protocol.shutdown false) (err server_shutdown)
    kept_up :
        Says (Protocol.shutdown true) (err (unexpected_response (debug (Protocol.shutdown true))))
    text_alone :
        (text : Text)
        → Says (Protocol.query_result (Protocol.message_only text)) (ok (Outcomes.message text))
    system_text : (text : Text) → Says (Protocol.system_msg text) (ok (Outcomes.message text))
    inserted :
        (count : ℕ) (table : Text)
        → Says
            (Protocol.query_result (Protocol.insert count table))
            (ok (Outcomes.insert count table))
    selected :
        (schema : Schema) (tuples : List Tuple) (paging : Option PagingInfo)
        → Says (Protocol.query_result (Protocol.select schema tuples paging)) (
            ok (
              Outcomes.rows (record {
                schema = schema;
                rows = map (λ t. t.field_vals) tuples;
                paging = paging;
              })))
    silent : Says Protocol.ok (ok (Outcomes.message []))
    quiet : Says Protocol.quiet_ok (ok (Outcomes.message []))

  reads-Says : (r : Response) → Says r (check r >>= outcome_of cbor debug)
  unfolding check outcome_of into_outcome unexpected Rows.new
  reads-Says Protocol.ok = silent
  reads-Says (Protocol.system_msg text) = system_text text
  reads-Says (Protocol.system_err text) =
      elim (Bool-cases (contains text (codes "Not connected to a database"))) [
        | inl named ↦ rw named (system_error text not_connected (inl (named, refl)))
        | inr not_named ↦ rw not_named (system_error text (server text) (inr (not_named, refl)))
      ]
  reads-Says (Protocol.query_result (Protocol.message_only text)) = text_alone text
  reads-Says (Protocol.query_result (Protocol.select schema tuples paging)) =
      selected schema tuples paging
  reads-Says (Protocol.query_result (Protocol.insert count table)) = inserted count table
  reads-Says (Protocol.query_execution_error text) = execution_error text
  reads-Says (Protocol.shutdown true) = kept_up
  reads-Says (Protocol.shutdown false) = shutting_down
  reads-Says Protocol.quiet_ok = quiet
  reads-Says Protocol.quiet_err = quiet_error

  -- When the server has the whole of a statement and its response stands at the front of the
  -- stream, `execute` gives what that response says, whichever it is; one request has been sent,
  -- one frame read, and nothing else of the client has changed.
  pub execute-Says :
      (sql : Text) (c : Client) (r : Response) (x : Exchange cbor debug sql c r)
      → Says r (execute cbor debug sql c).0
        × ((execute cbor debug sql c).1 ≡ exchanged cbor debug sql c r x)
  execute-Says sql c r x = rw (execute-Exchange cbor debug sql c r x) (reads-Says r, refl)
