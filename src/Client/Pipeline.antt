-- ===== src/Client/Pipeline.antt =====
-- Several statements on one client of src/client.rs, whose responses arrive one behind another.
use fing.Base.{
  ◌≤◌, ◌<◌, List, [], ◌∷◌, ◌++◌, append_assoc, append-nil, Bool, none, ◌≡◌, refl, ap, subst, sym,
  ◌∙◌, length, map,
}
use fing.Base.Text.{Text, Bytes}
use fing.Error.{Result, ◌>>=◌}
use fing.Protocol
use fing.Protocol.{Response, db_command}
use fing.Codec.{coded, Cbor, max_request_bytes, max_response_bytes}
use fing.Codec.Frames.{framed}
use fing.Client.{Client, check, outcome_of, execute}
use fing.Client.Outcomes.{Outcome}
use fing.Client.Queries.{Passes, Exchange, exchanged, execute-Exchange}

module _ (cbor : Cbor) (debug : Response → Text) where
  open cbor use {CborError, to_vec, from_slice}

  -- A statement that passes the guard and fits into a request, and the response to it.
  pub record Planned (guard : Bool) : Type 0 where
    pub sql : Text
    pub response : Response
    pub passes : Passes cbor debug guard sql
    pub request : Bytes
    pub encodes : to_vec (db_command Protocol.execute_sql (sql ∷ [])) ≡ coded request
    pub request_fits : length request ≤ max_request_bytes
    pub body : Bytes
    pub not_empty : 0 < length body
    pub body_fits : length body ≤ max_response_bytes
    pub decodes : from_slice body ≡ coded response

  abbrev pub frames : {guard : Bool} → List (Planned guard) → Bytes
  frames [] = []
  frames (p ∷ ps) = framed p.body ++ frames ps

  -- One statement behind another, whatever the results.
  abbrev pub execute_all : List Text → Client → List (Result CborError Outcome) × Client
  execute_all [] c = ([], c)
  execute_all (sql ∷ sqls) c =
      let (r, d) = execute cbor debug sql c in let (rs, e) = execute_all sqls d in (r ∷ rs, e)

  abbrev pub behind : {guard : Bool} → List (Planned guard) → Bytes → Client → Client
  behind plan rest c = record c {
    stream = record (c.stream) {
      incoming = rest;
      sent = c.stream.sent ++ map (λ p. p.request) plan;
    };
  }

  -- Statements whose responses have arrived are all answered: each gives what its own response says,
  -- an error being no hindrance to those behind it; all requests are sent, in order, and what is
  -- left of the stream stands behind the last response.
  pub execute_all-frames :
      (guard : Bool) (plan : List (Planned guard)) (rest : Bytes) (c : Client)
      → c.statement_guard ≡ guard
      → c.stream.broken ≡ none
      → c.stream.incoming ≡ frames plan ++ rest
      → execute_all (map (λ p. p.sql) plan) c
        ≡ (map (λ p. check p.response >>= outcome_of cbor debug) plan, behind plan rest c)
  execute_all-frames guard [] rest c g b e = λ i. (
    [],
    record c {
      stream = record (c.stream) { incoming = e i; sent = sym (append-nil c.stream.sent) i };
    },
  )
  execute_all-frames guard (p ∷ plan) rest c g b e =
      ap (λ (q : Result CborError Outcome × Client). next_ones q.0 (execute_all sqls q.1)) one
      ∙ ap (next_ones (check p.response >>= outcome_of cbor debug))
          (execute_all-frames guard plan rest d g b refl)
      ∙ ap
          (λ (sent : List Bytes). (
            (check p.response >>= outcome_of cbor debug)
                ∷ map (λ q. check q.response >>= outcome_of cbor debug) plan,
            record c { stream = record (c.stream) { incoming = rest; sent = sent } },
          ))
          (append_assoc c.stream.sent (p.request ∷ []) (map (λ q. q.request) plan))
    where
      sqls : List Text
      sqls = map (λ q. q.sql) plan

      next_ones :
          Result CborError Outcome
          → List (Result CborError Outcome) × Client
          → List (Result CborError Outcome) × Client
      next_ones r (rs, e) = (r ∷ rs, e)

      exchange : Exchange cbor debug p.sql c p.response
      exchange = record {
        passes = subst (λ (on : Bool). Passes cbor debug on p.sql) (sym g) p.passes;
        request = p.request;
        encodes = p.encodes;
        request_fits = p.request_fits;
        writable = b;
        body = p.body;
        rest = frames plan ++ rest;
        arrives = e ∙ append_assoc (framed p.body) (frames plan) rest;
        not_empty = p.not_empty;
        body_fits = p.body_fits;
        decodes = p.decodes;
      }

      d : Client
      d = exchanged cbor debug p.sql c p.response exchange

      one : execute cbor debug p.sql c ≡ ((check p.response >>= outcome_of cbor debug), d)
      one = execute-Exchange cbor debug p.sql c p.response exchange
