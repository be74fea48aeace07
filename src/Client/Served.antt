-- ===== src/Client/Served.antt =====
-- A whole session on a client of src/client.rs, whose server answers every request.
use fing.Base.{
  List, [], ◌∷◌, ◌++◌, append_assoc, append-nil, Bool, Option, none, some, ◌≡◌, refl, ap, subst,
  sym, ◌∙◌, map,
}
use fing.Base.Text.{Text, Bytes, trim}
use fing.Error.{Error, Result}
use fing.Protocol.{Response}
use fing.Codec.{Cbor}
use fing.Codec.Frames.{framed}
use fing.Client.{Client}
use fing.Client.Wire.{
  Operation, create_database, use_database, databases, tables, execute, query, import_csv, commit,
  help, reset_server,
}
use fing.Client.Queries.{Passes}
use fing.Client.Exchanges.{request_of, run, Answer, IsName, IsReady, refusal, meaning, settle}
use fing.Client.Taken.{taken, IsSent, Holds, takes}

-- What is recorded when nothing is refused.
abbrev unless : {A B : Type 0} → Option A → B → B → B
unless none new old = new
unless (some e) new old = old

module _ (cbor : Cbor) (debug : Response → Text) where
  open cbor use {CborError}

  -- What has to hold of an operation before its request is sent, with the guard on or off.
  abbrev pub Ready : Bool → Operation → Type 0
  Ready guard (create_database name) = IsName name
  Ready guard (use_database name) = IsName name
  Ready guard (execute sql) = Passes cbor debug guard sql
  Ready guard (query sql) = Passes cbor debug guard sql
  Ready guard (import_csv path table) = IsName path × IsName table
  Ready guard op = Unit

  -- An operation, its request, and the response that the server gives to it.
  pub record Planned (guard : Bool) : Type 0 where
    pub op : Operation
    pub response : Response
    pub ready : Ready guard op
    pub request : Bytes
    pub is_sent : IsSent cbor (request_of op) request
    pub body : Bytes
    pub holds : Holds cbor body response

  abbrev pub frames : {guard : Bool} → List (Planned guard) → Bytes
  frames [] = []
  frames (p ∷ ps) = framed p.body ++ frames ps

  -- An operation with what it returned.
  abbrev pub Reply : Type 0
  Reply = (op : Operation) × Result CborError (Answer op)

  abbrev pub run_all : List Operation → Client → List Reply × Client
  run_all [] c = ([], c)
  run_all (op ∷ ops) c =
      let (r, d) = run cbor debug op c in let (rs, e) = run_all ops d in ((op, r) ∷ rs, e)

  -- The database that is selected behind a response: the last one chosen and not refused, unless
  -- a reset came in between.
  abbrev pub selects : Operation → Response → Option Text → Option Text
  selects (use_database name) r d = unless (refusal cbor debug r) (some (trim name)) d
  selects reset_server r d = unless (refusal cbor debug r) none d
  selects op r d = d

  abbrev pub last_selected : {guard : Bool} → List (Planned guard) → Option Text → Option Text
  last_selected [] d = d
  last_selected (p ∷ ps) d = last_selected ps (selects p.op p.response d)

  abbrev pub behind : {guard : Bool} → List (Planned guard) → Bytes → Client → Client
  behind plan rest c = record c {
    stream = record (c.stream) {
      incoming = rest;
      sent = c.stream.sent ++ map (λ p. p.request) plan;
    };
    database = last_selected plan c.database;
  }

  IsReady-Ready :
      (op : Operation) (guard : Bool) (c : Client)
      → c.statement_guard ≡ guard
      → Ready guard op
      → IsReady cbor debug op c
  IsReady-Ready (create_database name) guard c g h = h
  IsReady-Ready (use_database name) guard c g h = h
  IsReady-Ready (execute sql) guard c g h =
      subst (λ (on : Bool). Passes cbor debug on sql) (sym g) h
  IsReady-Ready (query sql) guard c g h = subst (λ (on : Bool). Passes cbor debug on sql) (sym g) h
  IsReady-Ready (import_csv path table) guard c g h = h
  IsReady-Ready databases guard c g h = tt
  IsReady-Ready tables guard c g h = tt
  IsReady-Ready commit guard c g h = tt
  IsReady-Ready help guard c g h = tt
  IsReady-Ready reset_server guard c g h = tt

  -- The client behind one operation.
  abbrev after_one : {guard : Bool} → Planned guard → Bytes → Client → Client
  after_one p rest c = record (taken p.request rest c) {
    database = selects p.op p.response c.database;
  }

  settle-unless :
      (o : Option (Error CborError)) (name : Text) (d : Client)
      → (settle cbor debug (use_database name) o d
          ≡ record d { database = unless o (some (trim name)) d.database })
        × (settle cbor debug reset_server o d ≡ record d { database = unless o none d.database })
  settle-unless none name d = (refl, refl)
  settle-unless (some e) name d = (refl, refl)

  settle-selects :
      (op : Operation) (r : Response) (d : Client)
      → settle cbor debug op (refusal cbor debug r) d
        ≡ record d { database = selects op r d.database }
  settle-selects (create_database name) r d = refl
  settle-selects (use_database name) r d = (settle-unless (refusal cbor debug r) name d).0
  settle-selects databases r d = refl
  settle-selects tables r d = refl
  settle-selects (execute sql) r d = refl
  settle-selects (query sql) r d = refl
  settle-selects (import_csv path table) r d = refl
  settle-selects commit r d = refl
  settle-selects help r d = refl
  settle-selects reset_server r d = (settle-unless (refusal cbor debug r) [] d).1

  run-after_one :
      {guard : Bool} (p : Planned guard) (rest : Bytes) (c : Client)
      → c.statement_guard ≡ guard
      → c.stream.broken ≡ none
      → c.stream.incoming ≡ framed p.body ++ rest
      → run cbor debug p.op c ≡ (meaning cbor debug p.op p.response, after_one p rest c)
  run-after_one {guard} p rest c g b e =
      takes cbor debug p.op c p.request p.body rest p.response
        (IsReady-Ready p.op guard c g p.ready) p.is_sent b p.holds e
      ∙ ap (λ (d : Client). (meaning cbor debug p.op p.response, d))
          (settle-selects p.op p.response (taken p.request rest c))

  -- When the server answers every operation of a session, the session comes to its end: each
  -- operation gives what its own response means to it, a refusal being no hindrance to those
  -- behind it; the requests are sent in order, one for each; what is left of the stream stands
  -- behind the last response; and the database is the last one selected and not refused, or none
  -- where a reset came later.
  pub run_all-frames :
      (guard : Bool) (plan : List (Planned guard)) (rest : Bytes) (c : Client)
      → c.statement_guard ≡ guard
      → c.stream.broken ≡ none
      → c.stream.incoming ≡ frames plan ++ rest
      → run_all (map (λ p. p.op) plan) c
        ≡ (map (λ p. (p.op, meaning cbor debug p.op p.response)) plan, behind plan rest c)
  run_all-frames guard [] rest c g b e = λ i. (
    [],
    record c {
      stream = record (c.stream) { incoming = e i; sent = sym (append-nil c.stream.sent) i };
    },
  )
  run_all-frames guard (p ∷ plan) rest c g b e =
      ap
        (λ (q : Result CborError (Answer p.op) × Client).
          next_ones (p.op, q.0) (run_all (map (λ q. q.op) plan) q.1))
        (run-after_one p (frames plan ++ rest) c g b
          (e ∙ append_assoc (framed p.body) (frames plan) rest))
      ∙ ap (next_ones (p.op, meaning cbor debug p.op p.response))
          (run_all-frames guard plan rest (after_one p (frames plan ++ rest) c) g b refl)
      ∙ ap
          (λ (sent : List Bytes). (
            map (λ q. (q.op, meaning cbor debug q.op q.response)) (p ∷ plan),
            record c {
              stream = record (c.stream) { incoming = rest; sent = sent };
              database = last_selected (p ∷ plan) c.database;
            },
          ))
          (append_assoc c.stream.sent (p.request ∷ []) (map (λ q. q.request) plan))
    where
      next_ones : Reply → List Reply × Client → List Reply × Client
      next_ones r (rs, e) = (r ∷ rs, e)
