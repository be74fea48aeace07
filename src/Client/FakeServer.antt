-- ===== src/Client/FakeServer.antt =====
-- The fake server of the tests of src/client.rs. It has sent its responses, one for each request,
-- and hangs up. In place of the encoding of `serde_cbor` a response
-- is one byte, its position in the script.
use fing.Base.{ℕ, suc, List, [], ◌∷◌, ◌++◌, Bool, false, Option, none, some, get_elem?}
use fing.Base.Int.{pos}
use fing.Base.Text.{Text, Bytes, codes}
use fing.Error.{unexpected_eof, Result, ok, err}
use fing.Value.{DataType, Value}
use fing.Schema.{Attribute, Schema, no_constraint, primary_key, index_of, unqualified, column}
use fing.Schema
use fing.Protocol
use fing.Protocol.{Response, Tuple, db_command, system_command}
use fing.Codec.{Coded, coded, failed, Cbor}
use fing.Codec.Frames.{framed}
use fing.Codec.Toy.{toy}
use fing.Client.{Client}
use fing.Client.Connect.{Network, done, connect_default}

abbrev pub debug : Response → Text
debug r = codes "?"

abbrev decoded : Option Response → Coded (Unit {0}) Response
decoded (some r) = coded r
decoded none = failed tt

abbrev decode : List Response → Bytes → Coded (Unit {0}) Response
decode script [] = failed tt
decode script (n ∷ _) = decoded (get_elem? script n)

abbrev pub scripted : List Response → Cbor
scripted script = record { CborError = Unit {0}; to_vec = toy.to_vec; from_slice = decode script }

abbrev answers : ℕ → List Response → Bytes
answers n [] = []
answers n (r ∷ rs) = framed (n ∷ []) ++ answers (suc n) rs

abbrev pub spawn : List Response → Network
spawn script = record {
  resolve = λ addr. done (addr ∷ []);
  open_stream = λ addr. done (record {
    incoming = answers 0 script;
    ending = unexpected_eof;
    sent = [];
    broken = none;
    nodelay = false;
    read_timeout = none;
    write_timeout = none;
  });
  open_within = λ addr t. done (record {
    incoming = answers 0 script;
    ending = unexpected_eof;
    sent = [];
    broken = none;
    nodelay = false;
    read_timeout = none;
    write_timeout = none;
  });
  set_nodelay = λ s. done tt;
}

-- A test on the client that connects to the server of a script.
unfoldable pub against : List Response → (Client → Bool) → Bool
unfolding connect_default
against script test =
    tried (connect_default (scripted script) debug (spawn script) (codes "127.0.0.1:0"))
  where
    tried : Result (Unit {0}) Client → Bool
    tried (ok c) = test c
    tried (err e) = false

abbrev pub Answered : Type 0 → Type 0
Answered A = Result (Unit {0}) A

unfoldable pub select_response : Response
unfolding Schema.new
select_response = Protocol.query_result (
    Protocol.select
      (Schema.new (
        record { name = codes "id"; dtype = DataType.int; constraint = primary_key }
        ∷ record { name = codes "name"; dtype = DataType.string; constraint = no_constraint }
        ∷ []))
      (record {
        tid = 0;
        value_id = none;
        field_vals = Value.int (pos 1) ∷ Value.string (codes "alice") ∷ [];
      }
        ∷ [])
      none)
