-- ===== src/Codec/Toy.antt =====
-- A codec for the tests of src/codec.rs and src/client.rs: a request is the bytes of its first
-- argument, and the body of a response is the text of a message. A body that begins with 0 does
-- not decode, one that begins with 2 is a result set of one row, and a command with no arguments
-- is one byte.
use fing.Base.{List, [], ◌∷◌, none, if◌then◌else◌, ◌==◌}
use fing.Base.Int.{pos}
use fing.Base.Text.{Text, Bytes, codes}
use fing.Value.{DataType, Value}
use fing.Schema.{Schema, no_constraint}
use fing.Protocol.{Tuple, Response, system_msg, query_result, select}
use fing.Codec.{Coded, coded, failed, Cbor}

abbrev first_or_one : List Text → Bytes
first_or_one [] = 1 ∷ []
first_or_one (a ∷ _) = a

abbrev pub id_schema : Schema
id_schema = record {
  attributes = record { name = codes "id"; dtype = DataType.int; constraint = no_constraint } ∷ [];
}

abbrev pub id_tuples : List Tuple
id_tuples = record { tid = 0; value_id = none; field_vals = Value.int (pos 7) ∷ [] } ∷ []

abbrev decode_toy : Bytes → Coded (Unit {0}) Response
decode_toy [] = failed tt
decode_toy (b ∷ bs) =
    if b == 0
    then failed tt
    else if b == 2
    then coded (query_result (select id_schema id_tuples none))
    else coded (system_msg (b ∷ bs))

abbrev pub toy : Cbor
toy = record {
  CborError = Unit {0};
  to_vec = λ command. coded (first_or_one command.args);
  from_slice = decode_toy;
}
