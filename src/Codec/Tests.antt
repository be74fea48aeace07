-- ===== src/Codec/Tests.antt =====
-- The properties of src/codec.rs at concrete inputs.
use fing.Base.{List, [], ◌∷◌, ◌++◌, true, none, ◌≡◌, ◌↔◌, refl, arith}
use fing.Base.Text.{Bytes, codes}
use fing.Error.{unexpected_eof, connection_closed, ok, err}
use fing.Protocol
use fing.Protocol.{CommandWithArgs, Response, system_msg, system_command}
use fing.Codec.{read_response, write_request}
use fing.Codec.Transport.{Stream, ◌>>=◌}
use fing.Codec.BigEndian.{to_be_bytes}
use fing.Codec.Frames.{read_times, framed_all, read_times-framed_all}
use fing.Codec.Exchange.{Exchanges}
use fing.Codec.Exchange.Total.{round_trip_iff}
use fing.Codec.Toy.{toy}

abbrev stream : Bytes → Stream
stream bytes = record {
  incoming = bytes;
  ending = unexpected_eof;
  sent = [];
  broken = none;
  nodelay = true;
  read_timeout = none;
  write_timeout = none;
}

-- The stream ends within the body of the response.
round_trip_iff_example :
    ((write_request toy (system_command Protocol.help []) >>= λ _. read_response toy)
        (stream (to_be_bytes 5 ++ codes "hell"))
      ≡ (err connection_closed, record (stream []) { sent = (1 ∷ []) ∷ [] }))
    ↔ Exchanges toy
        (system_command Protocol.help [])
        (stream (to_be_bytes 5 ++ codes "hell"))
        (err connection_closed)
        (record (stream []) { sent = (1 ∷ []) ∷ [] })
round_trip_iff_example =
    round_trip_iff toy (system_command Protocol.help []) (stream (to_be_bytes 5 ++ codes "hell"))
      (record (stream []) { sent = (1 ∷ []) ∷ [] }) (err connection_closed)

abbrev bodies : List Bytes
bodies = codes "a" ∷ codes "bc" ∷ []

abbrev replies : List Response
replies = system_msg (codes "a") ∷ system_msg (codes "bc") ∷ []

read_times-framed_all_example :
    read_times toy 2 (stream (framed_all toy bodies ++ [])) ≡ (ok replies, stream [])
read_times-framed_all_example =
    read_times-framed_all toy bodies replies [] (stream (framed_all toy bodies ++ []))
      (omega arith, omega arith, refl, (omega arith, omega arith, refl, tt)) refl
