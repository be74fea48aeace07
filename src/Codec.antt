-- ===== src/Codec.antt =====
-- src/codec.rs: requests go out bare, responses come behind a length of eight bytes. `serde_cbor`
-- is a parameter. A stream holds the bytes that will still arrive, so a statement about every
-- stream is one about every server.
pub mod Transport
pub mod BigEndian
pub mod Frames
pub mod Requests
pub mod Exchange
pub mod Streams
pub mod Toy
mod SourceTests
mod Tests
use fing.Base.{ℕ, ◌*◌, List, Bool, length, ltb, ◌==◌, if◌then◌else◌}
use fing.Base.Text.{Bytes}
use fing.Error.{
  Error, encode, decode, request_too_large, response_too_large, Result, ok, err, ◌>>=◌,
}
use fing.Protocol
use fing.Protocol.{CommandWithArgs, Response}
use Transport.{Io, ◌>>=◌ as io_bind, pure, lift, write_all, read_exact}
use BigEndian.{from_be_bytes}

-- What `serde_cbor` answers: a value, or an error of its own.
pub data Coded (C A : Type 0) : Type 0 where
  coded : A → Coded C A
  failed : C → Coded C A

-- The two functions of `serde_cbor` that the code calls.
pub record Cbor : Type 1 where
  pub CborError : Type 0
  pub to_vec : CommandWithArgs → Coded CborError Bytes
  pub from_slice : Bytes → Coded CborError Response

abbrev pub max_request_bytes : ℕ
max_request_bytes = 1024

abbrev pub max_response_bytes : ℕ
max_response_bytes = 512 * 1024 * 1024

module _ (cbor : Cbor) where
  open cbor use {CborError, to_vec, from_slice}

  abbrev map_encode : Coded CborError Bytes → Result CborError Bytes
  map_encode (coded bytes) = ok bytes
  map_encode (failed e) = err (encode e)

  abbrev map_decode : Coded CborError Response → Result CborError Response
  map_decode (coded r) = ok r
  map_decode (failed e) = err (decode e)

  abbrev within_limit : Bytes → Result CborError Bytes
  within_limit bytes =
      if ltb max_request_bytes (length bytes)
      then err (request_too_large (length bytes) max_request_bytes)
      else ok bytes

  unfoldable pub encode_request : CommandWithArgs → Result CborError Bytes
  encode_request command = map_encode (to_vec command) >>= within_limit

  -- `flush` does nothing on a TCP stream.
  unfoldable pub write_request : CommandWithArgs → Io CborError (Unit {0})
  unfolding encode_request
  write_request command = io_bind (lift (encode_request command)) write_all

  abbrev read_body : ℕ → Io CborError Response
  read_body size =
      if size == 0
      then pure Protocol.quiet_ok
      else if ltb max_response_bytes size
      then lift (err (response_too_large size max_response_bytes))
      else io_bind (read_exact size) (λ body. lift (map_decode (from_slice body)))

  unfoldable pub read_response : Io CborError Response
  read_response = io_bind (read_exact 8) (λ size. read_body (from_be_bytes size))
