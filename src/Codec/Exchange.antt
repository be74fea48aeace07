-- ===== src/Codec/Exchange.antt =====
-- A request and its response in src/codec.rs, with every way in which the exchange can fail.
pub mod Sound
pub mod Total
use fing.Base.{
  ℕ, ◌-◌, ◌≤◌, ◌<◌, List, [], ◌∷◌, ◌++◌, true, false, Option, none, some, ◌≡◌, ◌↔◌, inl, inr, refl,
  sym, ap, ◌∙◌, arith, length, take, drop, leb, ltb, ◌==◌, Bool-cases, subst,
}
use fing.Base.Text.{Bytes}
use fing.Error.{
  Error, ErrorKind, from_io, encode, decode, request_too_large, response_too_large, Result, ok, err,
  ◌>>=◌ as ◌R>>=◌,
}
use fing.Protocol
use fing.Protocol.{CommandWithArgs, Response}
use fing.Codec.{
  Coded, coded, failed, Cbor, max_request_bytes, max_response_bytes, read_body, map_encode,
  within_limit, encode_request, write_request, read_response,
}
use fing.Codec.BigEndian.{from_be_bytes}
use fing.Codec.Frames.{read_exact-append, read_exact_short}
use fing.Codec.Transport.{Stream, Io, ◌>>=◌, continue, write_all, write_broken, read_exact}

module _ (cbor : Cbor) where
  open cbor use {CborError, to_vec, from_slice}

  -- What `write_request` comes to: the command does not encode, or not within the limit; or its
  -- encoding is sent, whole or up to where the write fails.
  pub data Sends (command : CommandWithArgs) (s : Stream)
      : Result CborError (Unit {0}) → Stream → Type 0 where
    not_encoded : (e : CborError) → to_vec command ≡ failed e → Sends command s (err (encode e)) s
    too_large :
        (bytes : Bytes)
        → to_vec command ≡ coded bytes
        → max_request_bytes < length bytes
        → Sends command s (err (request_too_large (length bytes) max_request_bytes)) s
    whole :
        (bytes : Bytes)
        → to_vec command ≡ coded bytes
        → length bytes ≤ max_request_bytes
        → s.broken ≡ none
        → Sends command s (ok tt) (record s { sent = s.sent ++ (bytes ∷ []) })
    still_whole :
        (bytes : Bytes) (room : ℕ) (kind : ErrorKind)
        → to_vec command ≡ coded bytes
        → length bytes ≤ max_request_bytes
        → s.broken ≡ some (room, kind)
        → length bytes ≤ room
        → Sends command s
            (ok tt)
            (record s { sent = s.sent ++ (bytes ∷ []); broken = some (room - length bytes, kind) })
    broken_off :
        (bytes : Bytes) (room : ℕ) (kind : ErrorKind)
        → to_vec command ≡ coded bytes
        → length bytes ≤ max_request_bytes
        → s.broken ≡ some (room, kind)
        → room < length bytes
        → Sends command s
            (err (from_io kind))
            (record s { sent = s.sent ++ (take room bytes ∷ []); broken = some (0, kind) })

  -- What `read_response` comes to: the stream ends within the length or within the body, the
  -- length is nought or over the limit, or a whole body stands there, which may not decode.
  pub data Reads (s : Stream) : Result CborError Response → Stream → Type 0 where
    no_length :
        length s.incoming < 8 → Reads s (err (from_io s.ending)) (record s { incoming = [] })
    quiet :
        (size rest : Bytes)
        → length size ≡ 8
        → s.incoming ≡ size ++ rest
        → from_be_bytes size ≡ 0
        → Reads s (ok Protocol.quiet_ok) (record s { incoming = rest })
    oversized :
        (size rest : Bytes)
        → length size ≡ 8
        → s.incoming ≡ size ++ rest
        → max_response_bytes < from_be_bytes size
        → Reads s
            (err (response_too_large (from_be_bytes size) max_response_bytes))
            (record s { incoming = rest })
    cut_short :
        (size part : Bytes)
        → length size ≡ 8
        → s.incoming ≡ size ++ part
        → from_be_bytes size ≤ max_response_bytes
        → length part < from_be_bytes size
        → Reads s (err (from_io s.ending)) (record s { incoming = [] })
    undecodable :
        (size body rest : Bytes) (e : CborError)
        → length size ≡ 8
        → s.incoming ≡ size ++ (body ++ rest)
        → from_be_bytes size ≡ length body
        → 0 < length body
        → length body ≤ max_response_bytes
        → from_slice body ≡ failed e
        → Reads s (err (decode e)) (record s { incoming = rest })
    answered :
        (size body rest : Bytes) (r : Response)
        → length size ≡ 8
        → s.incoming ≡ size ++ (body ++ rest)
        → from_be_bytes size ≡ length body
        → 0 < length body
        → length body ≤ max_response_bytes
        → from_slice body ≡ coded r
        → Reads s (ok r) (record s { incoming = rest })

  pub data Exchanges (command : CommandWithArgs) (s : Stream)
      : Result CborError Response → Stream → Type 0 where
    unsent :
        (e : Error CborError) (s' : Stream)
        → Sends command s (err e) s'
        → Exchanges command s (err e) s'
    sent :
        (s' : Stream) (q : Result CborError Response) (s'' : Stream)
        → Sends command s (ok tt) s'
        → Reads s' q s''
        → Exchanges command s q s''
