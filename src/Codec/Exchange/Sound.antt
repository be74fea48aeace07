-- ===== src/Codec/Exchange/Sound.antt =====
-- From the relations of `Codec.Exchange` to src/codec.rs.
use fing.Base.{ℕ, ◌≤◌, ◌<◌, [], ◌++◌, true, false, ◌≡◌, refl, ◌∙◌, arith, length, leb, ltb, ◌==◌}
use fing.Base.Text.{Bytes}
use fing.Error.{from_io, response_too_large, Result, ok, err}
use fing.Protocol.{CommandWithArgs, Response}
use fing.Codec.{
  Cbor, max_request_bytes, max_response_bytes, read_body, map_decode, encode_request, write_request,
  read_response,
}
use fing.Codec.BigEndian.{from_be_bytes}
use fing.Codec.Frames.{read_exact-append, read_exact_short, read_response_short}
use fing.Codec.Transport.{Stream, ◌>>=◌, write_all}
use fing.Codec.Exchange.{
  Sends, not_encoded, too_large, whole, still_whole, broken_off, Reads, no_length, quiet, oversized,
  cut_short, undecodable, answered, Exchanges, unsent, sent,
}

ltb-false : (m n : ℕ) → n ≤ m → ltb m n ≡ false
ltb-false m n h = ground arith

ltb-true : (m n : ℕ) → m < n → ltb m n ≡ true
ltb-true m n h = ground arith

leb-true : (m n : ℕ) → m ≤ n → leb m n ≡ true
leb-true m n h = ground arith

leb-false : (m n : ℕ) → n < m → leb m n ≡ false
leb-false m n h = ground arith

not_zero : (n : ℕ) → 0 < n → (n == 0) ≡ false
not_zero n h = ground arith

module _ (cbor : Cbor) where
  open cbor use {CborError, to_vec, from_slice}

  pub write_request-Sends :
      (command : CommandWithArgs) (s s' : Stream) (q : Result CborError (Unit {0}))
      → Sends cbor command s q s'
      → write_request cbor command s ≡ (q, s')
  unfolding write_request encode_request write_all
  write_request-Sends command s s' q (not_encoded e c) = rw c refl
  write_request-Sends command s s' q (too_large bytes c h) =
      rw (c, ltb-true max_request_bytes (length bytes) h) refl
  write_request-Sends command s s' q (whole bytes c h b) =
      rw (c, ltb-false max_request_bytes (length bytes) h) (simp b)
  write_request-Sends command s s' q (still_whole bytes room kind c h b l) =
      rw (c, ltb-false max_request_bytes (length bytes) h)
        (simp (b, leb-true (length bytes) room l))
  write_request-Sends command s s' q (broken_off bytes room kind c h b l) =
      rw (c, ltb-false max_request_bytes (length bytes) h)
        (simp (b, leb-false (length bytes) room l))

  read_response-size :
      (size rest : Bytes) (s : Stream)
      → length size ≡ 8
      → s.incoming ≡ size ++ rest
      → read_response cbor s ≡ read_body cbor (from_be_bytes size) (record s { incoming = rest })
  unfolding read_response
  read_response-size size rest s l e =
      rw (rw l at (read_exact-append {C = CborError} size rest s e)) refl

  read_body-large :
      (n : ℕ) (s : Stream)
      → max_response_bytes < n
      → read_body cbor n s ≡ (err (response_too_large n max_response_bytes), s)
  read_body-large n s h = rw (not_zero n (omega arith), ltb-true max_response_bytes n h) refl

  read_body-short :
      (n : ℕ) (s : Stream)
      → n ≤ max_response_bytes
      → length s.incoming < n
      → read_body cbor n s ≡ (err (from_io s.ending), record s { incoming = [] })
  read_body-short n s h l =
      rw (not_zero n (omega arith), ltb-false max_response_bytes n h)
        (rw (read_exact_short n s l) refl)

  read_body-whole :
      (n : ℕ) (body rest : Bytes) (s : Stream)
      → n ≡ length body
      → 0 < length body
      → length body ≤ max_response_bytes
      → s.incoming ≡ body ++ rest
      → read_body cbor n s ≡ (map_decode cbor (from_slice body), record s { incoming = rest })
  read_body-whole n body rest s e lo hi i = rw e (
      rw (not_zero (length body) lo, ltb-false max_response_bytes (length body) hi)
        (rw (read_exact-append body rest s i) refl))

  read_response-Reads :
      (s s' : Stream) (q : Result CborError Response)
      → Reads cbor s q s'
      → read_response cbor s ≡ (q, s')
  read_response-Reads s s' q (no_length h) = read_response_short cbor s h
  read_response-Reads s s' q (quiet size rest l e z) =
      read_response-size size rest s l e ∙ rw z refl
  read_response-Reads s s' q (oversized size rest l e h) =
      read_response-size size rest s l e
      ∙ read_body-large (from_be_bytes size) (record s { incoming = rest }) h
  read_response-Reads s s' q (cut_short size part l e h lt) =
      read_response-size size part s l e
      ∙ read_body-short (from_be_bytes size) (record s { incoming = part }) h lt
  read_response-Reads s s' q (undecodable size body rest f l e n lo hi d) =
      read_response-size size (body ++ rest) s l e
      ∙ read_body-whole (from_be_bytes size) body rest (record s { incoming = body ++ rest }) n lo
          hi refl
      ∙ rw d refl
  read_response-Reads s s' q (answered size body rest r l e n lo hi d) =
      read_response-size size (body ++ rest) s l e
      ∙ read_body-whole (from_be_bytes size) body rest (record s { incoming = body ++ rest }) n lo
          hi refl
      ∙ rw d refl

  pub round_trip-Exchanges :
      (command : CommandWithArgs) (s s' : Stream) (q : Result CborError Response)
      → Exchanges cbor command s q s'
      → (write_request cbor command >>= λ _. read_response cbor) s ≡ (q, s')
  round_trip-Exchanges command s s' q (unsent e after x) =
      rw (write_request-Sends command s after (err e) x) refl
  round_trip-Exchanges command s s' q (sent middle r after x y) =
      rw (write_request-Sends command s middle (ok tt) x) (read_response-Reads middle after r y)
