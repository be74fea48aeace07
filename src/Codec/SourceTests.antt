-- ===== src/Codec/SourceTests.antt =====
-- The tests at the end of src/codec.rs, under their names there in the spelling of types. What
-- `serde_cbor` makes of the command or the response of a test is a parameter of it.
use fing.Base.{
  ℕ, zero, suc, ◌-◌, ◌≤◌, ◌<◌, ◌^◌, [], ◌∷◌, ◌++◌, none, ◌≡◌, ◌⊎◌, inl, inr, refl, false, sym, ap,
  ◌∙◌, arith, length, take, replicate, append-nil,
}
use fing.Base.Text.{Bytes, codes}
use fing.Error.{
  unexpected_eof, from_io, connection_closed, request_too_large, response_too_large, Result, ok,
  err,
}
use fing.Protocol
use fing.Protocol.{CommandWithArgs, Response, system_command, db_command, system_msg, query_result}
use fing.Codec.{coded, Cbor, max_request_bytes, max_response_bytes, write_request, read_response}
use fing.Codec.Transport.{Stream}
use fing.Codec.BigEndian.{to_be_bytes}
use fing.Codec.Frames.{
  framed, read_response-framed, read_response-framed_nil, read_response_short, read_response_cut,
  read_response_too_large,
}
use fing.Codec.Exchange.{whole, too_large}
use fing.Codec.Exchange.Sound.{write_request-Sends}

-- `Cursor::new(bytes)`, and the empty `Vec` that a test writes to.
abbrev cursor : Bytes → Stream
cursor bytes = record {
  incoming = bytes;
  ending = unexpected_eof;
  sent = [];
  broken = none;
  nodelay = false;
  read_timeout = none;
  write_timeout = none;
}

less_two : (n : ℕ) → suc (suc n) - 2 ≡ n
less_two n = omega arith

module _ (cbor : Cbor) where
  open cbor use {CborError, to_vec, from_slice}

  -- The bytes of `serde_cbor::to_vec(response)`, which read back.
  record Encoding (r : Response) : Type 0 where
    pub body : Bytes
    pub not_empty : 0 < length body
    pub fits : length body ≤ max_response_bytes
    pub decodes : from_slice body ≡ coded r

  -- The bytes of `serde_cbor::to_vec(command)`.
  record Request (command : CommandWithArgs) : Type 0 where
    pub bytes : Bytes
    pub encodes : to_vec command ≡ coded bytes

  abbrev ReadsBack : (r : Response) → Encoding r → Type 0
  ReadsBack r x = (read_response cbor (cursor (framed x.body))).0 ≡ ok r

  abbrev select_one : CommandWithArgs
  unfolding db_command
  select_one = db_command Protocol.execute_sql (codes "SELECT 1" ∷ [])

  RequestsAreWrittenWithoutALengthPrefix : Request select_one → Type 0
  RequestsAreWrittenWithoutALengthPrefix x =
      write_request cbor select_one (cursor [])
      ≡ (ok tt, record (cursor []) { sent = x.bytes ∷ [] })

  abbrev long : CommandWithArgs
  unfolding db_command
  long = db_command Protocol.execute_sql (replicate 2000 b'x' ∷ [])

  OversizedRequestsAreRejectedBeforeSending : Request long → Type 0
  OversizedRequestsAreRejectedBeforeSending x =
      write_request cbor long (cursor [])
      ≡ (err (request_too_large (length x.bytes) max_request_bytes), cursor [])

  abbrev created : Response
  created = system_msg (codes "Created database mydb")

  ResponsesAreReadFromALengthPrefixedFrame : Encoding created → Type 0
  ResponsesAreReadFromALengthPrefixedFrame x = ReadsBack created x

  abbrev inserted : Response
  inserted = query_result (Protocol.insert 2 (codes "users"))

  SelectResponsesSurviveAFrameRoundtrip : Encoding inserted → Type 0
  SelectResponsesSurviveAFrameRoundtrip x = ReadsBack inserted x

  abbrev hello : Response
  hello = system_msg (codes "hello")

  abbrev truncated : Bytes → Bytes
  truncated bytes = take (length bytes - 2) bytes

  ATruncatedBodyReportsAClosedConnection : Encoding hello → Type 0
  ATruncatedBodyReportsAClosedConnection x =
      (read_response cbor (cursor (truncated (framed x.body)))).0 ≡ err connection_closed

  AClosedStreamReportsAClosedConnection : Type 0
  AClosedStreamReportsAClosedConnection = (read_response cbor (cursor [])).0 ≡ err connection_closed

  AnEmptyFrameReadsAsAQuietOk : Type 0
  AnEmptyFrameReadsAsAQuietOk =
      (read_response cbor (cursor (to_be_bytes 0))).0 ≡ ok Protocol.quiet_ok

  AnAbsurdLengthIsRefusedBeforeAllocating : Type 0
  AnAbsurdLengthIsRefusedBeforeAllocating =
      (read_response cbor (cursor (to_be_bytes (2 ^ 64 - 1)))).0
      ≡ err (response_too_large (2 ^ 64 - 1) max_response_bytes)

  read_back_lem : (r : Response) (x : Encoding r) → ReadsBack r x
  read_back_lem r x =
      ap (λ (p : Result CborError Response × Stream). p.0)
        (read_response-framed cbor x.body [] (cursor (framed x.body)) x.not_empty x.fits
          (sym (append-nil (framed x.body))))
      ∙ rw x.decodes refl

  -- All but two bytes of a frame: all but two of its body, or less than its length.
  truncate :
      (n : ℕ) (body : Bytes)
      → 0 < length body
      → (truncated (to_be_bytes n ++ body) ≡ to_be_bytes n ++ take (length body - 2) body)
        ⊎ (length (truncated (to_be_bytes n ++ body)) < 8)
  unfolding to_be_bytes
  truncate n [] h = elim h [ ]
  truncate n (b ∷ []) h = inr (omega arith)
  truncate n (b ∷ c ∷ bs) h = inl (
      rw
        (less_two (length bs), less_two (suc (suc (suc (suc (suc (suc (suc (suc (length bs))))))))))
        refl)

  length-take_le : (n : ℕ) (bs : Bytes) → length (take n bs) ≤ n
  length-take_le zero bs = omega arith
  length-take_le (suc n) [] = omega arith
  length-take_le (suc n) (b ∷ bs) = omega (arith, length-take_le n bs)

  closes :
      (n : ℕ) (body : Bytes)
      → n ≡ length body
      → 0 < length body
      → length body ≤ max_response_bytes
      → (read_response cbor (cursor (truncated (to_be_bytes n ++ body)))).0 ≡ err connection_closed
  unfolding from_io
  closes n body e lo hi = elim (truncate n body lo) [
    | inr short ↦
        ap (λ (p : Result CborError Response × Stream). p.0)
          (read_response_short cbor (cursor (truncated (to_be_bytes n ++ body))) short)
    | inl cut ↦
        ap (λ (p : Result CborError Response × Stream). p.0)
          (read_response_cut cbor n (take (length body - 2) body)
            (cursor (truncated (to_be_bytes n ++ body))) (omega arith)
            (omega (arith, length-take_le (length body - 2) body)) cut)
  ]

  -- The tests hold whatever the encoding: of a request, when it is within the limit, or, as it
  -- holds its arguments, has at least the length of those.
  source_tests :
      (one : Request select_one) (many : Request long) (x : Encoding created)
      (y : Encoding inserted) (z : Encoding hello)
      → length one.bytes ≤ max_request_bytes
      → 2000 ≤ length many.bytes
      → RequestsAreWrittenWithoutALengthPrefix one
        × OversizedRequestsAreRejectedBeforeSending many
        × ResponsesAreReadFromALengthPrefixedFrame x
        × SelectResponsesSurviveAFrameRoundtrip y
        × ATruncatedBodyReportsAClosedConnection z
        × AClosedStreamReportsAClosedConnection
        × AnEmptyFrameReadsAsAQuietOk
        × AnAbsurdLengthIsRefusedBeforeAllocating
  unfolding RequestsAreWrittenWithoutALengthPrefix OversizedRequestsAreRejectedBeforeSending
      ResponsesAreReadFromALengthPrefixedFrame SelectResponsesSurviveAFrameRoundtrip
      ATruncatedBodyReportsAClosedConnection AClosedStreamReportsAClosedConnection
      AnEmptyFrameReadsAsAQuietOk AnAbsurdLengthIsRefusedBeforeAllocating select_one long from_io
      framed to_be_bytes
  source_tests one many x y z fits exceeds = (
    write_request-Sends cbor select_one (cursor []) _ _ (whole one.bytes one.encodes fits refl),
    write_request-Sends cbor long (cursor []) _ _ (too_large many.bytes many.encodes (omega arith)),
    read_back_lem created x,
    read_back_lem inserted y,
    closes (length z.body) z.body refl z.not_empty z.fits,
    ap (λ (p : Result CborError Response × Stream). p.0)
        (read_response_short cbor (cursor []) (omega arith)),
    ap (λ (p : Result CborError Response × Stream). p.0)
        (read_response-framed_nil cbor [] (cursor (to_be_bytes 0)) refl),
    ap (λ (p : Result CborError Response × Stream). p.0)
        (read_response_too_large cbor (2 ^ 64 - 1) [] (cursor (to_be_bytes (2 ^ 64 - 1)))
          (omega arith) (omega arith) (sym (append-nil (to_be_bytes (2 ^ 64 - 1))))),
  )
