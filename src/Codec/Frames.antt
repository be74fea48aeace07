-- ===== src/Codec/Frames.antt =====
-- `read_response` of src/codec.rs on whole, cut and absurd frames.
use mathlib.Core.List.{append_assoc}
use fing.Base.{
  ℕ, zero, suc, ◌≤◌, ◌<◌, ◌^◌, List, [], ◌∷◌, ◌++◌, true, false, ◌≡◌, refl, ◌∙◌, arith, length,
  take-length-append, drop-length-append, length-append, leb, ltb, ◌==◌,
}
use fing.Base.Text.{Bytes}
use fing.Error.{from_io, response_too_large, ok, err}
use fing.Protocol
use fing.Protocol.{Response}
use fing.Codec.{coded, Cbor, max_response_bytes, map_decode, read_body, read_response}
use fing.Codec.Transport.{Stream, Io, pure, ◌>>=◌, read_exact}
use fing.Codec.BigEndian.{to_be_bytes, from_be_bytes-to_be_bytes, length-to_be_bytes}

-- A response as the server sends it; the tests of src/codec.rs call it `framed`.
unfoldable pub framed : Bytes → Bytes
framed body = to_be_bytes (length body) ++ body

module _ {C : Type 0} where
  pub read_exact-append :
      (front rest : Bytes) (s : Stream)
      → s.incoming ≡ front ++ rest
      → read_exact {C = C} (length front) s ≡ (ok front, record s { incoming = rest })
  unfolding read_exact
  read_exact-append front rest s e =
      rw (e, leb_append) (rw (take-length-append, drop-length-append))
    where
      leb_append : leb (length front) (length (front ++ rest)) ≡ true
      leb_append = ground (arith, length-append front rest)

  pub read_exact_short :
      (n : ℕ) (s : Stream)
      → length s.incoming < n
      → read_exact {C = C} n s ≡ (err (from_io s.ending), record s { incoming = [] })
  unfolding read_exact
  read_exact_short n s h = ground arith

  eight_bytes :
      (n : ℕ) (rest : Bytes) (s : Stream)
      → s.incoming ≡ to_be_bytes n ++ rest
      → read_exact {C = C} 8 s ≡ (ok (to_be_bytes n), record s { incoming = rest })
  eight_bytes n rest s e = rw length-to_be_bytes at (read_exact-append (to_be_bytes n) rest s e)

module _ (cbor : Cbor) where
  open cbor use {CborError, from_slice}

  read_header :
      (n : ℕ) (rest : Bytes) (s : Stream)
      → n < 2 ^ 64
      → s.incoming ≡ to_be_bytes n ++ rest
      → read_response cbor s ≡ read_body cbor n (record s { incoming = rest })
  unfolding read_response
  read_header n rest s h e = rw (eight_bytes n rest s e) (rw (from_be_bytes-to_be_bytes n h))

  -- A whole frame is read and decoded, and the stream is left at the byte behind it, whatever
  -- the frame holds.
  pub read_response-framed :
      (body rest : Bytes) (s : Stream)
      → 0 < length body
      → length body ≤ max_response_bytes
      → s.incoming ≡ framed body ++ rest
      → read_response cbor s ≡ (map_decode cbor (from_slice body), record s { incoming = rest })
  unfolding framed
  read_response-framed body rest s lo hi e =
      read_header (length body) (body ++ rest) s (omega arith)
        (e ∙ append_assoc (to_be_bytes (length body)) body rest)
      ∙ rw (not_zero, not_large)
          (rw (read_exact-append body rest (record s { incoming = body ++ rest }) refl))
    where
      not_zero : (length body == 0) ≡ false
      not_zero = ground arith

      not_large : ltb max_response_bytes (length body) ≡ false
      not_large = ground arith

  -- The empty frame is a quiet acknowledgement.
  pub read_response-framed_nil :
      (rest : Bytes) (s : Stream)
      → s.incoming ≡ framed [] ++ rest
      → read_response cbor s ≡ (ok Protocol.quiet_ok, record s { incoming = rest })
  unfolding framed
  read_response-framed_nil rest s e =
      read_header 0 rest s (omega arith) (e ∙ append_assoc (to_be_bytes 0) [] rest)

  -- A stream that ends within the eight bytes of a length, or within the body that a length
  -- within the limit announced, gives the error of that end; nothing is left to read.
  pub read_response_short :
      (s : Stream)
      → length s.incoming < 8
      → read_response cbor s ≡ (err (from_io s.ending), record s { incoming = [] })
  unfolding read_response
  read_response_short s h = rw (read_exact_short 8 s h)

  pub read_response_cut :
      (n : ℕ) (part : Bytes) (s : Stream)
      → n ≤ max_response_bytes
      → length part < n
      → s.incoming ≡ to_be_bytes n ++ part
      → read_response cbor s ≡ (err (from_io s.ending), record s { incoming = [] })
  read_response_cut n part s hi lt e =
      read_header n part s (omega arith) e
      ∙ rw (not_zero, not_large) (rw (read_exact_short n (record s { incoming = part }) lt))
    where
      not_zero : (n == 0) ≡ false
      not_zero = ground arith

      not_large : ltb max_response_bytes n ≡ false
      not_large = ground arith

  -- A length over the limit is refused with that length, and no byte behind it is read.
  pub read_response_too_large :
      (n : ℕ) (rest : Bytes) (s : Stream)
      → max_response_bytes < n
      → n < 2 ^ 64
      → s.incoming ≡ to_be_bytes n ++ rest
      → read_response cbor s
        ≡ (err (response_too_large n max_response_bytes), record s { incoming = rest })
  read_response_too_large n rest s lo hi e = read_header n rest s hi e ∙ rw (not_zero, large)
    where
      not_zero : (n == 0) ≡ false
      not_zero = ground arith

      large : ltb max_response_bytes n ≡ true
      large = ground arith

  -- One response after another.
  abbrev pub read_times : ℕ → Io CborError (List Response)
  read_times zero = pure []
  read_times (suc n) = read_response cbor >>= λ r. read_times n >>= λ rs. pure (r ∷ rs)

  abbrev pub Decodes : List Bytes → List Response → Type 0
  Decodes [] [] = Unit {0}
  Decodes (b ∷ bs) (r ∷ rs) =
      (0 < length b) × (length b ≤ max_response_bytes) × (from_slice b ≡ coded r) × Decodes bs rs
  Decodes _ _ = ⊥

  abbrev pub framed_all : List Bytes → Bytes
  framed_all [] = []
  framed_all (b ∷ bs) = framed b ++ framed_all bs

  -- Frames sent one behind another are read as the responses that they encode, in order.
  pub read_times-framed_all :
      (bodies : List Bytes) (rs : List Response) (rest : Bytes) (s : Stream)
      → Decodes bodies rs
      → s.incoming ≡ framed_all bodies ++ rest
      → read_times (length bodies) s ≡ (ok rs, record s { incoming = rest })
  read_times-framed_all [] [] rest s d e = λ i. (ok [], record s { incoming = e i })
  read_times-framed_all [] (r ∷ rs) rest s d e = absurd d
  read_times-framed_all (b ∷ bs) [] rest s d e = absurd d
  read_times-framed_all (b ∷ bs) (r ∷ rs) rest s (lo, hi, c, d) e =
      rw
        (read_response-framed b (framed_all bs ++ rest) s lo hi
          (e ∙ append_assoc (framed b) (framed_all bs) rest))
        (rw c (
          rw (
            read_times-framed_all bs rs rest (record s { incoming = framed_all bs ++ rest }) d
              refl)))
