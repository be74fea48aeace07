-- ===== src/Client/Taken.antt =====
-- An operation of src/client.rs that takes the response at the front of its stream.
use fing.Base.{◌≤◌, [], ◌∷◌, ◌++◌, none, ◌≡◌, sym, ◌∙◌, subst, arith, length, append_assoc}
use fing.Base.Text.{Text, Bytes}
use fing.Error.{ok}
use fing.Protocol
use fing.Protocol.{CommandWithArgs, Response}
use fing.Codec.{coded, Cbor, max_request_bytes, max_response_bytes}
use fing.Codec.Transport.{Stream}
use fing.Codec.BigEndian.{to_be_bytes, from_be_bytes-to_be_bytes, length-to_be_bytes}
use fing.Codec.Frames.{framed}
use fing.Codec.Exchange.{Reads, quiet, answered, whole, sent}
use fing.Client.{Client}
use fing.Client.Wire.{Operation}
use fing.Client.Exchanges.{request_of, run, IsReady, refusal, meaning, settle}
use fing.Client.Complete.{run-Exchanges}

-- The client that has sent `bytes` and read up to `rest`.
abbrev pub taken : Bytes → Bytes → Client → Client
taken bytes rest c = record c {
  stream = record (c.stream) { incoming = rest; sent = c.stream.sent ++ (bytes ∷ []) };
}

module _ (cbor : Cbor) where
  open cbor use {CborError, to_vec, from_slice}

  -- A request that is sent whole.
  abbrev pub IsSent : CommandWithArgs → Bytes → Type 0
  IsSent command bytes = (to_vec command ≡ coded bytes) × (length bytes ≤ max_request_bytes)

  -- A body that holds a response; the empty one is a quiet acknowledgement.
  abbrev pub Holds : Bytes → Response → Type 0
  Holds [] r = r ≡ Protocol.quiet_ok
  Holds (b ∷ bs) r = (length (b ∷ bs) ≤ max_response_bytes) × (from_slice (b ∷ bs) ≡ coded r)

  Reads-framed :
      (body rest : Bytes) (r : Response) (s : Stream)
      → Holds body r
      → s.incoming ≡ framed body ++ rest
      → Reads cbor s (ok r) (record s { incoming = rest })
  unfolding framed
  Reads-framed [] rest r s h e =
      subst (λ (q : Response). Reads cbor s (ok q) (record s { incoming = rest })) (sym h)
        (quiet (to_be_bytes 0) rest (length-to_be_bytes 0)
          (e ∙ append_assoc (to_be_bytes 0) [] rest) (from_be_bytes-to_be_bytes 0 (omega arith)))
  Reads-framed (b ∷ bs) rest r s (hi, d) e =
      answered (to_be_bytes (length (b ∷ bs))) (b ∷ bs) rest r
        (length-to_be_bytes (length (b ∷ bs)))
        (e ∙ append_assoc (to_be_bytes (length (b ∷ bs))) (b ∷ bs) rest)
        (from_be_bytes-to_be_bytes (length (b ∷ bs)) (omega arith)) (omega arith) hi d

module _ (cbor : Cbor) (debug : Response → Text) where
  open cbor use {CborError}

  -- The operation gives what that response means to it.
  pub takes :
      (op : Operation) (c : Client) (bytes body rest : Bytes) (r : Response)
      → IsReady cbor debug op c
      → IsSent cbor (request_of op) bytes
      → c.stream.broken ≡ none
      → Holds cbor body r
      → c.stream.incoming ≡ framed body ++ rest
      → run cbor debug op c ≡ (
        meaning cbor debug op r,
        settle cbor debug op (refusal cbor debug r) (taken bytes rest c),
      )
  takes op c bytes body rest r ready (e, fits) b h i =
      run-Exchanges cbor debug op c (ok r) _ ready
        (sent _ _ _ (whole bytes e fits b) (Reads-framed cbor body rest r _ h i))
