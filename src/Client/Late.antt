-- ===== src/Client/Late.antt =====
-- A client of src/client.rs behind a read timeout, and the response that it gave up.
use fing.Base.{ℕ, [], ◌∷◌, ◌++◌, none, ◌≡◌, refl, ap, ◌∙◌, arith}
use fing.Base.Text.{Text, Bytes}
use fing.Error.{ErrorKind, other_kind, io, from_io, err}
use fing.Protocol.{Response}
use fing.Codec.{Cbor}
use fing.Codec.Frames.{framed}
use fing.Codec.Exchange.{no_length, whole, sent}
use fing.Client.{Client}
use fing.Client.Wire.{Operation}
use fing.Client.Exchanges.{request_of, run, IsReady, refusal, meaning, settle}
use fing.Client.Complete.{run-Exchanges}
use fing.Client.Taken.{taken, IsSent, Holds, takes}

-- The client that has sent `bytes` and given up on the response.
abbrev pub timed_out : Bytes → Client → Client
timed_out bytes c = record c {
  stream = record (c.stream) { incoming = []; sent = c.stream.sent ++ (bytes ∷ []) };
}

-- Bytes that arrive between two operations.
abbrev pub arriving : Bytes → Client → Client
arriving bytes c = record c { stream = record (c.stream) { incoming = bytes } }

module _ (cbor : Cbor) (debug : Response → Text) where
  open cbor use {CborError, to_vec, from_slice}

  gives_up :
      (op : Operation) (c : Client) (bytes : Bytes)
      → IsReady cbor debug op c
      → IsSent cbor (request_of op) bytes
      → c.stream.broken ≡ none
      → c.stream.incoming ≡ []
      → run cbor debug op c ≡ (err (from_io c.stream.ending), timed_out bytes c)
  gives_up op c bytes ready (e, fits) b i =
      run-Exchanges cbor debug op c (err (from_io c.stream.ending)) _ ready
        (sent _ _ _ (whole bytes e fits b) (no_length (rw i (omega arith))))

  -- An operation whose read times out before the first byte gives that error. When its response
  -- arrives after all, the next operation takes it for its own: it gives what that response means
  -- to it, records what that says, and leaves the answer to its own request to the one behind it.
  pub run_late :
      (op₁ op₂ : Operation) (c : Client) (kind : ℕ) (q₁ q₂ body rest : Bytes) (r : Response)
      → IsReady cbor debug op₁ c
      → IsSent cbor (request_of op₁) q₁
      → c.stream.broken ≡ none
      → c.stream.incoming ≡ []
      → c.stream.ending ≡ other_kind kind
      → IsReady cbor debug op₂ (arriving (framed body ++ rest) (timed_out q₁ c))
      → IsSent cbor (request_of op₂) q₂
      → Holds cbor body r
      → (run cbor debug op₁ c ≡ (err (io (other_kind kind)), timed_out q₁ c))
        × (run cbor debug op₂ (arriving (framed body ++ rest) (timed_out q₁ c)) ≡ (
          meaning cbor debug op₂ r,
          settle cbor debug op₂ (refusal cbor debug r) (taken q₂ rest (timed_out q₁ c)),
        ))
  unfolding from_io
  run_late op₁ op₂ c kind q₁ q₂ body rest r ready₁ sent₁ b i t ready₂ sent₂ h = (
    gives_up op₁ c q₁ ready₁ sent₁ b i
        ∙ ap (λ (k : ErrorKind). (err (from_io k), timed_out q₁ c)) t,
    takes cbor debug op₂ (arriving (framed body ++ rest) (timed_out q₁ c)) q₂ body rest r ready₂
        sent₂ b h refl,
  )
