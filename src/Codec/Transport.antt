-- ===== src/Codec/Transport.antt =====
-- The `TcpStream` that src/codec.rs and src/client.rs read and write, and code that does so and may
-- fail. What was written or read before a failure stays so.
use fing.Base.{
  ℕ, ◌-◌, List, [], ◌∷◌, ◌++◌, Bool, Option, none, some, length, take, drop, leb, if◌then◌else◌,
}
use fing.Base.Text.{Bytes}
use fing.Error.{ErrorKind, from_io, Result, ok, err}

-- `incoming` is what the peer sends, and `ending` what `read_exact` reports past its last byte:
-- `unexpected_eof` when the peer has closed the connection, or another failure such as a timeout.
-- `sent` is what the peer was sent, a chunk for each `write_all`. `broken` is the failure of the
-- next writes: so many bytes are still accepted.
pub record Stream : Type 0 where
  pub incoming : Bytes
  pub ending : ErrorKind
  pub sent : List Bytes
  pub broken : Option (ℕ × ErrorKind)
  pub nodelay : Bool
  pub read_timeout : Option ℕ
  pub write_timeout : Option ℕ

abbrev pub Io : Type 0 → Type 0 → Type 0
Io C A = Stream → Result C A × Stream

module _ {C : Type 0} where
  abbrev pub pure : {A : Type 0} → A → Io C A
  pure a s = (ok a, s)

  abbrev pub lift : {A : Type 0} → Result C A → Io C A
  lift r s = (r, s)

  abbrev pub continue : {A B : Type 0} → Result C A → (A → Io C B) → Stream → Result C B × Stream
  continue (ok a) f s = f a s
  continue (err e) f s = (err e, s)

  infixl 5 ◌>>=◌
  abbrev pub ◌>>=◌ : {A B : Type 0} → Io C A → (A → Io C B) → Io C B
  ◌>>=◌ m f s = continue (m s).0 f (m s).1

  abbrev pub write_broken : Bytes → Stream → Option (ℕ × ErrorKind) → Result C (Unit {0}) × Stream
  write_broken bytes s none = (ok tt, record s { sent = s.sent ++ (bytes ∷ []) })
  write_broken bytes s (some (room, kind)) =
      if leb (length bytes) room
      then (
        ok tt,
        record s { sent = s.sent ++ (bytes ∷ []); broken = some (room - length bytes, kind) },
      )
      else (
        err (from_io kind),
        record s { sent = s.sent ++ (take room bytes ∷ []); broken = some (0, kind) },
      )

  -- `write_all(..)?`
  unfoldable pub write_all : Bytes → Io C (Unit {0})
  write_all bytes s = write_broken bytes s s.broken

  -- `read_exact(..)?` into a buffer of `n` bytes
  unfoldable pub read_exact : ℕ → Io C Bytes
  read_exact n s =
      if leb n (length s.incoming)
      then (ok (take n s.incoming), record s { incoming = drop n s.incoming })
      else (err (from_io s.ending), record s { incoming = [] })
