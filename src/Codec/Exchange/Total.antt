-- ===== src/Codec/Exchange/Total.antt =====
-- From src/codec.rs to the relations of `Codec.Exchange`.
use fing.Base.{
  ℕ, zero, suc, ◌⊎◌, ◌≤◌, ◌<◌, [], ◌∷◌, ◌++◌, Option, none, some, ◌≡◌, ◌↔◌, inl, inr, refl, sym, ap,
  ◌∙◌, arith, length, take, drop, take-append-drop, subst,
}
use fing.Base.Text.{Bytes}
use fing.Error.{Error, ErrorKind, Result, ok, err}
use fing.Protocol.{CommandWithArgs, Response}
use fing.Codec.{
  Coded, coded, failed, Cbor, max_request_bytes, max_response_bytes, write_request, read_response,
}
use fing.Codec.BigEndian.{from_be_bytes}
use fing.Codec.Transport.{Stream, ◌>>=◌}
use fing.Codec.Exchange.{
  Sends, not_encoded, too_large, whole, still_whole, broken_off, Reads, no_length, quiet, oversized,
  cut_short, undecodable, answered, Exchanges, unsent, sent,
}
use fing.Codec.Exchange.Sound.{round_trip-Exchanges}

length-take_le : (n : ℕ) (bs : Bytes) → n ≤ length bs → length (take n bs) ≡ n
length-take_le zero bs h = refl
length-take_le (suc n) [] h = absurd (omega arith)
length-take_le (suc n) (b ∷ bs) h = ap suc (length-take_le n bs (omega arith))

Broken-cases :
    (b : Option (ℕ × ErrorKind))
    → (b ≡ none) ⊎ ((room : ℕ) × (kind : ErrorKind) × (b ≡ some (room, kind)))
Broken-cases none = inl refl
Broken-cases (some (room, kind)) = inr (room, kind, refl)

le_or_lt : (m n : ℕ) → (m ≤ n) ⊎ (n < m)
le_or_lt m n = ground arith

zero_or_pos : (n : ℕ) → (n ≡ 0) ⊎ (0 < n)
zero_or_pos n = ground arith

module _ (cbor : Cbor) where
  open cbor use {CborError, to_vec, from_slice}

  Coded-cases :
      {A : Type 0} (r : Coded CborError A)
      → ((e : CborError) × (r ≡ failed e)) ⊎ ((a : A) × (r ≡ coded a))
  Coded-cases (failed e) = inl (e, refl)
  Coded-cases (coded a) = inr (a, refl)

  abbrev SendsSome : CommandWithArgs → Stream → Type 0
  SendsSome command s =
      ((e : Error CborError) × (s' : Stream) × Sends cbor command s (err e) s')
      ⊎ ((s' : Stream) × Sends cbor command s (ok tt) s')

  sends_coded :
      (command : CommandWithArgs) (s : Stream) (bytes : Bytes)
      → to_vec command ≡ coded bytes
      → length bytes ≤ max_request_bytes
      → SendsSome command s
  sends_coded command s bytes c small = elim (Broken-cases s.broken) [
    | inl b ↦ inr (_, whole bytes c small b)
    | inr (room, kind, b) ↦ elim (le_or_lt (length bytes) room) [
      | inl fits ↦ inr (_, still_whole bytes room kind c small b fits)
      | inr cut ↦ inl (_, _, broken_off bytes room kind c small b cut)
    ]
  ]

  sends_some : (command : CommandWithArgs) (s : Stream) → SendsSome command s
  sends_some command s = elim (Coded-cases (to_vec command)) [
    | inl (e, c) ↦ inl (_, _, not_encoded e c)
    | inr (bytes, c) ↦ elim (le_or_lt (length bytes) max_request_bytes) [
      | inl small ↦ sends_coded command s bytes c small
      | inr large ↦ inl (_, _, too_large bytes c large)
    ]
  ]

  abbrev ReadsSome : Stream → Type 0
  ReadsSome s = (q : Result CborError Response) × (s' : Stream) × Reads cbor s q s'

  reads_body :
      (s : Stream) (size more : Bytes)
      → length size ≡ 8
      → s.incoming ≡ size ++ more
      → 0 < from_be_bytes size
      → from_be_bytes size ≤ max_response_bytes
      → from_be_bytes size ≤ length more
      → ReadsSome s
  reads_body s size more l e lo hi all = elim (Coded-cases (from_slice (take n more))) [
    | inl (f, d) ↦ (
      _,
      _,
      undecodable size (take n more) (drop n more) f l whole_frame counted more_than_none within d,
    )
    | inr (r, d) ↦ (
      _,
      _,
      answered size (take n more) (drop n more) r l whole_frame counted more_than_none within d,
    )
  ]
    where
      n : ℕ
      n = from_be_bytes size

      whole_frame :
          s.incoming ≡ size ++ (take (from_be_bytes size) more ++ drop (from_be_bytes size) more)
      whole_frame =
          e ∙ ap (λ (x : Bytes). size ++ x) (sym (take-append-drop (from_be_bytes size) more))

      counted : from_be_bytes size ≡ length (take (from_be_bytes size) more)
      counted = sym (length-take_le (from_be_bytes size) more all)

      more_than_none : 0 < length (take (from_be_bytes size) more)
      more_than_none = omega (arith, length-take_le (from_be_bytes size) more all)

      within : length (take (from_be_bytes size) more) ≤ max_response_bytes
      within = omega (arith, length-take_le (from_be_bytes size) more all)

  reads_sized :
      (s : Stream) (size more : Bytes) → length size ≡ 8 → s.incoming ≡ size ++ more → ReadsSome s
  reads_sized s size more l e = elim (zero_or_pos (from_be_bytes size)) [
    | inl z ↦ (_, _, quiet size more l e z)
    | inr lo ↦ elim (le_or_lt (from_be_bytes size) max_response_bytes) [
      | inr large ↦ (_, _, oversized size more l e large)
      | inl hi ↦ elim (le_or_lt (from_be_bytes size) (length more)) [
        | inl all ↦ reads_body s size more l e lo hi all
        | inr cut ↦ (_, _, cut_short size more l e hi cut)
      ]
    ]
  ]

  reads_some : (s : Stream) → ReadsSome s
  reads_some s = elim (le_or_lt 8 (length s.incoming)) [
    | inr short ↦ (_, _, no_length short)
    | inl enough ↦
        reads_sized s (take 8 s.incoming) (drop 8 s.incoming) (length-take_le 8 s.incoming enough)
          (sym (take-append-drop 8 s.incoming))
  ]

  -- Every request comes to one of the exchanges.
  pub Exchanges-some :
      (command : CommandWithArgs) (s : Stream)
      → (q : Result CborError Response) × (s' : Stream) × Exchanges cbor command s q s'
  Exchanges-some command s = elim (sends_some command s) [
    | inl (e, s', x) ↦ (_, _, unsent e s' x)
    | inr (s', x) ↦ let (q, s'', y) = reads_some s' in (q, s'', sent s' q s'' x y)
  ]

  -- A request and its response come to exactly the exchanges of `Exchanges`, from any stream: each
  -- error stands for its own cause, and what is left to read and what has been sent are as the
  -- relation names them.
  pub round_trip_iff :
      (command : CommandWithArgs) (s s' : Stream) (q : Result CborError Response)
      → ((write_request cbor command >>= λ _. read_response cbor) s ≡ (q, s'))
        ↔ Exchanges cbor command s q s'
  round_trip_iff command s s' q = (
    λ e.
        let (q₀, s₀, x) = Exchanges-some command s in
        subst (λ (p : Result CborError Response × Stream). Exchanges cbor command s p.0 p.1)
          (sym (round_trip-Exchanges cbor command s s₀ q₀ x) ∙ e) x,
    round_trip-Exchanges cbor command s s' q,
  )
