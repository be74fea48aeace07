-- ===== src/Codec/Requests.antt =====
-- `write_request` of src/codec.rs: what reaches the wire.
use fing.Base.{
  ℕ, ◌≤◌, ◌<◌, List, [], ◌∷◌, ◌++◌, true, false, Option, none, some, ◌≡◌, inl, inr, refl, sym, ap,
  ◌∙◌, arith, length, take, All, subst, leb, ltb, ◌==◌, Bool-cases,
}
use fing.Base.Text.{Bytes}
use fing.Error.{ErrorKind, request_too_large, Result, ok, err, ◌>>=◌ as ◌R>>=◌}
use fing.Protocol.{CommandWithArgs}
use fing.Codec.{
  Coded, coded, failed, Cbor, max_request_bytes, max_response_bytes, read_body, map_encode,
  within_limit, encode_request, write_request, read_response,
}
use fing.Codec.BigEndian.{from_be_bytes}
use fing.Codec.Transport.{Stream, Io, ◌>>=◌, continue, write_all, write_broken, read_exact}

take_all : (bs : Bytes) → take (length bs) bs ≡ bs
take_all [] = refl
take_all (b ∷ bs) = ap (◌∷◌ b) (take_all bs)

module _ (P : Bytes → Type 0) where
  All-concat : (xs : List Bytes) (x : Bytes) → All P xs → P x → All P (xs ++ (x ∷ []))
  All-concat [] x h p = (p, tt)
  All-concat (y ∷ xs) x h p = (h.0, All-concat xs x h.1 p)

  write_broken-All :
      (C : Type 0) (bytes : Bytes) (s : Stream) (b : Option (ℕ × ErrorKind))
      → ((n : ℕ) → P (take n bytes))
      → All P s.sent
      → All P (write_broken {C = C} bytes s b).1.sent
  write_broken-All C bytes s none p h =
      All-concat s.sent bytes h (subst P (take_all bytes) (p (length bytes)))
  write_broken-All C bytes s (some (room, kind)) p h = elim (Bool-cases (leb (length bytes) room)) [
    | inl fits ↦ rw fits (All-concat s.sent bytes h (subst P (take_all bytes) (p (length bytes))))
    | inr cut ↦ rw cut (All-concat s.sent (take room bytes) h (p room))
  ]

read_exact-sent : (C : Type 0) (n : ℕ) (s : Stream) → (read_exact {C = C} n s).1.sent ≡ s.sent
unfolding read_exact
read_exact-sent C n s = ground arith

continue-sent :
    {C A B : Type 0} (r : Result C A) (f : A → Io C B) (s : Stream)
    → ((a : A) → (f a s).1.sent ≡ s.sent)
    → (continue r f s).1.sent ≡ s.sent
continue-sent (ok a) f s h = h a
continue-sent (err e) f s h = refl

module _ (cbor : Cbor) where
  open cbor use {CborError, to_vec, from_slice}

  read_body-sent : (n : ℕ) (s : Stream) → (read_body cbor n s).1.sent ≡ s.sent
  read_body-sent n s = elim (Bool-cases (n == 0)) [
    | inl nil ↦ rw nil
    | inr more ↦ elim (Bool-cases (ltb max_response_bytes n)) [
      | inl large ↦ rw (more, large)
      | inr fits ↦
          rw (more, fits)
            (continue-sent (read_exact n s).0 _ (read_exact n s).1 (λ body. refl)
              ∙ read_exact-sent CborError n s)
    ]
  ]

  -- Reading sends nothing.
  read_response-sent : (s : Stream) → (read_response cbor s).1.sent ≡ s.sent
  unfolding read_response
  read_response-sent s =
      continue-sent (read_exact 8 s).0 _ (read_exact 8 s).1
        (λ size. read_body-sent (from_be_bytes size) (read_exact 8 s).1)
      ∙ read_exact-sent CborError 8 s

  -- What a command may put on the wire: its encoding, of at most 1024 bytes, or the beginning of
  -- that where the write fails half way.
  pub record IsEncoding (command : CommandWithArgs) (chunk : Bytes) : Type 0 where
    pub bytes : Bytes
    pub room : ℕ
    pub encodes : to_vec command ≡ coded bytes
    pub fits : length bytes ≤ max_request_bytes
    pub begins : chunk ≡ take room bytes

  send_coded :
      (command : CommandWithArgs) (P : Bytes → Type 0) (r : Coded CborError Bytes) (s : Stream)
      → to_vec command ≡ r
      → ((chunk : Bytes) → IsEncoding command chunk → P chunk)
      → All P s.sent
      → All P (continue (map_encode cbor r R>>= within_limit cbor) write_all s).1.sent
  unfolding write_all
  send_coded command P (failed e) s c p h = h
  send_coded command P (coded bytes) s c p h =
      elim (Bool-cases (ltb max_request_bytes (length bytes))) [
        | inl large ↦ rw large h
        | inr small ↦ rw small (
            write_broken-All P CborError bytes s s.broken
              (λ n. p (take n bytes) (record {
                bytes = bytes;
                room = n;
                encodes = c;
                fits = ground arith;
                begins = refl;
              }))
              h)
      ]

  -- One request: all that is sent stays within what holds of the encodings of its command.
  pub round_trip-All :
      (P : Bytes → Type 0) (command : CommandWithArgs) (s : Stream)
      → ((chunk : Bytes) → IsEncoding command chunk → P chunk)
      → All P s.sent
      → All P ((write_request cbor command >>= λ _. read_response cbor) s).1.sent
  unfolding write_request encode_request
  round_trip-All P command s p h =
      subst (All P)
        (sym (
          continue-sent (write_request cbor command s).0 _ (write_request cbor command s).1
            (λ _. read_response-sent (write_request cbor command s).1)))
        (send_coded command P (to_vec command) s refl p h)

  -- A command that encodes within the limit is sent as one chunk, where the stream takes it.
  pub round_trip-sends :
      (command : CommandWithArgs) (bytes : Bytes) (s : Stream)
      → to_vec command ≡ coded bytes
      → length bytes ≤ max_request_bytes
      → s.broken ≡ none
      → (write_request cbor command >>= λ _. read_response cbor) s
        ≡ read_response cbor (record s { sent = s.sent ++ (bytes ∷ []) })
  unfolding write_request encode_request write_all
  round_trip-sends command bytes s e h b = rw (e, small) (simp b)
    where
      small : ltb max_request_bytes (length bytes) ≡ false
      small = ground arith

  -- A command that does not encode within the limit is refused with its size, and the stream is
  -- left as it is: nothing is sent, and no response is awaited.
  pub round_trip_too_large :
      (command : CommandWithArgs) (bytes : Bytes) (s : Stream)
      → to_vec command ≡ coded bytes
      → max_request_bytes < length bytes
      → (write_request cbor command >>= λ _. read_response cbor) s
        ≡ (err (request_too_large (length bytes) max_request_bytes), s)
  unfolding write_request encode_request
  round_trip_too_large command bytes s e h = rw (e, large)
    where
      large : ltb max_request_bytes (length bytes) ≡ true
      large = ground arith
