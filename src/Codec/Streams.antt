-- ===== src/Codec/Streams.antt =====
-- How src/codec.rs leaves a stream: what it takes of the bytes that arrive, what it adds to those
-- that were sent, and what it does not touch.
use fing.Base.{
  ℕ, ◌-◌, ◌+◌, ◌≤◌, List, [], ◌∷◌, ◌++◌, Option, none, some, ◌≡◌, inl, inr, refl, sym, ap, ◌∙◌,
  arith, length, length-append, take, drop, take-append-drop, append-nil, append_assoc, leb, ltb,
  ◌==◌, Bool-cases,
}
use fing.Base.Text.{Bytes}
use fing.Error.{ErrorKind, response_too_large, Result, ok, err}
use fing.Protocol.{CommandWithArgs, quiet_ok}
use fing.Codec.{Cbor, max_response_bytes, encode_request, write_request, read_body, read_response}
use fing.Codec.Transport.{Stream, Io, lift, continue, ◌>>=◌, write_broken, write_all, read_exact}
use fing.Codec.BigEndian.{from_be_bytes}

-- The stream `s'` comes of `s` by reads from the front and at most `n` writes at the back.
pub record Continues (n : ℕ) (s s' : Stream) : Type 0 where
  pub nodelay : s'.nodelay ≡ s.nodelay
  pub read_timeout : s'.read_timeout ≡ s.read_timeout
  pub write_timeout : s'.write_timeout ≡ s.write_timeout
  pub ending : s'.ending ≡ s.ending
  pub taken : Bytes
  pub reads : s.incoming ≡ taken ++ s'.incoming
  pub added : List Bytes
  pub writes : s'.sent ≡ s.sent ++ added
  pub few : length added ≤ n

pub Continues-refl : (s : Stream) → Continues 0 s s
Continues-refl s = record {
  nodelay = refl;
  read_timeout = refl;
  write_timeout = refl;
  ending = refl;
  taken = [];
  reads = refl;
  added = [];
  writes = sym (append-nil s.sent);
  few = omega arith;
}

pub Continues-trans :
    (m n : ℕ) {r s t : Stream} → Continues m r s → Continues n s t → Continues (m + n) r t
Continues-trans m n {r} {t = t} h k = record {
  nodelay = k.nodelay ∙ h.nodelay;
  read_timeout = k.read_timeout ∙ h.read_timeout;
  write_timeout = k.write_timeout ∙ h.write_timeout;
  ending = k.ending ∙ h.ending;
  taken = h.taken ++ k.taken;
  reads = h.reads ∙ ap (◌++◌ h.taken) k.reads ∙ sym (append_assoc h.taken k.taken t.incoming);
  added = h.added ++ k.added;
  writes = k.writes ∙ ap (λ c. c ++ k.added) h.writes ∙ append_assoc r.sent h.added k.added;
  few = omega (arith, length-append h.added k.added, h.few, k.few);
}

pub Continues-more : (m n : ℕ) {s t : Stream} → m ≤ n → Continues m s t → Continues n s t
Continues-more m n l h = record {
  nodelay = h.nodelay;
  read_timeout = h.read_timeout;
  write_timeout = h.write_timeout;
  ending = h.ending;
  taken = h.taken;
  reads = h.reads;
  added = h.added;
  writes = h.writes;
  few = omega (arith, l, h.few);
}

writes_one :
    (s : Stream) (chunk : Bytes) (b : Option (ℕ × ErrorKind))
    → Continues 1 s (record s { sent = s.sent ++ (chunk ∷ []); broken = b })
writes_one s chunk b = record {
  nodelay = refl;
  read_timeout = refl;
  write_timeout = refl;
  ending = refl;
  taken = [];
  reads = refl;
  added = chunk ∷ [];
  writes = refl;
  few = omega arith;
}

takes :
    (s : Stream) (front back : Bytes)
    → s.incoming ≡ front ++ back
    → Continues 0 s (record s { incoming = back })
takes s front back e = record {
  nodelay = refl;
  read_timeout = refl;
  write_timeout = refl;
  ending = refl;
  taken = front;
  reads = e;
  added = [];
  writes = sym (append-nil s.sent);
  few = omega arith;
}

-- Code on a stream that goes on from every stream so.
pub record Goes (n : ℕ) {C A : Type 0} (m : Io C A) : Type 0 where
  pub at : (s : Stream) → Continues n s (m s).1

module _ (C : Type 0) where
  Goes-lift : {A : Type 0} (r : Result C A) → Goes 0 (lift r)
  Goes-lift r = record { at = Continues-refl }

  Goes-continue :
      {A B : Type 0} (n : ℕ) (r : Result C A) (f : A → Io C B)
      → ((a : A) → Goes n (f a))
      → Goes n (continue r f)
  Goes-continue n (ok a) f h = h a
  Goes-continue n (err e) f h = record {
    at = λ s. Continues-more 0 n (omega arith) (Continues-refl s);
  }

  Goes-bind :
      {A B : Type 0} (n k : ℕ) (m : Io C A) (f : A → Io C B)
      → Goes n m
      → ((a : A) → Goes k (f a))
      → Goes (n + k) (m >>= f)
  Goes-bind n k m f h g = record {
    at = λ s. Continues-trans n k (h.at s) ((Goes-continue k (m s).0 f g).at (m s).1);
  }

  Goes-write_broken :
      (bytes : Bytes) (s : Stream) (b : Option (ℕ × ErrorKind))
      → s.broken ≡ b
      → Continues 1 s (write_broken {C = C} bytes s b).1
  Goes-write_broken bytes s none e = writes_one s bytes s.broken
  Goes-write_broken bytes s (some (room, kind)) e = elim (Bool-cases (leb (length bytes) room)) [
    | inl fits ↦ rw fits (writes_one s bytes (some (room - length bytes, kind)))
    | inr cut ↦ rw cut (writes_one s (take room bytes) (some (0, kind)))
  ]

  Goes-write_all : (bytes : Bytes) → Goes 1 (write_all {C = C} bytes)
  unfolding write_all
  Goes-write_all bytes = record { at = λ s. Goes-write_broken bytes s s.broken refl }

  Goes-read_exact : (n : ℕ) → Goes 0 (read_exact {C = C} n)
  unfolding read_exact
  Goes-read_exact n = record { at = at_length }
    where
      at_length : (s : Stream) → Continues 0 s (read_exact {C = C} n s).1
      at_length s = elim (Bool-cases (leb n (length s.incoming))) [
        | inl enough ↦
            rw enough (
              takes s (take n s.incoming) (drop n s.incoming) (sym (take-append-drop n s.incoming)))
        | inr short ↦ rw short (takes s s.incoming [] (sym (append-nil s.incoming)))
      ]

module _ (cbor : Cbor) where
  open cbor use {CborError, to_vec, from_slice}

  Goes-read_body : (n : ℕ) → Goes 0 (read_body cbor n)
  Goes-read_body n = elim (Bool-cases (n == 0)) [
    | inl nil ↦ rw nil (Goes-lift CborError (ok quiet_ok))
    | inr more ↦ elim (Bool-cases (ltb max_response_bytes n)) [
      | inl large ↦
          rw (more, large) (Goes-lift CborError (err (response_too_large n max_response_bytes)))
      | inr fits ↦
          rw (more, fits)
            (Goes-bind CborError 0 0 (read_exact n) _ (Goes-read_exact CborError n)
              (λ body. Goes-lift CborError _))
    ]
  ]

  pub Goes-read_response : Goes 0 (read_response cbor)
  unfolding read_response
  Goes-read_response =
      Goes-bind CborError 0 0 (read_exact 8) _ (Goes-read_exact CborError 8)
        (λ size. Goes-read_body (from_be_bytes size))

  -- A request and the reading of its response: at most one chunk is sent.
  pub Goes-round_trip :
      (command : CommandWithArgs) → Goes 1 (write_request cbor command >>= λ _. read_response cbor)
  unfolding write_request
  Goes-round_trip command =
      Goes-bind CborError 1 0 (write_request cbor command) _
        (Goes-bind CborError 0 1 (lift (encode_request cbor command)) write_all
          (Goes-lift CborError (encode_request cbor command)) (Goes-write_all CborError))
        (λ _. Goes-read_response)
