-- ===== src/Sql/Case.antt =====
-- The guard `inspect` of src/sql.rs does not depend on the case of letters.
use fing.Base.{
  ℕ, zero, suc, ◌+◌, ◌-◌, ◌*◌, ◌<◌, [], ◌∷◌, ◌++◌, true, false, ◌≡◌, inl, inr, refl, sym, ap, ◌∙◌,
  arith, Bool-cases, length, ltb,
}
use fing.Base.Text.{
  Text, Bytes, encode_utf8, as_bytes, decode_from, from_utf8, to_ascii_upper, to_ascii_uppercase,
}
use fing.Error.{Result, ok, err, ◌>>=◌}
use fing.Sql.Lexer.{Lexeme, blank, terminator, mark, word, arm_at, arm_at-le}
use fing.Sql.{Seen, apply, scan_from, unseen, scan, classify, inspect}
use fing.Sql.Loop.{scan_from-cons, scan_lem}
use fing.Sql.CaseArms.{lexeme_upper, arm_at-upper}

encode_utf8-upper : (c : ℕ) → encode_utf8 (to_ascii_upper c) ≡ to_ascii_uppercase (encode_utf8 c)
unfolding encode_utf8 to_ascii_upper
encode_utf8-upper c = ground arith

map-append_upper :
    (s t : Bytes) → to_ascii_uppercase (s ++ t) ≡ to_ascii_uppercase s ++ to_ascii_uppercase t
map-append_upper [] t = refl
map-append_upper (b ∷ s) t = ap (◌∷◌ (to_ascii_upper b)) (map-append_upper s t)

as_bytes-upper : (s : Text) → as_bytes (to_ascii_uppercase s) ≡ to_ascii_uppercase (as_bytes s)
unfolding as_bytes
as_bytes-upper [] = refl
as_bytes-upper (c ∷ s) =
    rw (encode_utf8-upper c, as_bytes-upper s) (sym (map-append_upper (encode_utf8 c) (as_bytes s)))

low_bits-upper : (b : ℕ) → to_ascii_upper b - 0x80 ≡ b - 0x80
unfolding to_ascii_upper
low_bits-upper b = ground arith

ascii-upper : (b : ℕ) → ltb b 0x80 ≡ true → ltb (to_ascii_upper b) 0x80 ≡ true
unfolding to_ascii_upper
ascii-upper b h = ground arith

upper_fixed : (b : ℕ) → ltb b 0x80 ≡ false → to_ascii_upper b ≡ b
unfolding to_ascii_upper
upper_fixed b h = ground arith

upper_twice : (b : ℕ) → to_ascii_upper (to_ascii_upper b) ≡ to_ascii_upper b
unfolding to_ascii_upper
upper_twice b = ground arith

-- Read as text, upper case makes no difference to what upper case makes of it.
decode_from-upper :
    (want acc : ℕ) (bs : Bytes)
    → to_ascii_uppercase (decode_from want acc (to_ascii_uppercase bs))
      ≡ to_ascii_uppercase (decode_from want acc bs)
unfolding decode_from
decode_from-upper want acc [] = refl
decode_from-upper zero acc (b ∷ bs) = elim (Bool-cases (ltb b 0x80)) [
  | inl ascii ↦
      rw (ascii, ascii-upper b ascii, upper_twice b)
        (ap (◌∷◌ (to_ascii_upper b)) (decode_from-upper 0 0 bs))
  | inr high ↦ elim (Bool-cases (ltb b 0xe0)) [
    | inl two ↦ rw (upper_fixed b high, high, two) (decode_from-upper 1 (b - 0xc0) bs)
    | inr longer ↦ elim (Bool-cases (ltb b 0xf0)) [
      | inl three ↦ rw (upper_fixed b high, high, longer, three) (decode_from-upper 2 (b - 0xe0) bs)
      | inr four ↦ rw (upper_fixed b high, high, longer, four) (decode_from-upper 3 (b - 0xf0) bs)
    ]
  ]
]
decode_from-upper (suc zero) acc (b ∷ bs) =
    rw (low_bits-upper b)
      (ap (◌∷◌ (to_ascii_upper (acc * 64 + (b - 0x80)))) (decode_from-upper 0 0 bs))
decode_from-upper (suc (suc want)) acc (b ∷ bs) =
    ap (λ low. to_ascii_uppercase (decode_from (suc want) (acc * 64 + low) (to_ascii_uppercase bs)))
      (low_bits-upper b)
    ∙ decode_from-upper (suc want) (acc * 64 + (b - 0x80)) bs

word-upper :
    (w : Bytes)
    → to_ascii_uppercase (from_utf8 (to_ascii_uppercase w)) ≡ to_ascii_uppercase (from_utf8 w)
unfolding from_utf8
word-upper w = decode_from-upper 0 0 w

module _ {C : Type 0} where
  apply-upper : (l : Lexeme) (s : Seen) → apply {C = C} (lexeme_upper l) s ≡ apply l s
  unfolding apply
  apply-upper blank s = refl
  apply-upper terminator s = refl
  apply-upper mark s = refl
  apply-upper (word w) s = rw (word-upper w) refl

  bind_eq :
      {A B : Type 0} (r : Result C A) (f g : A → Result C B)
      → ((a : A) → f a ≡ g a)
      → (r >>= f) ≡ (r >>= g)
  bind_eq (ok a) f g h = h a
  bind_eq (err e) f g h = refl

  scan_from-upper :
      (k : ℕ) (bs : Bytes) (s : Seen)
      → length bs < k
      → scan_from {C = C} (to_ascii_uppercase bs) s ≡ scan_from bs s
  scan_from-upper zero bs s h = elim h [ ]
  scan_from-upper (suc k) [] s h = refl
  scan_from-upper (suc k) (b ∷ bs) s h =
      scan_from-cons (to_ascii_upper b) (to_ascii_uppercase bs) s
      ∙ rw (arm_at-upper b bs, apply-upper (arm_at b bs).lexeme s)
          (bind_eq (apply (arm_at b bs).lexeme s) _ _
            (λ s'. scan_from-upper k (arm_at b bs).rest s' (omega (arith, arm_at-le b bs, h))))
      ∙ sym (scan_from-cons b bs s)

  scan-upper : (sql : Text) → scan {C = C} (to_ascii_uppercase sql) ≡ scan sql
  scan-upper sql =
      scan_lem (to_ascii_uppercase sql)
      ∙ ap (λ bs. scan_from bs unseen) (as_bytes-upper sql)
      ∙ scan_from-upper (suc (length (as_bytes sql))) (as_bytes sql) unseen (omega arith)
      ∙ sym (scan_lem sql)

  -- The guard answers the same for a text and for the text in upper case: it accepts both as the
  -- same kind of statement, or refuses both with the same error.
  pub inspect-upper : (sql : Text) → inspect {C = C} (to_ascii_uppercase sql) ≡ inspect sql
  unfolding inspect
  inspect-upper sql = ap (λ r. r >>= classify) (scan-upper sql)
