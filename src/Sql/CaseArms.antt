-- ===== src/Sql/CaseArms.antt =====
-- The rounds of the loop of `scan` in src/sql.rs, on a text and on the same text in upper case.
use fing.Base.{
  ℕ, ◌<◌, [], ◌∷◌, Bool, true, false, ◌&&◌, ◌≡◌, ◌⊎◌, inl, inr, refl, ap, arith, Bool-cases, leb,
  ◌==◌,
}
use fing.Base.Text.{
  Bytes, is_ascii_digit, is_ascii_alphanumeric, is_ascii_whitespace, to_ascii_upper,
  to_ascii_uppercase,
}
use fing.Sql.Lexer.{
  begins, tail_of, skip_line, skip_block, skip_string, skip_ident, is_word_byte, word_of, skip_word,
  Lexeme, word, Arm, arm, arm_at,
}

-- A character that is no letter.
abbrev NoLetter : ℕ → Type 0
NoLetter k = (k < b'A') ⊎ ((b'Z' < k) × (k < b'a'))

upper_eq : (b k : ℕ) → NoLetter k → (to_ascii_upper b == k) ≡ (b == k)
unfolding to_ascii_upper
upper_eq b k h = ground arith

begins-upper : (k : ℕ) (bs : Bytes) → NoLetter k → begins k (to_ascii_uppercase bs) ≡ begins k bs
begins-upper k [] h = refl
begins-upper k (b ∷ bs) h = upper_eq b k h

tail_of-upper : (bs : Bytes) → tail_of (to_ascii_uppercase bs) ≡ to_ascii_uppercase (tail_of bs)
tail_of-upper [] = refl
tail_of-upper (b ∷ bs) = refl

alphanumeric-upper : (b : ℕ) → is_ascii_alphanumeric (to_ascii_upper b) ≡ is_ascii_alphanumeric b
unfolding to_ascii_upper is_ascii_alphanumeric is_ascii_digit
alphanumeric-upper b = ground arith

whitespace-upper : (b : ℕ) → is_ascii_whitespace (to_ascii_upper b) ≡ is_ascii_whitespace b
unfolding to_ascii_upper is_ascii_whitespace
whitespace-upper b = ground arith

high_byte-upper : (b : ℕ) → leb 0x80 (to_ascii_upper b) ≡ leb 0x80 b
unfolding to_ascii_upper
high_byte-upper b = ground arith

word_byte-upper : (b : ℕ) → is_word_byte (to_ascii_upper b) ≡ is_word_byte b
unfolding is_word_byte
word_byte-upper b =
    rw (alphanumeric-upper b, upper_eq b b'_' (inr (omega arith, omega arith)), high_byte-upper b)
      refl

line_feed : (b : ℕ) → (to_ascii_upper b == b'\n') ≡ (b == b'\n')
line_feed b = upper_eq b b'\n' (inl (omega arith))

quote : (b : ℕ) → (to_ascii_upper b == b'\'') ≡ (b == b'\'')
quote b = upper_eq b b'\'' (inl (omega arith))

double_quote : (b : ℕ) → (to_ascii_upper b == b'"') ≡ (b == b'"')
double_quote b = upper_eq b b'"' (inl (omega arith))

star : (b : ℕ) → (to_ascii_upper b == b'*') ≡ (b == b'*')
star b = upper_eq b b'*' (inl (omega arith))

skip_line-upper :
    (bs : Bytes) → skip_line (to_ascii_uppercase bs) ≡ to_ascii_uppercase (skip_line bs)
unfolding skip_line
skip_line-upper [] = refl
skip_line-upper (b ∷ bs) = elim (Bool-cases (b == b'\n')) [
  | inl ends ↦ rw (line_feed b, ends) refl
  | inr more ↦ rw (line_feed b, more) (skip_line-upper bs)
]

skip_block-upper :
    (bs : Bytes) → skip_block (to_ascii_uppercase bs) ≡ to_ascii_uppercase (skip_block bs)
unfolding skip_block
skip_block-upper [] = refl
skip_block-upper (b ∷ bs) = elim (Bool-cases (b == b'*' && begins b'/' bs)) [
  | inl ends ↦ rw (star b, begins-upper b'/' bs (inl (omega arith)), ends) (tail_of-upper bs)
  | inr more ↦ rw (star b, begins-upper b'/' bs (inl (omega arith)), more) (skip_block-upper bs)
]

skip_string-upper :
    (d : Bool) (bs : Bytes)
    → skip_string d (to_ascii_uppercase bs) ≡ to_ascii_uppercase (skip_string d bs)
unfolding skip_string
skip_string-upper d [] = refl
skip_string-upper true (b ∷ bs) = skip_string-upper false bs
skip_string-upper false (b ∷ bs) = elim (Bool-cases (b == b'\'')) [
  | inl ends ↦ elim (Bool-cases (begins b'\'' bs)) [
    | inl doubled ↦
        rw (quote b, begins-upper b'\'' bs (inl (omega arith)), ends, doubled)
          (skip_string-upper true bs)
    | inr alone ↦ rw (quote b, begins-upper b'\'' bs (inl (omega arith)), ends, alone) refl
  ]
  | inr more ↦ rw (quote b, more) (skip_string-upper false bs)
]

skip_ident-upper :
    (bs : Bytes) → skip_ident (to_ascii_uppercase bs) ≡ to_ascii_uppercase (skip_ident bs)
unfolding skip_ident
skip_ident-upper [] = refl
skip_ident-upper (b ∷ bs) = elim (Bool-cases (b == b'"')) [
  | inl ends ↦ rw (double_quote b, ends) refl
  | inr more ↦ rw (double_quote b, more) (skip_ident-upper bs)
]

word_of-upper : (bs : Bytes) → word_of (to_ascii_uppercase bs) ≡ to_ascii_uppercase (word_of bs)
unfolding word_of
word_of-upper [] = refl
word_of-upper (b ∷ bs) = elim (Bool-cases (is_word_byte b)) [
  | inl more ↦ rw (word_byte-upper b, more) (ap (◌∷◌ (to_ascii_upper b)) (word_of-upper bs))
  | inr ends ↦ rw (word_byte-upper b, ends) refl
]

skip_word-upper :
    (bs : Bytes) → skip_word (to_ascii_uppercase bs) ≡ to_ascii_uppercase (skip_word bs)
unfolding skip_word
skip_word-upper [] = refl
skip_word-upper (b ∷ bs) = elim (Bool-cases (is_word_byte b)) [
  | inl more ↦ rw (word_byte-upper b, more) (skip_word-upper bs)
  | inr ends ↦ rw (word_byte-upper b, ends) refl
]

-- What a round meets, in upper case.
abbrev pub lexeme_upper : Lexeme → Lexeme
lexeme_upper (word w) = word (to_ascii_uppercase w)
lexeme_upper l = l

abbrev pub arm_upper : Arm → Arm
arm_upper a = arm (lexeme_upper a.lexeme) (to_ascii_uppercase a.rest)

pub arm_at-upper :
    (b : ℕ) (bs : Bytes)
    → arm_at (to_ascii_upper b) (to_ascii_uppercase bs) ≡ arm_upper (arm_at b bs)
unfolding arm_at
arm_at-upper b bs =
    rw
      (
        upper_eq b b'-' (inl (omega arith)),
        upper_eq b b'/' (inl (omega arith)),
        upper_eq b b';' (inl (omega arith)),
        upper_eq b b'_' (inr (omega arith, omega arith)),
        quote b,
        double_quote b,
        begins-upper b'-' bs (inl (omega arith)),
        begins-upper b'*' bs (inl (omega arith)),
        whitespace-upper b,
        alphanumeric-upper b,
        tail_of-upper bs,
        skip_line-upper (tail_of bs),
        skip_block-upper (tail_of bs),
        skip_string-upper false bs,
        skip_ident-upper bs,
        high_byte-upper b,
        word_of-upper bs,
        skip_word-upper bs,
      )
      (ground arith)
