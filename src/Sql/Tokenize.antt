-- ===== src/Sql/Tokenize.antt =====
-- The tokens of an arbitrary text that `scan` of src/sql.rs reads.
use fing.Base.{
  ℕ, zero, suc, ◌≤◌, List, [], ◌∷◌, ◌++◌, append-nil, length-append, Bool, true, false, ◌&&◌, ◌≡◌,
  inl, inr, refl, ap, sym, subst, ◌∙◌, arith, Bool-cases, length, ◌==◌,
}
use fing.Base.Text.{Bytes, is_ascii_whitespace}
use fing.Sql.Lexer.{begins}
use fing.Sql.Tokens.{
  Token, space, line_comment, block_comment, semicolon, quoted, quoted_ident, open_block,
  open_string, open_ident, bare, other, double_quotes, first_byte, more_bytes, write, starts_word,
  Fits, IsLexed,
}
use fing.Sql.Cuts.{cut_line, cut_block, cut_string, cut_ident, cut_word}

-- The first token of a text, and what stands behind it.
abbrev First : ℕ → Bytes → Type 0
First c bs =
    (t : Token) × (next : Bytes) × (c ∷ bs ≡ first_byte t ∷ (more_bytes t ++ next)) × Fits t next

first_line : (bs : Bytes) → First b'-' (b'-' ∷ bs)
first_line bs =
    let (body, next, e, h, f) = cut_line bs in
    (line_comment body, next, ap (λ (x : Bytes). b'-' ∷ b'-' ∷ x) e, (h, f))

first_block : (bs : Bytes) → First b'/' (b'*' ∷ bs)
first_block bs = elim (cut_block bs) [
  | inl (body, next, e, h) ↦ (block_comment body, next, ap (λ (x : Bytes). b'/' ∷ b'*' ∷ x) e, h)
  | inr h ↦
      (open_block bs, [], ap (λ (x : Bytes). b'/' ∷ b'*' ∷ x) (sym (append-nil bs)), (h, refl))
]

first_string : (bs : Bytes) → First b'\'' bs
first_string bs = elim (cut_string bs) [
  | inl (body, next, e, h) ↦ (quoted body, next, ap (◌∷◌ b'\'') e, h)
  | inr (body, e) ↦
      (open_string body, [], ap (◌∷◌ b'\'') (e ∙ sym (append-nil (double_quotes body))), refl)
]

first_ident : (bs : Bytes) → First b'"' bs
first_ident bs = elim (cut_ident bs) [
  | inl (body, next, e, h) ↦ (quoted_ident body, next, ap (◌∷◌ b'"') e, h)
  | inr h ↦ (open_ident bs, [], ap (◌∷◌ b'"') (sym (append-nil bs)), (h, refl))
]

first_word : (c : ℕ) (bs : Bytes) → starts_word c ≡ true → First c bs
first_word c bs h =
    let (cs, next, e, inside, ends) = cut_word bs in
    (bare c cs, next, ap (◌∷◌ c) e, (h, inside, ends))

begins-cons : (d : ℕ) (bs : Bytes) → begins d bs ≡ true → (rest : Bytes) × (bs ≡ d ∷ rest)
begins-cons d [] h = cc
begins-cons d (b ∷ bs) h = (bs, ap (λ (x : ℕ). x ∷ bs) (ground arith))

first_other :
    (c : ℕ) (bs : Bytes)
    → c == b';' ≡ false
    → c == b'\'' ≡ false
    → c == b'"' ≡ false
    → is_ascii_whitespace c ≡ false
    → starts_word c ≡ false
    → c == b'-' && begins b'-' bs ≡ false
    → c == b'/' && begins b'*' bs ≡ false
    → First c bs
first_other c bs semi quote ident white plain dash slash = (other c, bs, refl, ground arith)

and_split : (a b : Bool) → a && b ≡ true → (a ≡ true) × (b ≡ true)
and_split a b h = ground arith

eqb_eq : (d c : ℕ) → c == d ≡ true → d ≡ c
eqb_eq d c h = ground arith

first_dash : (c : ℕ) (bs : Bytes) → c == b'-' && begins b'-' bs ≡ true → First c bs
first_dash c bs h =
    let (dash, more) = and_split (c == b'-') (begins b'-' bs) h in
    let (rest, e) = begins-cons b'-' bs more in
    subst (First c) (sym e)
      (subst (λ (x : ℕ). First x (b'-' ∷ rest)) (eqb_eq b'-' c dash) (first_line rest))

first_slash : (c : ℕ) (bs : Bytes) → c == b'/' && begins b'*' bs ≡ true → First c bs
first_slash c bs h =
    let (slash, more) = and_split (c == b'/') (begins b'*' bs) h in
    let (rest, e) = begins-cons b'*' bs more in
    subst (First c) (sym e)
      (subst (λ (x : ℕ). First x (b'*' ∷ rest)) (eqb_eq b'/' c slash) (first_block rest))

first : (c : ℕ) (bs : Bytes) → First c bs
first c bs = elim (Bool-cases (c == b';')) [
  | inl semi ↦ subst (λ (x : ℕ). First x bs) (eqb_eq b';' c semi) (semicolon, bs, refl, tt)
  | inr semi ↦ elim (Bool-cases (c == b'\'')) [
    | inl quote ↦ subst (λ (x : ℕ). First x bs) (eqb_eq b'\'' c quote) (first_string bs)
    | inr quote ↦ elim (Bool-cases (c == b'"')) [
      | inl ident ↦ subst (λ (x : ℕ). First x bs) (eqb_eq b'"' c ident) (first_ident bs)
      | inr ident ↦ elim (Bool-cases (is_ascii_whitespace c)) [
        | inl blank ↦ (space c, bs, refl, blank)
        | inr blank ↦ elim (Bool-cases (starts_word c)) [
          | inl word ↦ first_word c bs word
          | inr word ↦ elim (Bool-cases (c == b'-' && begins b'-' bs)) [
            | inl line ↦ first_dash c bs line
            | inr dash ↦ elim (Bool-cases (c == b'/' && begins b'*' bs)) [
              | inl block ↦ first_slash c bs block
              | inr slash ↦ first_other c bs semi quote ident blank word dash slash
            ]
          ]
        ]
      ]
    ]
  ]
]

behind-lt :
    (c b n : ℕ) (bs more next : Bytes)
    → c ∷ bs ≡ b ∷ (more ++ next)
    → length (c ∷ bs) ≤ suc n
    → length next ≤ n
behind-lt c b n bs more next e h = omega (arith, length-append more next, ap length e)

abbrev pub Lexes : Bytes → Type 0
Lexes bs = (ts : List Token) × (bs ≡ write ts) × IsLexed ts

Lexes-cons : (c : ℕ) (bs : Bytes) (p : First c bs) → Lexes p.1 → Lexes (c ∷ bs)
Lexes-cons c bs (t, next, e, f) (ts, e', f') = (
  t ∷ ts,
  e ∙ ap (λ (x : Bytes). first_byte t ∷ (more_bytes t ++ x)) e',
  (subst (Fits t) e' f, f'),
)

lex : (n : ℕ) (bs : Bytes) → length bs ≤ n → Lexes bs
lex n [] h = ([], refl, tt)
lex zero (c ∷ bs) h = absurd (omega arith)
lex (suc n) (c ∷ bs) h =
    let p = first c bs in
    Lexes-cons c bs p (lex n p.1 (behind-lt c (first_byte p.0) n bs (more_bytes p.0) p.1 p.2 h))

-- Every text is a list of tokens.
pub lexes : (bs : Bytes) → Lexes bs
lexes bs = lex (length bs) bs (omega arith)
