-- ===== src/Sql/Arms.antt =====
-- A round of the loop in `scan` of src/sql.rs reads one token.
use fing.Base.{ℕ, [], ◌∷◌, ◌++◌, true, false, ◌≡◌, ◌≢◌, ◌⊎◌, refl, arith, All}
use fing.Base.Text.{Bytes}
use fing.Sql.Lexer.{
  begins, skip_line, skip_block, skip_string, skip_ident, is_word_byte, word_of, skip_word, Lexeme,
  blank, terminator, mark, word, arm, arm_at,
}
use fing.Sql.Tokens.{
  Token, space, line_comment, block_comment, semicolon, quoted, quoted_ident, open_block,
  open_string, open_ident, bare, other, double_quotes, first_byte, more_bytes, is_unclosed,
  starts_word, EndsWord, Fits,
}

abbrev pub lexeme_of : Token → Lexeme
lexeme_of (space c) = blank
lexeme_of (line_comment body) = blank
lexeme_of (block_comment body) = blank
lexeme_of semicolon = terminator
lexeme_of (quoted body) = mark
lexeme_of (quoted_ident body) = mark
lexeme_of (open_block body) = blank
lexeme_of (open_string body) = mark
lexeme_of (open_ident body) = mark
lexeme_of (bare c cs) = word (c ∷ cs)
lexeme_of (other c) = mark

skip_line-append :
    (body next : Bytes)
    → All (λ b. b ≢ b'\n') body
    → (next ≡ []) ⊎ (begins b'\n' next ≡ true)
    → skip_line (body ++ next) ≡ next
unfolding skip_line
skip_line-append [] [] h e = refl
skip_line-append [] (c ∷ next) h e = ground arith
skip_line-append (b ∷ bs) next h e = ground (arith, skip_line-append bs next h.1 e, h.0)

begins-append : (c : ℕ) (bs next : Bytes) → bs ≢ [] → begins c (bs ++ next) ≡ begins c bs
begins-append c [] next h = absurd (h refl)
begins-append c (b ∷ bs) next h = refl

skip_block-append :
    (body next : Bytes)
    → is_unclosed body ≡ true
    → skip_block ((body ++ (b'*' ∷ b'/' ∷ [])) ++ next) ≡ next
unfolding skip_block
skip_block-append [] next h = refl
skip_block-append (b ∷ []) next h = ground arith
skip_block-append (b ∷ c ∷ bs) next h = ground (arith, skip_block-append (c ∷ bs) next)

skip_string-append :
    (body next : Bytes)
    → begins b'\'' next ≡ false
    → skip_string false ((double_quotes body ++ (b'\'' ∷ [])) ++ next) ≡ next
unfolding skip_string
skip_string-append [] next h = ground arith
skip_string-append (b ∷ bs) next h = ground (arith, skip_string-append bs next h)

skip_ident-append :
    (body next : Bytes)
    → All (λ b. b ≢ b'"') body
    → skip_ident ((body ++ (b'"' ∷ [])) ++ next) ≡ next
unfolding skip_ident
skip_ident-append [] next h = refl
skip_ident-append (b ∷ bs) next h = ground (arith, skip_ident-append bs next h.1, h.0)

skip_block-open : (body : Bytes) → is_unclosed body ≡ true → skip_block (body ++ []) ≡ []
unfolding skip_block
skip_block-open [] h = refl
skip_block-open (b ∷ []) h = ground arith
skip_block-open (b ∷ c ∷ bs) h = ground (arith, skip_block-open (c ∷ bs))

skip_string-open : (body : Bytes) → skip_string false (double_quotes body ++ []) ≡ []
unfolding skip_string
skip_string-open [] = refl
skip_string-open (b ∷ []) = ground arith
skip_string-open (b ∷ c ∷ bs) = ground (arith, skip_string-open (c ∷ bs))

skip_ident-open : (body : Bytes) → All (λ b. b ≢ b'"') body → skip_ident (body ++ []) ≡ []
unfolding skip_ident
skip_ident-open [] h = refl
skip_ident-open (b ∷ bs) h = ground (arith, skip_ident-open bs h.1, h.0)

word_of-append :
    (cs next : Bytes)
    → All (λ b. is_word_byte b ≡ true) cs
    → EndsWord next
    → (word_of (cs ++ next) ≡ cs) × (skip_word (cs ++ next) ≡ next)
unfolding word_of skip_word
word_of-append [] [] h e = (refl, refl)
word_of-append [] (c ∷ next) h e = ground arith
word_of-append (c ∷ cs) next h e = ground (arith, word_of-append cs next h.1 e, h.0)

starts_word-is_word_byte : (c : ℕ) → starts_word c ≡ true → is_word_byte c ≡ true
unfolding is_word_byte
starts_word-is_word_byte c h = ground arith

-- A round of the loop at the start of a token reads that token.
pub arm_at-token :
    (t : Token) (next : Bytes)
    → Fits t next
    → arm_at (first_byte t) (more_bytes t ++ next) ≡ arm (lexeme_of t) next
unfolding arm_at
arm_at-token (space c) next h = ground (arith)
arm_at-token (line_comment body) next h = ground (arith, skip_line-append body next h.0 h.1)
arm_at-token (block_comment body) next h = ground (arith, skip_block-append body next h)
arm_at-token semicolon next h = refl
arm_at-token (quoted body) next h = ground (arith, skip_string-append body next h)
arm_at-token (quoted_ident body) next h = ground (arith, skip_ident-append body next h)
arm_at-token (open_block body) next (h, e) = rw e (ground (arith, skip_block-open body h))
arm_at-token (open_string body) next e = rw e (ground (arith, skip_string-open body))
arm_at-token (open_ident body) next (h, e) = rw e (ground (arith, skip_ident-open body h))
arm_at-token (bare c cs) next h =
    ground (arith, word_of-append cs next h.1 h.2, starts_word-is_word_byte c h.0)
arm_at-token (other c) next h = ground arith
