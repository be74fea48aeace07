-- ===== src/Sql/Unique.antt =====
-- Two lists of tokens that write one text for src/sql.rs.
use mathlib.Core.List.{append_cancel_right}
use fing.Base.{ℕ, List, [], ◌∷◌, ◌++◌, true, false, ◌≡◌, ◌≢◌, refl, sym, ap, subst, ◌∙◌, arith, All}
use fing.Base.Text.{Bytes, is_ascii_whitespace, is_ascii_alphanumeric, is_ascii_digit}
use fing.Sql.Lexer.{arm, arm_at}
use fing.Sql.Tokens.{
  Token, space, line_comment, block_comment, semicolon, quoted, quoted_ident, open_block,
  open_string, open_ident, bare, other, double_quotes, first_byte, more_bytes, write, is_unclosed,
  Fits, IsLexed,
}
use fing.Sql.Arms.{lexeme_of, arm_at-token}

is_unclosed-append : (bs : Bytes) → is_unclosed (bs ++ (b'*' ∷ b'/' ∷ [])) ≡ false
is_unclosed-append [] = refl
is_unclosed-append (b ∷ bs) = ground (arith, is_unclosed-append bs)

All-append_quote : (body : Bytes) → All (λ b. b ≢ b'"') (body ++ (b'"' ∷ [])) → ⊥
All-append_quote [] h = h.0 refl
All-append_quote (b ∷ bs) h = All-append_quote bs h.1

double_quotes-ne : (body more : Bytes) → double_quotes body ++ (b'\'' ∷ []) ≢ double_quotes more
double_quotes-ne [] [] e = ground arith
double_quotes-ne [] (c ∷ []) e = ground arith
double_quotes-ne [] (c ∷ d ∷ more) e = ground arith
double_quotes-ne (b ∷ body) [] e = ground arith
double_quotes-ne (b ∷ body) (c ∷ more) e = ground (arith, double_quotes-ne body more)

double_quotes-injective : (xs ys : Bytes) → double_quotes xs ≡ double_quotes ys → xs ≡ ys
double_quotes-injective [] [] e = refl
double_quotes-injective [] (y ∷ ys) e = ground arith
double_quotes-injective (x ∷ xs) [] e = ground arith
double_quotes-injective (x ∷ xs) (y ∷ ys) e = ground (arith, double_quotes-injective xs ys)

unclosed_ends :
    (body more : Bytes) → is_unclosed more ≡ true → body ++ (b'*' ∷ b'/' ∷ []) ≡ more → ⊥
unclosed_ends body more h e = ground (arith, is_unclosed-append body, ap is_unclosed e)

abbrev tail : Bytes → Bytes
tail [] = []
tail (b ∷ bs) = bs

-- Two tokens that begin alike, are of one kind to the scanner and hold the same bytes are one.
abbrev Alike : Token → Token → Type 0
Alike t u =
    (first_byte t ≡ first_byte u) × (more_bytes t ≡ more_bytes u) × (lexeme_of t ≡ lexeme_of u)

Alike-eq : (t u : Token) (x : Bytes) → Fits t x → Fits u x → Alike t u → t ≡ u
unfolding is_ascii_whitespace is_ascii_alphanumeric is_ascii_digit
Alike-eq (space c) (space d) x f g (p, q, r) = ap space p
Alike-eq (line_comment b) (line_comment d) x f g (p, q, r) = ap line_comment (ap tail q)
Alike-eq (block_comment b) (block_comment d) x f g (p, q, r) =
    ap block_comment (append_cancel_right b d (b'*' ∷ b'/' ∷ []) (ap tail q))
Alike-eq semicolon semicolon x f g h = refl
Alike-eq (quoted b) (quoted d) x f g (p, q, r) = ap quoted (
    double_quotes-injective b d
      (append_cancel_right (double_quotes b) (double_quotes d) (b'\'' ∷ []) q))
Alike-eq (quoted_ident b) (quoted_ident d) x f g (p, q, r) =
    ap quoted_ident (append_cancel_right b d (b'"' ∷ []) q)
Alike-eq (open_block b) (open_block d) x f g (p, q, r) = ap open_block (ap tail q)
Alike-eq (open_string b) (open_string d) x f g (p, q, r) =
    ap open_string (double_quotes-injective b d q)
Alike-eq (open_ident b) (open_ident d) x f g (p, q, r) = ap open_ident q
Alike-eq (bare c cs) (bare d ds) x f g (p, q, r) = λ i. bare (p i) (q i)
Alike-eq (other c) (other d) x f g (p, q, r) = ap other p
Alike-eq (block_comment b) (open_block d) x f (g, e) (p, q, r) =
    absurd (unclosed_ends b d g (ap tail q))
Alike-eq (open_block d) (block_comment b) x (g, e) f (p, q, r) =
    absurd (unclosed_ends b d g (sym (ap tail q)))
Alike-eq (quoted b) (open_string d) x f g (p, q, r) = absurd (double_quotes-ne b d q)
Alike-eq (open_string d) (quoted b) x f g (p, q, r) = absurd (double_quotes-ne b d (sym q))
Alike-eq (quoted_ident b) (open_ident d) x f (g, e) (p, q, r) =
    absurd (All-append_quote b (subst (All (λ b. b ≢ b'"')) (sym q) g))
Alike-eq (open_ident d) (quoted_ident b) x (g, e) f (p, q, r) =
    absurd (All-append_quote b (subst (All (λ b. b ≢ b'"')) q g))
Alike-eq t u x f g (p, q, r) = ground arith

head : Bytes → ℕ
head [] = 0
head (b ∷ bs) = b

-- The first token of two lists that write the same text, by the round of the loop that reads it.
first-eq :
    (t u : Token) (x y : Bytes)
    → Fits t x
    → Fits u y
    → first_byte t ∷ (more_bytes t ++ x) ≡ first_byte u ∷ (more_bytes u ++ y)
    → (t ≡ u) × (x ≡ y)
unfolding head
first-eq t u x y f g e = (
  Alike-eq t u x f (subst (Fits u) (sym rest_eq) g) (
    ap head e,
    append_cancel_right (more_bytes t) (more_bytes u) x
        (ap tail e ∙ ap (λ (z : Bytes). more_bytes u ++ z) (sym rest_eq)),
    ap (λ a. a.lexeme) round,
  ),
  rest_eq,
)
  where
    round : arm (lexeme_of t) x ≡ arm (lexeme_of u) y
    round =
        sym (arm_at-token t x f)
        ∙ ap (λ (bs : Bytes). arm_at (head bs) (tail bs)) e
        ∙ arm_at-token u y g

    rest_eq : x ≡ y
    rest_eq = ap (λ a. a.rest) round

-- Two lists of tokens that write the same text are one.
pub IsLexed-unique : (ts us : List Token) → IsLexed ts → IsLexed us → write ts ≡ write us → ts ≡ us
IsLexed-unique [] [] h k e = refl
IsLexed-unique [] (u ∷ us) h k e = cc
IsLexed-unique (t ∷ ts) [] h k e = cc
IsLexed-unique (t ∷ ts) (u ∷ us) (f, h) (g, k) e =
    let (p, q) = first-eq t u (write ts) (write us) f g e in λ i. p i ∷ IsLexed-unique ts us h k q i
