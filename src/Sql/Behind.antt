-- ===== src/Sql/Behind.antt =====
-- What stands behind the semicolon of a statement, to the guard of src/sql.rs.
use fing.Base.{
  ℕ, ◌⊎◌, List, [], ◌∷◌, ◌++◌, append_assoc, append-nil, Bool, true, false, ◌||◌, Bool-cases, inl,
  inr, ◌≡◌, refl, sym, ap, subst, ◌∙◌, arith, take, if◌then◌else◌,
}
use fing.Base.Text.{
  Text, Bytes, as_bytes, from_utf8, to_ascii_uppercase, is_ascii_alphanumeric, encode_utf8,
}
use fing.Error.{multiple_statements, Result, ok, err, ◌>>=◌}
use fing.Sql.{scan, classify, inspect}
use fing.Sql.Lexer.{begins, is_word_byte}
use fing.Sql.Tokens.{
  Token, space, line_comment, semicolon, quoted, open_block, open_string, open_ident, bare, other,
  first_byte, more_bytes, write, Fits, IsLexed, has_significant, runs_on, words_of,
}
use fing.Sql.Lexed.{words_of-quiet, scan-IsLexed}

-- The last token does not reach over the end of the text.
abbrev pub IsClosed : List Token → Type 0
IsClosed [] = Unit {0}
IsClosed (line_comment body ∷ []) = ⊥
IsClosed (open_block body ∷ []) = ⊥
IsClosed (open_string body ∷ []) = ⊥
IsClosed (open_ident body ∷ []) = ⊥
IsClosed (t ∷ ts) = IsClosed ts

write-append : (ts us : List Token) → write (ts ++ us) ≡ write ts ++ write us
write-append [] us = refl
write-append (t ∷ ts) us =
    ap (λ (x : Bytes). first_byte t ∷ x)
      (ap (λ (x : Bytes). more_bytes t ++ x) (write-append ts us)
        ∙ sym (append_assoc (more_bytes t) (write ts) (write us)))

has_significant-append :
    (ts us : List Token)
    → has_significant (ts ++ (semicolon ∷ us)) ≡ has_significant ts || has_significant us
has_significant-append [] us = refl
has_significant-append (t ∷ ts) us = ground (arith, has_significant-append ts us)

runs_on-append :
    (ts us : List Token) → runs_on (ts ++ (semicolon ∷ us)) ≡ runs_on ts || has_significant us
runs_on-append [] us = refl
runs_on-append (semicolon ∷ ts) us = has_significant-append ts us
runs_on-append (t ∷ ts) us = runs_on-append ts us

words_of-append : (ts us : List Token) → words_of (ts ++ us) ≡ words_of ts ++ words_of us
words_of-append [] us = refl
words_of-append (bare c cs ∷ ts) us =
    ap (λ (ws : List Text). to_ascii_uppercase (from_utf8 (c ∷ cs)) ∷ ws) (words_of-append ts us)
words_of-append (t ∷ ts) us = words_of-append ts us

line_goes_on :
    (b : ℕ) (bs m : Bytes)
    → (b ∷ bs ≡ []) ⊎ (begins b'\n' (b ∷ bs) ≡ true)
    → begins b'\n' (b ∷ (bs ++ m)) ≡ true
line_goes_on b bs m (inl e) = cc
line_goes_on b bs m (inr h) = h

Fits-more : (t : Token) (b : ℕ) (bs m : Bytes) → Fits t (b ∷ bs) → Fits t (b ∷ (bs ++ m))
Fits-more (space c) b bs m h = h
Fits-more (line_comment body) b bs m (h, e) = (h, inr (line_goes_on b bs m e))
Fits-more (open_block body) b bs m (h, e) = cc
Fits-more (open_string body) b bs m e = cc
Fits-more (open_ident body) b bs m (h, e) = cc
Fits-more t b bs m h = h

Fits-semicolon : (t : Token) (x : Bytes) → IsClosed (t ∷ []) → Fits t [] → Fits t (b';' ∷ x)
unfolding is_word_byte is_ascii_alphanumeric
Fits-semicolon (line_comment body) x c h = elim c [ ]
Fits-semicolon (open_block body) x c h = elim c [ ]
Fits-semicolon (open_string body) x c h = elim c [ ]
Fits-semicolon (open_ident body) x c h = elim c [ ]
Fits-semicolon (bare b bs) x c (s, w, e) = (s, w, refl)
Fits-semicolon (other b) x c h = ground arith
Fits-semicolon (quoted body) x c h = refl
Fits-semicolon t x c h = h

IsClosed-tail : (t u : Token) (ts : List Token) → IsClosed (t ∷ u ∷ ts) → IsClosed (u ∷ ts)
IsClosed-tail (line_comment body) u ts h = h
IsClosed-tail (open_block body) u ts h = h
IsClosed-tail (open_string body) u ts h = h
IsClosed-tail (open_ident body) u ts h = h
IsClosed-tail t u ts h = h

-- A closed list of tokens goes on behind a semicolon.
IsLexed-append :
    (ts us : List Token) → IsLexed ts → IsClosed ts → IsLexed us → IsLexed (ts ++ (semicolon ∷ us))
IsLexed-append [] us h c k = (tt, k)
IsLexed-append (t ∷ []) us (f, h) c k = (Fits-semicolon t (write us) c f, (tt, k))
IsLexed-append (t ∷ u ∷ ts) us (f, h) c k = (
  subst (Fits t) (sym (write-append (u ∷ ts) (semicolon ∷ us)))
      (Fits-more t (first_byte u) (more_bytes u ++ write ts) (write (semicolon ∷ us)) f),
  IsLexed-append (u ∷ ts) us h (IsClosed-tail t u ts c) k,
)

as_bytes-append : (s t : Text) → as_bytes (s ++ t) ≡ as_bytes s ++ as_bytes t
unfolding as_bytes
as_bytes-append [] t = refl
as_bytes-append (c ∷ s) t =
    ap (λ (x : Bytes). encode_utf8 c ++ x) (as_bytes-append s t)
    ∙ sym (append_assoc (encode_utf8 c) (as_bytes s) (as_bytes t))

as_bytes-semicolon : (s t : Text) → as_bytes (s ++ (b';' ∷ t)) ≡ as_bytes s ++ (b';' ∷ as_bytes t)
unfolding as_bytes encode_utf8
as_bytes-semicolon s t = as_bytes-append s (b';' ∷ t)

or_true : (b : Bool) → b || true ≡ true
or_true b = ground arith

or_false : (b : Bool) → b || false ≡ b
or_false b = ground arith

module _ {C : Type 0} where
  scan-behind :
      (sql more : Text) (ts us : List Token)
      → as_bytes sql ≡ write ts
      → IsLexed ts
      → IsClosed ts
      → as_bytes more ≡ write us
      → IsLexed us
      → scan {C = C} (sql ++ (b';' ∷ more))
        ≡ (if has_significant us then err multiple_statements else scan sql)
  scan-behind sql more ts us e h c e' k = elim (Bool-cases (has_significant us)) [
    | inl loud ↦ both ∙ rw loud (rw (or_true (runs_on ts)) refl)
    | inr quiet ↦
        both
        ∙ rw (quiet, words_of-quiet us quiet)
            (rw (or_false (runs_on ts), append-nil (words_of ts)) (sym (scan-IsLexed sql ts e h)))
  ]
    where
      written : as_bytes (sql ++ (b';' ∷ more)) ≡ write (ts ++ (semicolon ∷ us))
      written =
          as_bytes-semicolon sql more
          ∙ (λ i. e i ++ (b';' ∷ e' i))
          ∙ sym (write-append ts (semicolon ∷ us))

      both : scan {C = C} (sql ++ (b';' ∷ more)) ≡ (
          if runs_on ts || has_significant us
          then err multiple_statements
          else ok (take 2 (words_of ts ++ words_of us)))
      both =
          scan-IsLexed (sql ++ (b';' ∷ more)) (ts ++ (semicolon ∷ us)) written
            (IsLexed-append ts us h c k)
          ∙ (λ i.
              if runs_on-append ts us i
              then err multiple_statements
              else ok (take 2 (words_of-append ts (semicolon ∷ us) i)))

  -- Text behind the semicolon of a statement whose last token is complete changes nothing when it
  -- holds blanks, comments and semicolons alone, and is refused as a further statement otherwise,
  -- whatever the statement was.
  pub inspect-behind :
      (sql more : Text) (ts us : List Token)
      → as_bytes sql ≡ write ts
      → IsLexed ts
      → IsClosed ts
      → as_bytes more ≡ write us
      → IsLexed us
      → inspect {C = C} (sql ++ (b';' ∷ more))
        ≡ (if has_significant us then err multiple_statements else inspect sql)
  unfolding inspect
  inspect-behind sql more ts us e h c e' k =
      ap (λ (r : Result C (List Text)). r >>= classify) (scan-behind sql more ts us e h c e' k)
      ∙ bind_if (has_significant us) (scan sql)
    where
      bind_if :
          (b : Bool) (r : Result C (List Text))
          → ((if b then err multiple_statements else r) >>= classify)
            ≡ (if b then err multiple_statements else (r >>= classify))
      bind_if true r = refl
      bind_if false r = refl
