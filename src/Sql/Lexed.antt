-- ===== src/Sql/Lexed.antt =====
-- What `scan` of src/sql.rs makes of SQL text.
use fing.Base.{
  ◌≤◌, List, [], ◌∷◌, ◌++◌, true, false, ◌≡◌, inl, inr, refl, ap, ◌∙◌, arith, length, take,
  Bool-cases, if◌then◌else◌,
}
use fing.Base.Text.{Text, Bytes, from_utf8, to_ascii_uppercase, as_bytes}
use fing.Error.{multiple_statements, Result, ok, err, ◌>>=◌}
use fing.Sql.Loop.{scan_lem, scan_from-nil, scan_from-cons}
use fing.Sql.{push_word, Seen, apply, scan_from, unseen, scan}
use fing.Sql.Tokens.{
  Token, space, line_comment, block_comment, semicolon, open_block, bare, first_byte, more_bytes,
  write, Fits, IsLexed, has_significant, runs_on, words_of,
}
use fing.Sql.Arms.{lexeme_of, arm_at-token}

take_two : {A : Type 0} (xs : List A) → length xs ≤ 2 → take 2 (xs ++ []) ≡ xs
take_two [] h = refl
take_two (x ∷ []) h = refl
take_two (x ∷ y ∷ []) h = refl
take_two (x ∷ y ∷ z ∷ xs) h = absurd (omega arith)

take_two-push_word :
    (words more : List Text) (w : Bytes)
    → take 2 (push_word words w ++ more)
      ≡ take 2 (words ++ (to_ascii_uppercase (from_utf8 w) ∷ more))
take_two-push_word [] more w = refl
take_two-push_word (x ∷ []) more w = refl
take_two-push_word (x ∷ y ∷ xs) more w = ground arith

length-push_word :
    (words : List Text) (w : Bytes) → length words ≤ 2 → length (push_word words w) ≤ 2
length-push_word [] w h = omega arith
length-push_word (x ∷ []) w h = omega arith
length-push_word (x ∷ y ∷ xs) w h = ground arith

pub words_of-quiet : (ts : List Token) → has_significant ts ≡ false → words_of ts ≡ []
words_of-quiet [] h = refl
words_of-quiet (bare c cs ∷ ts) h = cc
words_of-quiet (t ∷ ts) h = ground (arith, words_of-quiet ts)

if_words :
    {C : Type 0} (ts : List Token) (words : List Text)
    → length words ≤ 2
    → ◌≡◌ {A = Result C (List Text)}
        (if has_significant ts then err multiple_statements else ok words)
        (if has_significant ts then err multiple_statements else ok (take 2 (words ++ words_of ts)))
if_words ts words l = elim (Bool-cases (has_significant ts)) [
  | inl h ↦ rw h
  | inr h ↦ rw (h, words_of-quiet ts h, take_two words l)
]

module _ {C : Type 0} where
  scan_from-token :
      (t : Token) (ts : List Token) (s : Seen)
      → Fits t (write ts)
      → scan_from {C = C} (write (t ∷ ts)) s ≡ (apply (lexeme_of t) s >>= scan_from (write ts))
  scan_from-token t ts s h =
      scan_from-cons (first_byte t) (more_bytes t ++ write ts) s ∙ rw (arm_at-token t (write ts) h)

  -- Behind a semicolon.
  scan_from-terminated :
      (ts : List Token) (s : Seen)
      → IsLexed ts
      → s.terminated ≡ true
      → scan_from {C = C} (write ts) s
        ≡ (if has_significant ts then err multiple_statements else ok s.words)
  unfolding apply
  scan_from-terminated [] s h e = scan_from-nil s
  scan_from-terminated (space c ∷ ts) s (h, hs) e =
      scan_from-token (space c) ts s h ∙ scan_from-terminated ts s hs e
  scan_from-terminated (line_comment body ∷ ts) s (h, hs) e =
      scan_from-token (line_comment body) ts s h ∙ scan_from-terminated ts s hs e
  scan_from-terminated (block_comment body ∷ ts) s (h, hs) e =
      scan_from-token (block_comment body) ts s h ∙ scan_from-terminated ts s hs e
  scan_from-terminated (open_block body ∷ ts) s (h, hs) e =
      scan_from-token (open_block body) ts s h ∙ scan_from-terminated ts s hs e
  scan_from-terminated (semicolon ∷ ts) s (h, hs) e =
      scan_from-token semicolon ts s h
      ∙ scan_from-terminated ts (record s { terminated = true }) hs refl
  scan_from-terminated (t ∷ ts) s (h, hs) e = scan_from-token t ts s h ∙ rw e

  -- Before the first semicolon.
  scan_from-open :
      (ts : List Token) (s : Seen)
      → IsLexed ts
      → s.terminated ≡ false
      → length s.words ≤ 2
      → scan_from {C = C} (write ts) s
        ≡ (if runs_on ts then err multiple_statements else ok (take 2 (s.words ++ words_of ts)))
  unfolding apply
  scan_from-open [] s h e l = scan_from-nil s ∙ rw (take_two s.words l)
  scan_from-open (semicolon ∷ ts) s (h, hs) e l =
      scan_from-token semicolon ts s h
      ∙ scan_from-terminated ts (record s { terminated = true }) hs refl
      ∙ if_words ts s.words l
  scan_from-open (bare c cs ∷ ts) s (h, hs) e l =
      scan_from-token (bare c cs) ts s h
      ∙ simp e (
          scan_from-open ts (record { terminated = false; words = push_word s.words (c ∷ cs) }) hs
            refl (length-push_word s.words (c ∷ cs) l)
          ∙ rw (take_two-push_word s.words (words_of ts) (c ∷ cs)))
  scan_from-open (space c ∷ ts) s (h, hs) e l =
      scan_from-token (space c) ts s h ∙ scan_from-open ts s hs e l
  scan_from-open (line_comment body ∷ ts) s (h, hs) e l =
      scan_from-token (line_comment body) ts s h ∙ scan_from-open ts s hs e l
  scan_from-open (block_comment body ∷ ts) s (h, hs) e l =
      scan_from-token (block_comment body) ts s h ∙ scan_from-open ts s hs e l
  scan_from-open (open_block body ∷ ts) s (h, hs) e l =
      scan_from-token (open_block body) ts s h ∙ scan_from-open ts s hs e l
  scan_from-open (t ∷ ts) s (h, hs) e l =
      scan_from-token t ts s h ∙ simp e (scan_from-open ts s hs e l)

  -- On text that is a list of tokens, `scan` refuses what runs on behind a semicolon, and else
  -- returns the first two bare words in upper case.
  pub scan-IsLexed :
      (sql : Text) (ts : List Token)
      → as_bytes sql ≡ write ts
      → IsLexed ts
      → scan {C = C} sql
        ≡ (if runs_on ts then err multiple_statements else ok (take 2 (words_of ts)))
  scan-IsLexed sql ts e h =
      scan_lem sql
      ∙ ap (λ bytes. scan_from bytes unseen) e
      ∙ scan_from-open ts unseen h refl (omega arith)
