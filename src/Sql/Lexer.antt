-- ===== src/Sql/Lexer.antt =====
-- One round of the loop of `scan` in src/sql.rs: what the byte at `i` begins, and where the next
-- round starts. The list is `bytes[i..]` where the source keeps the index `i`.
use fing.Base.{
  ℕ, ◌≤◌, ◌<◌, [], ◌∷◌, Bool, true, false, ◌&&◌, ◌||◌, arith, length, leb, ◌==◌, if◌then◌else◌,
}
use fing.Base.Text.{Bytes, is_ascii_alphanumeric, is_ascii_whitespace}

-- `bytes.get(i) == Some(&b)`
abbrev pub begins : ℕ → Bytes → Bool
begins b [] = false
begins b (c ∷ cs) = c == b

abbrev pub tail_of : Bytes → Bytes
tail_of [] = []
tail_of (c ∷ cs) = cs

-- Up to the line feed that ends a comment.
unfoldable pub skip_line : Bytes → Bytes
skip_line [] = []
skip_line (b ∷ bs) = if b == b'\n' then b ∷ bs else skip_line bs

-- Up to the end of a block comment, and past it.
unfoldable pub skip_block : Bytes → Bytes
skip_block [] = []
skip_block (b ∷ bs) = if b == b'*' && begins b'/' bs then tail_of bs else skip_block bs

-- Past the end of a string; a doubled quote does not end it. The flag says that the last byte was
-- the first of two quotes.
unfoldable pub skip_string : Bool → Bytes → Bytes
skip_string doubled [] = []
skip_string true (b ∷ bs) = skip_string false bs
skip_string false (b ∷ bs) =
    let doubled = skip_string true bs in
    let further = skip_string false bs in
    if b == b'\'' then (if begins b'\'' bs then doubled else bs) else further

-- Past the end of a quoted identifier.
unfoldable pub skip_ident : Bytes → Bytes
skip_ident [] = []
skip_ident (b ∷ bs) = if b == b'"' then bs else skip_ident bs

unfoldable pub is_word_byte : ℕ → Bool
unfolding is_ascii_alphanumeric
is_word_byte b = is_ascii_alphanumeric b || b == b'_' || leb 0x80 b

-- `bytes[start..i]` for the word that begins here, and what follows it.
unfoldable pub word_of : Bytes → Bytes
unfolding is_word_byte
word_of [] = []
word_of (b ∷ bs) = if is_word_byte b then b ∷ word_of bs else []

unfoldable pub skip_word : Bytes → Bytes
unfolding is_word_byte
skip_word [] = []
skip_word (b ∷ bs) = if is_word_byte b then skip_word bs else b ∷ bs

-- What a round of the loop meets.
pub data Lexeme : Type 0 where
  blank : Lexeme
  terminator : Lexeme
  mark : Lexeme
  word : Bytes → Lexeme

pub record Arm : Type 0 where
  pub lexeme : Lexeme
  pub rest : Bytes

abbrev pub arm : Lexeme → Bytes → Arm
arm l rest = record { lexeme = l; rest = rest }

-- The `match byte`, with its guards in order, at the byte `b` before the bytes `bs`.
unfoldable pub arm_at : ℕ → Bytes → Arm
unfolding skip_line skip_block skip_string skip_ident skip_word word_of is_ascii_whitespace
    is_ascii_alphanumeric
arm_at b bs =
    if b == b'-' && begins b'-' bs
    then arm blank (skip_line (tail_of bs))
    else if b == b'/' && begins b'*' bs
    then arm blank (skip_block (tail_of bs))
    else if b == b';'
    then arm terminator bs
    else if b == b'\''
    then arm mark (skip_string false bs)
    else if b == b'"'
    then arm mark (skip_ident bs)
    else if is_ascii_whitespace b
    then arm blank bs
    else if is_ascii_alphanumeric b || b == b'_'
    then arm (word (word_of (b ∷ bs))) (skip_word (b ∷ bs))
    else arm mark bs

-- Every round goes on: what follows is no longer than what stood behind the byte.
skip_line-le : (bs : Bytes) → length (skip_line bs) ≤ length bs
unfolding skip_line
skip_line-le [] = omega arith
skip_line-le (b ∷ bs) = ground (arith, skip_line-le bs)

tail_of-le : (bs : Bytes) → length (tail_of bs) ≤ length bs
tail_of-le [] = omega arith
tail_of-le (b ∷ bs) = omega arith

skip_block-le : (bs : Bytes) → length (skip_block bs) ≤ length bs
unfolding skip_block
skip_block-le [] = omega arith
skip_block-le (b ∷ bs) = ground (arith, skip_block-le bs, tail_of-le bs)

skip_string-le : (d : Bool) (bs : Bytes) → length (skip_string d bs) ≤ length bs
unfolding skip_string
skip_string-le d [] = omega arith
skip_string-le true (b ∷ bs) = omega (arith, skip_string-le false bs)
skip_string-le false (b ∷ bs) = ground (arith, skip_string-le false bs, skip_string-le true bs)

skip_ident-le : (bs : Bytes) → length (skip_ident bs) ≤ length bs
unfolding skip_ident
skip_ident-le [] = omega arith
skip_ident-le (b ∷ bs) = ground (arith, skip_ident-le bs)

skip_word-le : (bs : Bytes) → length (skip_word bs) ≤ length bs
unfolding skip_word
skip_word-le [] = omega arith
skip_word-le (b ∷ bs) = ground (arith, skip_word-le bs)

pub arm_at-le : (b : ℕ) (bs : Bytes) → length (arm_at b bs).rest ≤ length bs
unfolding arm_at
arm_at-le b bs = ground (
  arith,
  tail_of-le bs,
  skip_line-le (tail_of bs),
  skip_block-le (tail_of bs),
  skip_string-le false bs,
  skip_ident-le bs,
  skip_word-le bs,
)

abbrev pub Shorter : Bytes → Bytes → Type 0
Shorter xs ys = length xs < length ys

pub arm_at-lt : (b : ℕ) (bs : Bytes) → Shorter (arm_at b bs).rest (b ∷ bs)
arm_at-lt b bs = omega (arith, arm_at-le b bs)
