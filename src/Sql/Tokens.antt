-- ===== src/Sql/Tokens.antt =====
-- An independent description of the text that `scan` of src/sql.rs reads, as a list of tokens.
use fing.Base.{
  ℕ, List, [], ◌∷◌, ◌++◌, Bool, true, false, not, ◌&&◌, ◌||◌, ◌≡◌, ◌≢◌, ◌⊎◌, All, ◌==◌,
  if◌then◌else◌,
}
use fing.Base.Text.{
  Text, Bytes, from_utf8, to_ascii_uppercase, is_ascii_alphanumeric, is_ascii_whitespace,
}
use fing.Sql.Lexer.{begins, is_word_byte}

-- The three that are open are not closed before the end of the text.
pub data Token : Type 0 where
  space : ℕ → Token
  line_comment : Bytes → Token
  block_comment : Bytes → Token
  semicolon : Token
  quoted : Bytes → Token
  quoted_ident : Bytes → Token
  open_block : Bytes → Token
  open_string : Bytes → Token
  open_ident : Bytes → Token
  bare : ℕ → Bytes → Token
  other : ℕ → Token

-- A quote inside a string is doubled.
abbrev pub double_quotes : Bytes → Bytes
double_quotes [] = []
double_quotes (b ∷ bs) =
    if b == b'\'' then b'\'' ∷ b'\'' ∷ double_quotes bs else b ∷ double_quotes bs

-- The first byte of a token, and the others.
abbrev pub first_byte : Token → ℕ
first_byte (space c) = c
first_byte (line_comment body) = b'-'
first_byte (block_comment body) = b'/'
first_byte semicolon = b';'
first_byte (quoted body) = b'\''
first_byte (quoted_ident body) = b'"'
first_byte (open_block body) = b'/'
first_byte (open_string body) = b'\''
first_byte (open_ident body) = b'"'
first_byte (bare c cs) = c
first_byte (other c) = c

abbrev pub more_bytes : Token → Bytes
more_bytes (line_comment body) = b'-' ∷ body
more_bytes (block_comment body) = b'*' ∷ (body ++ (b'*' ∷ b'/' ∷ []))
more_bytes (quoted body) = double_quotes body ++ (b'\'' ∷ [])
more_bytes (quoted_ident body) = body ++ (b'"' ∷ [])
more_bytes (open_block body) = b'*' ∷ body
more_bytes (open_string body) = double_quotes body
more_bytes (open_ident body) = body
more_bytes (bare c cs) = cs
more_bytes _ = []

abbrev pub write : List Token → Bytes
write [] = []
write (t ∷ ts) = first_byte t ∷ (more_bytes t ++ write ts)

-- No end of a block comment within.
abbrev pub is_unclosed : Bytes → Bool
is_unclosed [] = true
is_unclosed (b ∷ bs) = not (b == b'*' && begins b'/' bs) && is_unclosed bs

abbrev pub starts_word : ℕ → Bool
starts_word c = is_ascii_alphanumeric c || c == b'_'

abbrev pub EndsWord : Bytes → Type 0
EndsWord [] = Unit {0}
EndsWord (c ∷ cs) = is_word_byte c ≡ false

-- The token can stand before the bytes `next`, and is then read whole.
abbrev pub Fits : Token → Bytes → Type 0
Fits (space c) next = is_ascii_whitespace c ≡ true
Fits (line_comment body) next =
    All (λ b. b ≢ b'\n') body × ((next ≡ []) ⊎ (begins b'\n' next ≡ true))
Fits (block_comment body) next = is_unclosed body ≡ true
Fits semicolon next = Unit {0}
Fits (quoted body) next = begins b'\'' next ≡ false
Fits (quoted_ident body) next = All (λ b. b ≢ b'"') body
Fits (open_block body) next = (is_unclosed body ≡ true) × (next ≡ [])
Fits (open_string body) next = next ≡ []
Fits (open_ident body) next = All (λ b. b ≢ b'"') body × (next ≡ [])
Fits (bare c cs) next = (starts_word c ≡ true) × All (λ b. is_word_byte b ≡ true) cs × EndsWord next
Fits (other c) next =
    (c ≢ b';')
    × (c ≢ b'\'')
    × (c ≢ b'"')
    × (is_ascii_whitespace c ≡ false)
    × (starts_word c ≡ false)
    × (c ≡ b'-' → begins b'-' next ≡ false)
    × (c ≡ b'/' → begins b'*' next ≡ false)

abbrev pub IsLexed : List Token → Type 0
IsLexed [] = Unit {0}
IsLexed (t ∷ ts) = Fits t (write ts) × IsLexed ts

abbrev pub is_significant : Token → Bool
is_significant (quoted body) = true
is_significant (quoted_ident body) = true
is_significant (open_string body) = true
is_significant (open_ident body) = true
is_significant (bare c cs) = true
is_significant (other c) = true
is_significant _ = false

abbrev pub has_significant : List Token → Bool
has_significant [] = false
has_significant (t ∷ ts) = is_significant t || has_significant ts

-- Something significant stands behind a semicolon.
abbrev pub runs_on : List Token → Bool
runs_on [] = false
runs_on (semicolon ∷ ts) = has_significant ts
runs_on (t ∷ ts) = runs_on ts

-- The bare words, in upper case.
abbrev pub words_of : List Token → List Text
words_of [] = []
words_of (bare c cs ∷ ts) = to_ascii_uppercase (from_utf8 (c ∷ cs)) ∷ words_of ts
words_of (t ∷ ts) = words_of ts
