-- ===== src/Sql.antt =====
-- src/sql.rs: the guard over statements. The rounds of the loop in `scan` are in `Sql.Lexer`.
pub mod Lexer
pub mod Loop
pub mod Tokens
pub mod Arms
pub mod Lexed
pub mod Cuts
pub mod Tokenize
pub mod Unique
pub mod Refused
pub mod Guard
pub mod Behind
pub mod Case
pub mod CaseArms
mod SourceTests
mod Tests
use mathlib.Core.WellFounded.{Acc}
use fing.Base.{
  ℕ, zero, suc, ◌+◌, ◌≤◌, ◌<◌, List, [], ◌∷◌, ◌++◌, Bool, true, false, not, ◌&&◌, ◌||◌, Option,
  none, some, ◌≡◌, arith, length, eq_list, leb, ltb, ◌==◌, if◌then◌else◌,
}
use fing.Base.Text.{
  Text, Bytes, codes, as_bytes, from_utf8, is_ascii_alphanumeric, is_ascii_whitespace,
  to_ascii_uppercase, to_ascii_upper,
}
use fing.Sql.Lexer.{Lexeme, blank, terminator, mark, word, arm_at, Shorter, arm_at-lt}
use fing.Error.{Error, unsupported, multiple_statements, invalid_argument, Result, ok, err, ◌>>=◌}

pub data StatementKind : Type 0 where
  query insert create_table : StatementKind

-- `terminated` and `words`.
pub record Seen : Type 0 where
  pub terminated : Bool
  pub words : List Text

-- `words.push(..)`, for the first two words alone
abbrev pub push_word : List Text → Bytes → List Text
push_word words w =
    if ltb (length words) 2 then words ++ (to_ascii_uppercase (from_utf8 w) ∷ []) else words

-- What a round does to the variables; `significant!()` returns early.
unfoldable pub apply : {C : Type 0} → Lexeme → Seen → Result C Seen
unfolding from_utf8 to_ascii_upper
apply blank s = ok s
apply terminator s = ok (record s { terminated = true })
apply mark s = if s.terminated then err multiple_statements else ok s
apply (word w) s =
    if s.terminated then err multiple_statements else ok (record s { words = push_word s.words w })

Shorter-below : (k : ℕ) (xs : Bytes) → length xs < k → Acc Shorter xs
Shorter-below zero xs h = elim h [ ]
Shorter-below (suc k) xs h = Acc.intro xs (λ ys hy. Shorter-below k ys (omega arith))

pub shorter_acc : (xs : Bytes) → Acc Shorter xs
unfolding Shorter-below
shorter_acc xs = Shorter-below (suc (length xs)) xs (omega arith)

-- `while i < bytes.len()`: each round leaves a shorter list, so the loop ends.
pub scan_loop : {C : Type 0} (bytes : Bytes) → Acc Shorter bytes → Seen → Result C (List Text)
scan_loop [] w s = ok s.words
scan_loop (b ∷ bs) (Acc.intro _ smaller) s = apply (arm_at b bs).lexeme s >>= λ s'.
    scan_loop (arm_at b bs).rest (smaller (arm_at b bs).rest (arm_at-lt b bs)) s'

abbrev pub scan_from : {C : Type 0} → Bytes → Seen → Result C (List Text)
scan_from bytes = scan_loop bytes (shorter_acc bytes)

abbrev pub unseen : Seen
unseen = record { terminated = false; words = [] }

unfoldable pub scan : {C : Type 0} → Text → Result C (List Text)
unfolding scan_loop shorter_acc as_bytes apply arm_at
scan sql = scan_from (as_bytes sql) unseen

-- The `match words.get(1)` of `CREATE`.
abbrev classify_create : {C : Type 0} → List Text → Result C StatementKind
classify_create [] = err (invalid_argument (codes "incomplete CREATE statement"))
classify_create (what ∷ _) =
    if eq_list what (codes "TABLE")
    then ok create_table
    else err (unsupported (codes "CREATE " ++ what ++ codes " statements"))

-- The `match first.as_str()`.
unfoldable pub classify : {C : Type 0} → List Text → Result C StatementKind
unfolding eq_list
classify [] = err (invalid_argument (codes "statement is empty"))
classify (first ∷ more) =
    if eq_list first (codes "SELECT") || eq_list first (codes "WITH")
    then ok query
    else if eq_list first (codes "INSERT")
    then ok insert
    else if eq_list first (codes "CREATE")
    then classify_create more
    else err (unsupported (first ++ codes " statements"))

unfoldable pub inspect : {C : Type 0} → Text → Result C StatementKind
unfolding scan classify
inspect sql = scan sql >>= classify
