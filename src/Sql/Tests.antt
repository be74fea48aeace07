-- ===== src/Sql/Tests.antt =====
-- Tests of src/sql.rs, after those at its end, and the properties at concrete inputs.
use fing.Base.{List, [], ◌∷◌, ◌++◌, ◌≡◌, ◌↔◌, ◌⊎◌, false, true, refl, take, arith, if◌then◌else◌}
use fing.Base.Text.{
  Text, codes, to_ascii_uppercase, as_bytes, is_ascii_whitespace, is_ascii_alphanumeric,
}
use fing.Error.{Error, unsupported, multiple_statements, invalid_argument, Result, ok, err}
use fing.Sql.{StatementKind, query, insert, scan, inspect}
use fing.Sql.Lexer.{is_word_byte}
use fing.Sql.Lexed.{scan-IsLexed}
use fing.Sql.Tokens.{
  Token, space, line_comment, semicolon, quoted, bare, other, write, IsLexed, words_of, runs_on,
  has_significant,
}
use fing.Sql.Case.{inspect-upper}
use fing.Sql.Refused.{Refuses}
use fing.Sql.Guard.{Heads, inspect-lexes}
use fing.Sql.Behind.{inspect-behind}

abbrev Inspected : Type 0
Inspected = Result (Unit {0}) StatementKind

inspect_tests :
    (◌≡◌ {A = Inspected} (inspect (codes "SELECT * FROM t WHERE s = 'it''s; fine'")) (ok query))
    × (◌≡◌ {A = Inspected}
        (inspect (codes "/* ; */ insert into t values (1); -- done"))
        (ok insert))
    × (◌≡◌ {A = Inspected} (inspect (codes "SELECT 1; SELECT 2")) (err multiple_statements))
    × (◌≡◌ {A = Inspected}
        (inspect (codes "CREATE INDEX i ON t (a)"))
        (err (unsupported (codes "CREATE INDEX statements"))))
    × (◌≡◌ {A = Inspected}
        (inspect (codes "  \n -- hi"))
        (err (invalid_argument (codes "statement is empty"))))
unfolding inspect
inspect_tests = (refl, refl, refl, refl, refl)

abbrev sample : Text
sample = codes "(select 'a;b' ; -- x;"

abbrev sample_tokens : List Token
sample_tokens =
    other b'('
    ∷ bare b's' (codes "elect")
    ∷ space b' '
    ∷ quoted (codes "a;b")
    ∷ space b' '
    ∷ semicolon
    ∷ space b' '
    ∷ line_comment (codes " x;")
    ∷ []

abbrev longer : Text
longer = codes "SELECT 1;x"

sample_written : as_bytes sample ≡ write sample_tokens
unfolding as_bytes
sample_written = refl

sample-IsLexed : IsLexed sample_tokens
unfolding is_word_byte is_ascii_whitespace is_ascii_alphanumeric
sample-IsLexed = ground arith

scan-IsLexed_example : scan {C = Unit {0}} sample ≡ (
    if runs_on sample_tokens then err multiple_statements else ok (take 2 (words_of sample_tokens)))
scan-IsLexed_example = scan-IsLexed sample sample_tokens sample_written sample-IsLexed

inspect-lexes_example :
    (ts : List Token) × (as_bytes longer ≡ write ts)
    × IsLexed ts
    × ((us : List Token) → as_bytes longer ≡ write us → IsLexed us → us ≡ ts)
    × ((k : StatementKind)
        → (inspect {C = Unit {0}} longer ≡ ok k) ↔ ((runs_on ts ≡ false) × Heads (words_of ts) k))
    × ((f : Error (Unit {0}))
        → (inspect {C = Unit {0}} longer ≡ err f) ↔ (
            ((runs_on ts ≡ true) × (f ≡ multiple_statements))
            ⊎ ((runs_on ts ≡ false) × Refuses (words_of ts) f)))
inspect-lexes_example = inspect-lexes longer

abbrev select_one : Text
select_one = codes "SELECT '1'"

abbrev select_tokens : List Token
select_tokens = bare b'S' (codes "ELECT") ∷ space b' ' ∷ quoted (codes "1") ∷ []

abbrev drop_tokens : List Token
drop_tokens = space b' ' ∷ bare b'D' (codes "ROP") ∷ []

select_written : as_bytes select_one ≡ write select_tokens
unfolding as_bytes
select_written = refl

drop_written : as_bytes (codes " DROP") ≡ write drop_tokens
unfolding as_bytes
drop_written = refl

select-IsLexed : IsLexed select_tokens
unfolding is_word_byte is_ascii_whitespace is_ascii_alphanumeric
select-IsLexed = ground arith

drop-IsLexed : IsLexed drop_tokens
unfolding is_word_byte is_ascii_whitespace is_ascii_alphanumeric
drop-IsLexed = ground arith

inspect-behind_example :
    inspect {C = Unit {0}} (select_one ++ (b';' ∷ codes " DROP"))
    ≡ (if has_significant drop_tokens then err multiple_statements else inspect select_one)
inspect-behind_example =
    inspect-behind select_one (codes " DROP") select_tokens drop_tokens select_written
      select-IsLexed tt drop_written drop-IsLexed

inspect-upper_example : inspect {C = Unit {0}} (to_ascii_uppercase longer) ≡ inspect longer
inspect-upper_example = inspect-upper longer
