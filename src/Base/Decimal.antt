-- ===== src/Base/Decimal.antt =====
-- Numbers as decimal text: `to_string` of the integer types, and `str::parse::<usize>`.
pub mod Digits
use Prim.Native.Nat.{ℕ, zero, suc, ◌+◌, ◌-◌, ◌*◌, ◌/◌, ◌%◌, ◌^◌}
use mathlib.Core.List.{[], ◌∷◌, ◌++◌}
use mathlib.Core.Option.{Option, none, some}
use fing.Base.Tests.{ltb, ◌==◌, if◌then◌else◌}
use fing.Base.Lists.{length, replicate}
use fing.Base.Int.{ℤ, pos, negsuc}
use fing.Base.Text.{Text, is_ascii_digit}

-- A number has fewer digits than its successor counts, so `suc n` rounds are enough.
digits_from : ℕ → ℕ → Text → Text
digits_from zero n acc = acc
digits_from (suc fuel) n acc =
    let more = digits_from fuel (n / 10) ((b'0' + n % 10) ∷ acc) in
    if ltb n 10 then (b'0' + n) ∷ acc else more

unfoldable pub to_string : ℕ → Text
unfolding digits_from
to_string n = digits_from (suc n) n []

unfoldable pub to_string_ℤ : ℤ → Text
unfolding to_string
to_string_ℤ (pos n) = to_string n
to_string_ℤ (negsuc n) = b'-' ∷ to_string (suc n)

abbrev pub usize_max : ℕ
usize_max = 2 ^ 64 - 1

-- Digits only; `none` at another character.
unfoldable pub parse_digits : ℕ → Text → Option ℕ
unfolding is_ascii_digit
parse_digits acc [] = some acc
parse_digits acc (c ∷ s) =
    let rest = parse_digits (acc * 10 + (c - b'0')) s in if is_ascii_digit c then rest else none

abbrev in_usize : Option ℕ → Option ℕ
in_usize none = none
in_usize (some n) = if ltb usize_max n then none else some n

abbrev parse_body : Text → Option ℕ
parse_body [] = none
parse_body (c ∷ s) = in_usize (parse_digits 0 (c ∷ s))

-- One leading plus sign is accepted; the empty text, and a number that overflows, are refused.
unfoldable pub parse_usize : Text → Option ℕ
unfolding parse_digits
parse_usize [] = none
parse_usize (c ∷ s) = if c == b'+' then parse_body s else parse_body (c ∷ s)

-- `{n:0w}`: zeros go in front, behind the sign.
unfoldable pub pad_number : ℕ → ℕ → Text
pad_number w n = let digits = to_string n in replicate (w - length digits) b'0' ++ digits

unfoldable pub pad_ℤ : ℕ → ℤ → Text
unfolding pad_number
pad_ℤ w (pos n) = pad_number w n
pad_ℤ w (negsuc n) = b'-' ∷ pad_number (w - 1) (suc n)
