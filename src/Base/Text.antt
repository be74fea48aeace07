-- ===== src/Base/Text.antt =====
-- Text is the list of its Unicode scalar values. Here are the operations of `str` that the source
-- calls: `as_bytes`, slicing, `trim`, `split`, `strip_prefix`, `contains` and the like.
use Prim.Native.Char.{code}
use Prim.Native.String.{String}
use Prim.Native.Nat.{ℕ, zero, suc, ◌+◌, ◌-◌, ◌*◌, ◌/◌, ◌%◌}
use mathlib.Core.Bool.{Bool, true, false, ◌&&◌, ◌||◌}
use mathlib.Core.List.{List, [], ◌∷◌, ◌++◌, map, reverse}
use mathlib.Core.Option.{Option, none, some}
use fing.Base.Tests.{ltb, leb, ◌==◌, if◌then◌else◌}
use fing.Base.Lists.{is_nil}

abbrev pub Text : Type 0
Text = List ℕ

abbrev pub Bytes : Type 0
Bytes = List ℕ

-- The scalar values of a literal.
abbrev pub codes : String → Text
codes String.[] = []
codes (String.◌∷◌ c s) = code c ∷ codes s

abbrev pub within : ℕ → ℕ → ℕ → Bool
within lo hi c = leb lo c && leb c hi

-- The UTF-8 encoding of one scalar value, and of a text.
unfoldable pub encode_utf8 : ℕ → Bytes
encode_utf8 c =
    if ltb c 0x80
    then c ∷ []
    else if ltb c 0x800
    then (0xc0 + c / 64) ∷ (0x80 + c % 64) ∷ []
    else if ltb c 0x10000
    then (0xe0 + c / 4096) ∷ (0x80 + c / 64 % 64) ∷ (0x80 + c % 64) ∷ []
    else (0xf0 + c / 262144) ∷ (0x80 + c / 4096 % 64) ∷ (0x80 + c / 64 % 64) ∷ (0x80 + c % 64) ∷ []

unfoldable pub as_bytes : Text → Bytes
unfolding encode_utf8
as_bytes [] = []
as_bytes (c ∷ s) = encode_utf8 c ++ as_bytes s

-- Reads encoded bytes back: `want` bytes of the current value are to come, and `acc` is what has
-- been read of it.
unfoldable pub decode_from : ℕ → ℕ → Bytes → Text
decode_from want acc [] = []
decode_from zero acc (b ∷ bs) =
    let ascii = b ∷ decode_from 0 0 bs in
    let two = decode_from 1 (b - 0xc0) bs in
    let three = decode_from 2 (b - 0xe0) bs in
    let four = decode_from 3 (b - 0xf0) bs in
    if ltb b 0x80 then ascii else if ltb b 0xe0 then two else if ltb b 0xf0 then three else four
decode_from (suc zero) acc (b ∷ bs) = (acc * 64 + (b - 0x80)) ∷ decode_from 0 0 bs
decode_from (suc (suc want)) acc (b ∷ bs) = decode_from (suc want) (acc * 64 + (b - 0x80)) bs

-- The `str` over a slice of bytes.
unfoldable pub from_utf8 : Bytes → Text
unfolding decode_from
from_utf8 = decode_from 0 0

unfoldable pub is_ascii_digit : ℕ → Bool
is_ascii_digit = within b'0' b'9'

-- `u8::is_ascii_alphanumeric`
unfoldable pub is_ascii_alphanumeric : ℕ → Bool
unfolding is_ascii_digit
is_ascii_alphanumeric c = is_ascii_digit c || within b'A' b'Z' c || within b'a' b'z' c

-- `u8::is_ascii_whitespace`, which leaves out the vertical tab
unfoldable pub is_ascii_whitespace : ℕ → Bool
is_ascii_whitespace c = c == 0x20 || c == 0x09 || c == 0x0a || c == 0x0c || c == 0x0d

unfoldable pub to_ascii_upper : ℕ → ℕ
to_ascii_upper c = if within b'a' b'z' c then c - 32 else c

-- `str::to_ascii_uppercase`
abbrev pub to_ascii_uppercase : Text → Text
to_ascii_uppercase = map to_ascii_upper

-- `char::is_whitespace`: the property White_Space
unfoldable pub is_whitespace : ℕ → Bool
is_whitespace c =
    within 0x09 0x0d c
    || c == 0x20
    || c == 0x85
    || c == 0xa0
    || c == 0x1680
    || within 0x2000 0x200a c
    || c == 0x2028
    || c == 0x2029
    || c == 0x202f
    || c == 0x205f
    || c == 0x3000

unfoldable pub trim_start : Text → Text
trim_start [] = []
trim_start (c ∷ s) = if is_whitespace c then trim_start s else c ∷ s

unfoldable pub trim_end : Text → Text
unfolding trim_start
trim_end s = reverse (trim_start (reverse s))

unfoldable pub trim : Text → Text
unfolding trim_end
trim s = trim_end (trim_start s)

-- The pieces of a text between the characters that pass a test: always one more than those.
abbrev pub push_head : ℕ → List Text → List Text
push_head c [] = (c ∷ []) ∷ []
push_head c (p ∷ ps) = (c ∷ p) ∷ ps

unfoldable pub split_by : (ℕ → Bool) → Text → List Text
split_by sep [] = [] ∷ []
split_by sep (c ∷ s) = let rest = split_by sep s in if sep c then [] ∷ rest else push_head c rest

-- `s.split(c)`, and `s.rsplit(c)`, which yields the same pieces last first
abbrev pub split : ℕ → Text → List Text
split c = split_by (λ x. x == c)

abbrev pub rsplit : ℕ → Text → List Text
rsplit c s = reverse (split c s)

unfoldable pub filter_non_empty : List Text → List Text
filter_non_empty [] = []
filter_non_empty (p ∷ ps) = let rest = filter_non_empty ps in if is_nil p then rest else p ∷ rest

unfoldable pub split_whitespace : Text → List Text
unfolding split_by filter_non_empty is_whitespace
split_whitespace s = filter_non_empty (split_by is_whitespace s)

unfoldable pub strip_prefix : Text → Text → Option Text
strip_prefix [] s = some s
strip_prefix (p ∷ ps) [] = none
strip_prefix (p ∷ ps) (c ∷ s) = if p == c then strip_prefix ps s else none

abbrev starts : Option Text → Bool
starts none = false
starts (some _) = true

unfoldable pub contains : Text → Text → Bool
unfolding strip_prefix
contains [] needle = is_nil needle
contains (c ∷ s) needle = starts (strip_prefix needle (c ∷ s)) || contains s needle

-- `pieces.join(sep)`
unfoldable pub join : Text → List Text → Text
join sep [] = []
join sep (p ∷ []) = p
join sep (p ∷ q ∷ ps) = p ++ sep ++ join sep (q ∷ ps)
