-- ===== src/Value/Decimal.antt =====
-- `format_decimal` of src/value.rs.
use fing.Base.{ℕ, ◌-◌, [], ◌++◌, ltb, ◌==◌, if◌then◌else◌, length, take, drop, replicate}
use fing.Base.Int.{ℤ, pos, unsigned_abs, ltb_ℤ}
use fing.Base.Text.{Text, codes}
use fing.Base.Decimal.{to_string}

-- `{digits:0>scale$}` fills on the left with zeros.
unfoldable pub format_decimal : ℤ → ℕ → Text
format_decimal whole scale =
    let digits = to_string (unsigned_abs whole) in
    let sign = if ltb_ℤ whole (pos 0) then codes "-" else [] in
    let split = length digits - scale in
    if scale == 0
    then sign ++ digits
    else if ltb scale (length digits)
    then sign ++ (take split digits ++ (codes "." ++ drop split digits))
    else sign ++ (codes "0." ++ (replicate (scale - length digits) b'0' ++ digits))
