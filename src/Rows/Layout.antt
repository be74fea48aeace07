-- ===== src/Rows/Layout.antt =====
-- What the table of src/rows.rs looks like, described without its code.
use fing.Base.{
  ℕ, zero, suc, ◌+◌, ◌≤◌, List, [], ◌∷◌, ◌++◌, Bool, true, false, ◌||◌, some, ◌≡◌, All, length, map,
  get_elem?, replicate,
}
use fing.Base.Text.{Text, codes, trim_end}
use fing.Base.Decimal.{to_string}
use fing.Schema.{Attribute}
use fing.Convert.Types.{holds_integer, holds_decimal}

-- Texts with one character between each two.
abbrev pub between : ℕ → List Text → Text
between c [] = []
between c (t ∷ []) = t
between c (t ∷ u ∷ ts) = t ++ c ∷ between c (u ∷ ts)

-- Texts with a line end behind each.
abbrev pub lined : List Text → Text
lined [] = []
lined (t ∷ ts) = t ++ codes "\n" ++ lined ts

abbrev pub counted : ℕ → Text
counted (suc zero) = codes "(1 row)"
counted n = codes "(" ++ to_string n ++ codes " rows)"

abbrev pub spaces : ℕ → Text
spaces n = replicate n b' '

abbrev pub dashed : ℕ → Text
dashed w = replicate (w + 2) b'-'

abbrev pub set_in : Bool → Text → ℕ → Text
set_in true text pad = codes " " ++ spaces pad ++ text ++ codes " "
set_in false text pad = codes " " ++ text ++ spaces pad ++ codes " "

-- The text fits the width and is padded to it, on the left when it is set to the right, with one
-- space more at either end.
abbrev pub IsPadded : Bool → Text → ℕ → Text → Type 0
IsPadded right text w segment =
    (pad : ℕ) × (length text + pad ≡ w) × (segment ≡ set_in right text pad)

abbrev pub is_number : Attribute → Bool
is_number a = holds_integer a.dtype || holds_decimal a.dtype

-- The names of the columns stand on the left of their columns.
abbrev pub HeadCells : List Attribute → List ℕ → List Text → Type 0
HeadCells [] [] [] = Unit
HeadCells (a ∷ columns) (w ∷ widths) (s ∷ segments) =
    IsPadded false a.name w s × HeadCells columns widths segments
HeadCells _ _ _ = ⊥

-- The cell at position `i` stands in the column there, on the right when that one holds numbers.
abbrev pub InColumn : List Attribute → List ℕ → ℕ → Text → Text → Type 0
InColumn columns widths i cell segment =
    (a : Attribute) × (w : ℕ) × (get_elem? columns i ≡ some a)
    × (get_elem? widths i ≡ some w)
    × IsPadded (is_number a) cell w segment

-- The cells of a row from position `i` on.
abbrev pub RowCells : List Attribute → List ℕ → ℕ → List Text → List Text → Type 0
RowCells columns widths i [] [] = Unit
RowCells columns widths i (cell ∷ row) (s ∷ segments) =
    InColumn columns widths i cell s × RowCells columns widths (i + 1) row segments
RowCells columns widths i _ _ = ⊥

-- A line is its segments with a bar between each two, and no blanks at its end.
abbrev pub line_of : List Text → Text
line_of segments = trim_end (between b'|' segments)

abbrev pub BodyLines : List Attribute → List ℕ → List (List Text) → List Text → Type 0
BodyLines columns widths [] [] = Unit
BodyLines columns widths (row ∷ rows) (l ∷ ls) =
    ((segments : List Text) × RowCells columns widths 0 row segments × (l ≡ line_of segments))
    × BodyLines columns widths rows ls
BodyLines columns widths _ _ = ⊥

abbrev pub NoWider : ℕ → ℕ → List Text → Type 0
NoWider i v row = (cell : Text) → get_elem? row i ≡ some cell → length cell ≤ v

-- No column, from position `i` on, is wider than its name and its cells ask for.
abbrev pub LeastWidths : List (List Text) → ℕ → List Attribute → List ℕ → Type 0
LeastWidths cells i [] [] = Unit
LeastWidths cells i (a ∷ columns) (w ∷ widths) =
    ((v : ℕ) → length a.name ≤ v → All (NoWider i v) cells → w ≤ v)
    × LeastWidths cells (i + 1) columns widths
LeastWidths cells i _ _ = ⊥

-- The text is a header, a rule that has a plus below each bar, a line for each row, and the number
-- of the rows. Without columns it is the number alone.
abbrev pub IsTable : List Attribute → List (List Text) → ℕ → Text → Type 0
IsTable [] cells n text = text ≡ codes "(" ++ to_string n ++ codes " rows)"
IsTable columns cells n text =
    (widths : List ℕ) × (head body : List Text) × LeastWidths cells 0 columns widths
    × HeadCells columns widths head
    × BodyLines columns widths cells body
    × (text ≡ lined (line_of head ∷ between b'+' (map dashed widths) ∷ body) ++ counted n)
