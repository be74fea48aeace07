-- ===== src/Rows/Display.antt =====
-- `Display` of `Rows` in src/rows.rs: the rows as a table of text.
use fing.Base.{
  ℕ, ◌+◌, ◌-◌, List, [], ◌∷◌, ◌++◌, Bool, true, false, Option, none, some, max, length, map,
  replicate, get_elem?, ◌==◌, if◌then◌else◌,
}
use fing.Base.Text.{Text, codes, trim_end, join}
use fing.Base.Decimal.{to_string}
use fing.Error.{Run, returns, panics}
use fing.Schema.{Attribute}
use fing.Value.{DataType, display_value}
use fing.Rows.{Rows}

unfoldable pub is_right_aligned : DataType → Bool
is_right_aligned DataType.big_int = true
is_right_aligned DataType.int = true
is_right_aligned DataType.small_int = true
is_right_aligned (DataType.decimal p s) = true
is_right_aligned _ = false

-- `row.get(i)`, measured
abbrev pub cell_width : Option Text → ℕ
cell_width none = 0
cell_width (some cell) = length cell

unfoldable pub widest : ℕ → List (List Text) → ℕ
widest i [] = 0
widest i (row ∷ rows) = max (cell_width (get_elem? row i)) (widest i rows)

-- The widths of the columns from position `i` on.
unfoldable pub widths_from : ℕ → List Attribute → List (List Text) → List ℕ
unfolding widest
widths_from i [] cells = []
widths_from i (a ∷ rest) cells =
    max (widest i cells) (length a.name) ∷ widths_from (i + 1) rest cells

abbrev pub padding : Text → ℕ → Text
padding text width = replicate (width - length text) b' '

-- `format!(" {:<width$} ")` and `format!(" {:>width$} ")`
unfoldable pub left_aligned : Text → ℕ → Text
left_aligned text width = codes " " ++ text ++ padding text width ++ codes " "

unfoldable pub right_aligned : Text → ℕ → Text
right_aligned text width = codes " " ++ padding text width ++ text ++ codes " "

unfoldable pub header : List Attribute → List ℕ → List Text
unfolding left_aligned
header (a ∷ columns) (width ∷ widths) = left_aligned a.name width ∷ header columns widths
header _ _ = []

abbrev pub dashes : List ℕ → List Text
dashes widths = map (λ width. replicate (width + 2) b'-') widths

abbrev rule : List ℕ → Text
rule widths = join (codes "+") (dashes widths)

-- `columns.get(i).is_some_and(..)`
abbrev pub right_at : Option Attribute → Bool
right_at none = false
right_at (some a) = is_right_aligned a.dtype

-- A cell, after `widths[i]`, which may panic.
abbrev pub cell_at : Option ℕ → Option Attribute → Text → Run Text
cell_at none column cell = panics
cell_at (some width) column cell =
    returns (if right_at column then right_aligned cell width else left_aligned cell width)

abbrev pub both : {A : Type 0} → Run A → Run (List A) → Run (List A)
both panics later = panics
both (returns a) panics = panics
both (returns a) (returns later) = returns (a ∷ later)

-- The cells of a row from position `i` on.
unfoldable pub cells_from : List Attribute → List ℕ → ℕ → List Text → Run (List Text)
cells_from columns widths i [] = returns []
cells_from columns widths i (cell ∷ row) =
    both (cell_at (get_elem? widths i) (get_elem? columns i) cell)
      (cells_from columns widths (i + 1) row)

abbrev pub line : Run (List Text) → Run Text
line panics = panics
line (returns cells) = returns (trim_end (join (codes "|") cells) ++ codes "\n")

unfoldable pub lines : List Attribute → List ℕ → List (List Text) → Run (List Text)
lines columns widths [] = returns []
lines columns widths (row ∷ rows) =
    both (line (cells_from columns widths 0 row)) (lines columns widths rows)

abbrev pub concat : List Text → Text
concat [] = []
concat (t ∷ ts) = t ++ concat ts

abbrev pub count : ℕ → Text
count n =
    codes "(" ++ to_string n ++ codes " row" ++ (if n == 1 then [] else codes "s") ++ codes ")"

abbrev pub table : List Attribute → List ℕ → ℕ → Run (List Text) → Run Text
table columns widths n panics = panics
table columns widths n (returns body) = returns (
    trim_end (join (codes "|") (header columns widths))
    ++ codes "\n"
    ++ rule widths
    ++ codes "\n"
    ++ concat body
    ++ count n)

abbrev pub cells_of : Rows → List (List Text)
cells_of r = map (map display_value) r.rows

abbrev pub display_table : List Attribute → List (List Text) → ℕ → Run Text
display_table [] cells n = returns (codes "(" ++ to_string n ++ codes " rows)")
display_table columns cells n =
    let widths = widths_from 0 columns cells in table columns widths n (lines columns widths cells)

unfoldable pub display_rows : Rows → Run Text
display_rows r = display_table r.schema.attributes (cells_of r) (length r.rows)
