-- ===== src/Rows/Aligned.antt =====
-- The table that src/rows.rs writes, against its description in `Rows.Layout`.
use fing.Base.{
  ℕ, zero, suc, ◌+◌, ◌≤◌, List, [], ◌∷◌, ◌++◌, Bool, false, inl, inr, Option, none, some, ◌≡◌, ◌⊎◌,
  refl, ap, sym, ◌∙◌, All, arith, length, map, get_elem?, max, append_assoc, if◌then◌else◌, ◌==◌,
}
use fing.Base.Text.{Text, codes, join, trim_end}
use fing.Base.Decimal.{to_string}
use fing.Error.{Run, returns}
use fing.Schema.{Attribute}
use fing.Rows.{Rows}
use fing.Rows.Display.{
  cell_width, widest, both, header, cells_of, widths_from, dashes, line, lines, concat, count,
  table, display_table, display_rows,
}
use fing.Rows.Table.{fit_cells}
use fing.Rows.Layout.{
  between, lined, counted, dashed, HeadCells, line_of, BodyLines, NoWider, LeastWidths, IsTable,
}
use fing.Rows.Cells.{left_aligned-IsPadded, Fits, widest-Fits, cells_from-RowCells}

join-between : (c : ℕ) (ts : List Text) → join (c ∷ []) ts ≡ between c ts
unfolding join
join-between c [] = refl
join-between c (t ∷ []) = refl
join-between c (t ∷ u ∷ ts) =
    append_assoc t (c ∷ []) (join (c ∷ []) (u ∷ ts))
    ∙ ap (λ (r : Text). t ++ c ∷ r) (join-between c (u ∷ ts))

header-HeadCells :
    (j : ℕ) (columns : List Attribute) (cells : List (List Text))
    → HeadCells columns (widths_from j columns cells) (header columns (widths_from j columns cells))
unfolding header widths_from
header-HeadCells j [] cells = tt
header-HeadCells j (a ∷ columns) cells = (
  left_aligned-IsPadded a.name (max (widest j cells) (length a.name)) (omega arith),
  header-HeadCells (j + 1) columns cells,
)

cell_width-le :
    (v : ℕ) (o : Option Text) → ((cell : Text) → o ≡ some cell → length cell ≤ v) → cell_width o ≤ v
cell_width-le v none h = omega arith
cell_width-le v (some cell) h = h cell refl

widest-le : (i v : ℕ) (cells : List (List Text)) → All (NoWider i v) cells → widest i cells ≤ v
unfolding widest
widest-le i v [] h = omega arith
widest-le i v (row ∷ rows) (h, hs) =
    omega (arith, cell_width-le v (get_elem? row i) h, widest-le i v rows hs)

widths_from-LeastWidths :
    (i : ℕ) (columns : List Attribute) (cells : List (List Text))
    → LeastWidths cells i columns (widths_from i columns cells)
unfolding widths_from
widths_from-LeastWidths i [] cells = tt
widths_from-LeastWidths i (a ∷ columns) cells = (
  (λ v named fits. omega (arith, named, widest-le i v cells fits)),
  widths_from-LeastWidths (i + 1) columns cells,
)

-- A line, with its end.
abbrev ended : Text → Text
ended l = l ++ codes "\n"

lines-BodyLines :
    (columns : List Attribute) (cells rows : List (List Text))
    → All (λ row. length row ≤ length columns) rows
    → All (Fits cells 0) rows
    → (ls : List Text) × (lines columns (widths_from 0 columns cells) rows ≡ returns (map ended ls))
      × BodyLines columns (widths_from 0 columns cells) rows ls
unfolding lines
lines-BodyLines columns cells [] h k = ([], refl, tt)
lines-BodyLines columns cells (row ∷ rows) (h, hs) (k, ks) =
    let (ts, written, aligned) = cells_from-RowCells columns cells 0 row (omega (arith, h)) k in
    let (ls, below, rest) = lines-BodyLines columns cells rows hs ks in
    (
      line_of ts ∷ ls,
      ap (λ (r : Run (List Text)). both (line r) (lines columns widths rows)) written
          ∙ ap (λ (t : Text). both (returns (ended (trim_end t))) (lines columns widths rows))
              (join-between b'|' ts)
          ∙ ap (both (returns (ended (line_of ts)))) below,
      ((ts, aligned, refl), rest),
    )
  where
    widths : List ℕ
    widths = widths_from 0 columns cells

concat-ended : (ls : List Text) → concat (map ended ls) ≡ lined ls
concat-ended [] = refl
concat-ended (l ∷ ls) = ap (λ (r : Text). ended l ++ r) (concat-ended ls)

plural :
    (digits : Text) → digits ++ codes " row" ++ codes "s" ++ codes ")" ≡ digits ++ codes " rows)"
plural digits =
    append_assoc (digits ++ codes " row") (codes "s") (codes ")")
    ∙ append_assoc digits (codes " row") (codes "s)")

count-counted : (n : ℕ) → count n ≡ counted n
unfolding to_string
count-counted zero = refl
count-counted (suc zero) = refl
count-counted (suc (suc n)) =
    let several : (suc (suc n) == 1) ≡ false = ground arith in
    ap
      (λ (one : Bool).
        codes "("
        ++ to_string (suc (suc n))
        ++ codes " row"
        ++ (if one then [] else codes "s")
        ++ codes ")")
      several
    ∙ plural (codes "(" ++ to_string (suc (suc n)))

in_front : (a b c d : Text) → a ++ b ++ c ++ d ≡ a ++ (b ++ c ++ d)
in_front a b c d =
    append_assoc (a ++ b) c d
    ∙ append_assoc a b (c ++ d)
    ∙ ap (λ (r : Text). a ++ r) (sym (append_assoc b c d))

-- The text of a table whose lines are known.
table_text :
    (columns : List Attribute) (widths : List ℕ) (n : ℕ) (ls : List Text)
    → table columns widths n (returns (map ended ls))
      ≡ returns (
          lined (line_of (header columns widths) ∷ between b'+' (map dashed widths) ∷ ls)
          ++ counted n)
table_text columns widths n ls =
    ap
      (λ (h : Text). returns (
        ended (trim_end h)
        ++ join (codes "+") (dashes widths)
        ++ codes "\n"
        ++ concat (map ended ls)
        ++ count n))
      (join-between b'|' (header columns widths))
    ∙ ap (λ (r : Text). returns (ended top ++ r ++ codes "\n" ++ concat (map ended ls) ++ count n))
        (join-between b'+' (dashes widths))
    ∙ ap (λ (b : Text). returns (ended top ++ below ++ codes "\n" ++ b ++ count n))
        (concat-ended ls)
    ∙ ap (λ (c : Text). returns (ended top ++ below ++ codes "\n" ++ lined ls ++ c))
        (count-counted n)
    ∙ ap (λ (t : Text). returns (t ++ counted n))
        (in_front (ended top) below (codes "\n") (lined ls))
  where
    top : Text
    top = line_of (header columns widths)

    below : Text
    below = between b'+' (map dashed widths)

display_table-IsTable :
    (columns : List Attribute) (cells : List (List Text)) (n : ℕ)
    → ((columns ≡ []) ⊎ All (λ row. length row ≤ length columns) cells)
    → (text : Text) × (display_table columns cells n ≡ returns text) × IsTable columns cells n text
display_table-IsTable [] cells n h = (_, refl, refl)
display_table-IsTable (a ∷ rest) cells n (inl e) = cc
display_table-IsTable (a ∷ rest) cells n (inr h) =
    let (ls, written, body) = lines-BodyLines (a ∷ rest) cells cells h (widest-Fits cells) in
    (
      _,
      ap (table (a ∷ rest) widths n) written ∙ table_text (a ∷ rest) widths n ls,
      (
        widths,
        header (a ∷ rest) widths,
        ls,
        widths_from-LeastWidths 0 (a ∷ rest) cells,
        header-HeadCells 0 (a ∷ rest) cells,
        body,
        refl,
      ),
    )
  where
    widths : List ℕ
    widths = widths_from 0 (a ∷ rest) cells

-- When the schema has no columns, or no row has more cells than it has columns, the rows are written
-- as a table: a header, a rule, a line for each row and the count of the rows. Each column is as
-- wide as the widest of its name and its cells and no wider; names are padded on the right and so
-- are cells, or on the left below the integer and decimal types; bars stand between the cells of a
-- line, with a plus of the rule below each, and the blanks at the end of a line are cut off. Without
-- columns the text is the count alone, with "rows" whatever it is.
pub display_rows-IsTable :
    (r : Rows)
    → ((r.schema.attributes ≡ []) ⊎ All (λ row. length row ≤ length r.schema.attributes) r.rows)
    → (text : Text) × (display_rows r ≡ returns text)
      × IsTable r.schema.attributes (cells_of r) (length r.rows) text
unfolding display_rows
display_rows-IsTable r (inl e) =
    display_table-IsTable r.schema.attributes (cells_of r) (length r.rows) (inl e)
display_rows-IsTable r (inr h) =
    display_table-IsTable r.schema.attributes (cells_of r) (length r.rows)
      (inr ((fit_cells (length r.schema.attributes) r.rows).1 h))
