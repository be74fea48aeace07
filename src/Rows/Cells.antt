-- ===== src/Rows/Cells.antt =====
-- The cells of the table that src/rows.rs writes, each in its column.
use fing.Base.{
  ℕ, zero, suc, ◌+◌, ◌-◌, ◌≤◌, ◌<◌, List, [], ◌∷◌, Bool, true, false, Option, some, ◌≡◌, refl, ap,
  subst, ◌∙◌, All, arith, length, get_elem?, max, if◌then◌else◌, get_elem?-lt, ◌||◌,
}
use fing.Base.Text.{Text}
use fing.Error.{Run, returns}
use fing.Schema.{Attribute}
use fing.Value.{DataType}
use fing.Convert.Types.{holds_integer, holds_decimal}
use fing.Rows.Display.{
  cell_width, widest, left_aligned, right_aligned, is_right_aligned, both, cell_at, cells_from,
  widths_from,
}
use fing.Rows.Layout.{IsPadded, is_number, RowCells}

pub left_aligned-IsPadded :
    (text : Text) (w : ℕ) → length text ≤ w → IsPadded false text w (left_aligned text w)
unfolding left_aligned
left_aligned-IsPadded text w h = (w - length text, omega arith, refl)

right_aligned-IsPadded :
    (text : Text) (w : ℕ) → length text ≤ w → IsPadded true text w (right_aligned text w)
unfolding right_aligned
right_aligned-IsPadded text w h = (w - length text, omega arith, refl)

is_right_aligned-number : (t : DataType) → is_right_aligned t ≡ holds_integer t || holds_decimal t
unfolding is_right_aligned
is_right_aligned-number DataType.big_int = refl
is_right_aligned-number DataType.int = refl
is_right_aligned-number DataType.small_int = refl
is_right_aligned-number (DataType.decimal p s) = refl
is_right_aligned-number _ = refl

width_at :
    (i j : ℕ) (columns : List Attribute) (cells : List (List Text))
    → i < length columns
    → (w : ℕ) × (get_elem? (widths_from j columns cells) i ≡ some w) × (widest (j + i) cells ≤ w)
unfolding widths_from
width_at i j [] cells h = elim h [ ]
width_at zero j (a ∷ columns) cells h =
    (max (widest j cells) (length a.name), refl, at_first (widest j cells) refl)
  where
    at_first : (k : ℕ) → widest j cells ≡ k → widest (j + 0) cells ≤ max k (length a.name)
    at_first k e =
        let same : j + 0 ≡ j = omega arith in
        let here : widest (j + 0) cells ≡ widest j cells = ap (λ (i : ℕ). widest i cells) same in
        omega (arith, here, e)
width_at (suc i) j (a ∷ columns) cells h =
    let (w, found, fits) = width_at i (j + 1) columns cells (omega arith) in
    (w, found, subst (λ (k : ℕ). widest k cells ≤ w) (omega arith) fits)

-- Every cell of a row is at most as wide as its column.
abbrev pub Fits : List (List Text) → ℕ → List Text → Type 0
Fits cells i row = (k : ℕ) → cell_width (get_elem? row k) ≤ widest (i + k) cells

pub widest-Fits : (cells : List (List Text)) → All (Fits cells 0) cells
unfolding widest
widest-Fits cells = among cells (λ k. omega arith)
  where
    among :
        (rows : List (List Text))
        → ((k : ℕ) → widest k rows ≤ widest k cells)
        → All (Fits cells 0) rows
    among [] h = tt
    among (row ∷ rows) h =
        ((λ k. at_front k (widest (0 + k) cells) (same k)), among rows (λ k. behind k))
      where
        same : (k : ℕ) → widest (0 + k) cells ≡ widest k cells
        same k = let e : 0 + k ≡ k = omega arith in ap (λ (i : ℕ). widest i cells) e

        at_front : (k n : ℕ) → n ≡ widest k cells → cell_width (get_elem? row k) ≤ n
        at_front k n e = omega (arith, h k, e)

        behind : (k : ℕ) → widest k rows ≤ widest k cells
        behind k = omega (arith, h k)

set_in-IsPadded :
    (right : Bool) (cell : Text) (w : ℕ)
    → length cell ≤ w
    → IsPadded right cell w (if right then right_aligned cell w else left_aligned cell w)
set_in-IsPadded true cell w h = right_aligned-IsPadded cell w h
set_in-IsPadded false cell w h = left_aligned-IsPadded cell w h

written_cell :
    (w : ℕ) (a : Attribute) (cell : Text)
    → length cell ≤ w
    → (t : Text) × (cell_at (some w) (some a) cell ≡ returns t) × IsPadded (is_number a) cell w t
written_cell w a cell h = (
  (if is_right_aligned a.dtype then right_aligned cell w else left_aligned cell w),
  refl,
  subst
      (λ (right : Bool).
        IsPadded right cell w
          (if is_right_aligned a.dtype then right_aligned cell w else left_aligned cell w))
      (is_right_aligned-number a.dtype) (set_in-IsPadded (is_right_aligned a.dtype) cell w h),
)

module _ (columns : List Attribute) (cells : List (List Text)) where
  abbrev widths : List ℕ
  widths = widths_from 0 columns cells

  pub cells_from-RowCells :
      (i : ℕ) (row : List Text)
      → i + length row ≤ length columns
      → Fits cells i row
      → (ts : List Text) × (cells_from columns widths i row ≡ returns ts)
        × RowCells columns widths i row ts
  unfolding cells_from
  cells_from-RowCells i [] h fits = ([], refl, tt)
  cells_from-RowCells i (cell ∷ row) h fits =
      let (a, named) = get_elem?-lt columns i (omega arith) in
      let (w, found, wide) = width_at i 0 columns cells (omega arith) in
      let (ts, written, rest) = cells_from-RowCells (i + 1) row (omega arith) (λ k. later k) in
      let (t, first, padded) = written_cell w a cell (omega (arith, wide, here)) in
      (
        t ∷ ts,
        ap
              (λ (o : Option ℕ).
                both (cell_at o (get_elem? columns i) cell) (cells_from columns widths (i + 1) row))
              found
            ∙ ap
                (λ (o : Option Attribute).
                  both (cell_at (some w) o cell) (cells_from columns widths (i + 1) row))
                named
            ∙ ap (λ (r : Run Text). both r (cells_from columns widths (i + 1) row)) first
            ∙ ap (both (returns t)) written,
        ((a, w, named, found, padded), rest),
      )
    where
      later : (k : ℕ) → cell_width (get_elem? row k) ≤ widest (i + 1 + k) cells
      later k =
          let e : i + suc k ≡ i + 1 + k = omega arith in
          subst (λ (n : ℕ). cell_width (get_elem? row k) ≤ widest n cells) e (fits (suc k))

      here : length cell ≤ widest (0 + i) cells
      here =
          let e : i + 0 ≡ 0 + i = omega arith in
          subst (λ (n : ℕ). length cell ≤ widest n cells) e (fits 0)
