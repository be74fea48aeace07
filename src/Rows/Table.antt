-- ===== src/Rows/Table.antt =====
-- When the table of `Rows` in src/rows.rs can be written.
use fing.Base.{
  ℕ, zero, suc, ◌+◌, ◌≤◌, ◌<◌, List, [], ◌∷◌, Option, ◌≡◌, ◌↔◌, ◌⊎◌, inl, inr, refl, ap, subst, All,
  arith, length, length-map, map, get_elem?,
}
use fing.Base.Text.{Text}
use fing.Error.{Run, returns, panics}
use fing.Schema.{Attribute}
use fing.Value.{Value, display_value}
use fing.Rows.{Rows}
use fing.Rows.Display.{
  cell_at, both, cells_from, line, lines, table, display_table, display_rows, widths_from,
}

-- The computation returns.
abbrev pub Returns : {A : Type 0} → Run A → Type 0
Returns panics = ⊥
Returns (returns a) = Unit

both-Returns :
    {A : Type 0} (a : Run A) (b : Run (List A)) → Returns (both a b) ↔ (Returns a × Returns b)
both-Returns panics b = ground arith
both-Returns (returns a) panics = ground arith
both-Returns (returns a) (returns b) = ground arith

line-Returns : (r : Run (List Text)) → Returns (line r) ↔ Returns r
line-Returns panics = ground arith
line-Returns (returns a) = ground arith

cell_at-Returns :
    (widths : List ℕ) (i : ℕ) (column : Option Attribute) (cell : Text)
    → Returns (cell_at (get_elem? widths i) column cell) ↔ (i < length widths)
cell_at-Returns [] i column cell = ((λ h. elim h [ ]), λ h. elim h [ ])
cell_at-Returns (w ∷ ws) zero column cell = ((λ _. omega arith), λ _. tt)
cell_at-Returns (w ∷ ws) (suc i) column cell =
    let (f, g) = cell_at-Returns ws i column cell in
    ((λ h. let l : i < length ws = f h in omega arith), λ h. g (omega arith))

both_iff :
    {A P Q : Type 0} (a : Run A) (b : Run (List A))
    → (Returns a ↔ P)
    → (Returns b ↔ Q)
    → Returns (both a b) ↔ (P × Q)
both_iff a b (f, f') (g, g') =
    let (there, back) = both-Returns a b in
    ((λ r. (f (there r).0, g (there r).1)), λ p. back (f' p.0, g' p.1))

of_line : {P : Type 0} (r : Run (List Text)) → (Returns r ↔ P) → Returns (line r) ↔ P
of_line panics h = h
of_line (returns cells) h = h

-- One more cell, at position `i`.
step :
    {A : Type 0} (a : Run A) (b : Run (List A)) (i k n : ℕ)
    → (Returns a ↔ (i < n))
    → (i + 1 ≤ n → Returns b ↔ (i + 1 + k ≤ n))
    → Returns (both a b) ↔ (i + suc k ≤ n)
step a b i k n first rest = (there, back)
  where
    there : Returns (both a b) → i + suc k ≤ n
    there r =
        let (x, y) = (both-Returns a b).0 r in
        let l : i < n = first.0 x in let m : i + 1 + k ≤ n = (rest (omega arith)).0 y in omega arith

    back : i + suc k ≤ n → Returns (both a b)
    back l = (both-Returns a b).1 (first.1 (omega arith), (rest (omega arith)).1 (omega arith))

module _ (columns : List Attribute) (widths : List ℕ) where
  cells_from-Returns :
      (row : List Text) (i : ℕ)
      → i ≤ length widths
      → Returns (cells_from columns widths i row) ↔ (i + length row ≤ length widths)
  unfolding cells_from
  cells_from-Returns [] i h = ((λ _. omega arith), λ _. tt)
  cells_from-Returns (cell ∷ row) i h =
      step (cell_at (get_elem? widths i) (get_elem? columns i) cell)
        (cells_from columns widths (i + 1) row) i (length row) (length widths)
        (cell_at-Returns widths i (get_elem? columns i) cell)
        (λ l. cells_from-Returns row (i + 1) l)

  whole_row :
      (row : List Text) → Returns (cells_from columns widths 0 row) ↔ (length row ≤ length widths)
  whole_row row =
      let (f, g) = cells_from-Returns row 0 (omega arith) in
      ((λ r. let l : 0 + length row ≤ length widths = f r in omega arith), λ l. g (omega arith))

  lines-Returns :
      (cells : List (List Text))
      → Returns (lines columns widths cells) ↔ All (λ row. length row ≤ length widths) cells
  unfolding lines
  lines-Returns [] = ((λ _. tt), λ _. tt)
  lines-Returns (row ∷ rows) =
      both_iff (line (cells_from columns widths 0 row)) (lines columns widths rows)
        (of_line (cells_from columns widths 0 row) (whole_row row)) (lines-Returns rows)

pub length-widths_from :
    (i : ℕ) (columns : List Attribute) (cells : List (List Text))
    → length (widths_from i columns cells) ≡ length columns
unfolding widths_from
length-widths_from i [] cells = refl
length-widths_from i (a ∷ rest) cells = ap suc (length-widths_from (i + 1) rest cells)

table-Returns :
    (columns : List Attribute) (widths : List ℕ) (n : ℕ) (body : Run (List Text))
    → Returns (table columns widths n body) ↔ Returns body
table-Returns columns widths n panics = ((λ h. h), λ h. h)
table-Returns columns widths n (returns body) = ((λ h. tt), λ h. tt)

pub fit_cells :
    (n : ℕ) (rows : List (List Value))
    → All (λ row. length row ≤ n) (map (map display_value) rows) ↔ All (λ row. length row ≤ n) rows
fit_cells n [] = ((λ h. h), λ h. h)
fit_cells n (row ∷ rows) =
    let (f, g) = fit_cells n rows in
    let e : length (map display_value row) ≡ length row = length-map display_value row in
    ((λ p. (rw e at p.0, f p.1)), λ p. (rw e p.0, g p.1))

display_table-Returns :
    (columns : List Attribute) (rows : List (List Value)) (n : ℕ)
    → Returns (display_table columns (map (map display_value) rows) n)
      ↔ ((columns ≡ []) ⊎ All (λ row. length row ≤ length columns) rows)
display_table-Returns [] rows n = ((λ _. inl refl), λ _. tt)
display_table-Returns (a ∷ rest) rows n =
    let (f, g) = fit_cells (length (a ∷ rest)) rows in
    let (h, k) = table-Returns (a ∷ rest) widths n (lines (a ∷ rest) widths cells) in
    ((λ r. inr (f (body.0 (h r)))), λ fits. k (body.1 (g (not_empty fits))))
  where
    cells : List (List Text)
    cells = map (map display_value) rows

    widths : List ℕ
    widths = widths_from 0 (a ∷ rest) cells

    not_empty :
        (((a ∷ rest) ≡ []) ⊎ All (λ row. length row ≤ length (a ∷ rest)) rows)
        → All (λ row. length row ≤ length (a ∷ rest)) rows
    not_empty (inl e) = cc
    not_empty (inr h) = h

    body :
        Returns (lines (a ∷ rest) widths cells) ↔ All (λ row. length row ≤ length (a ∷ rest)) cells
    body =
        subst (λ k. Returns (lines (a ∷ rest) widths cells) ↔ All (λ row. length row ≤ k) cells)
          (length-widths_from 0 (a ∷ rest) cells) (lines-Returns (a ∷ rest) widths cells)

-- The table of a result set is written, without a panic, exactly when the schema has no columns or
-- no row has more cells than the schema has columns.
pub display_rows-Returns :
    (r : Rows)
    → Returns (display_rows r)
      ↔ ((r.schema.attributes ≡ []) ⊎ All (λ row. length row ≤ length r.schema.attributes) r.rows)
unfolding display_rows
display_rows-Returns r = display_table-Returns r.schema.attributes r.rows (length r.rows)
