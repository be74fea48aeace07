-- ===== src/Rows/Gets.antt =====
-- All that `Row::get` of src/rows.rs can come to.
use fing.Base.{
  ℕ, zero, suc, ◌≤◌, ◌<◌, List, [], ◌∷◌, Option, none, some, ◌≡◌, ◌⊎◌, inl, inr, Bool-cases, refl,
  arith, length, get_elem?, ltb,
}
use fing.Base.Text.{Text}
use fing.Error.{
  ConversionError, conversion, unknown_column, column_out_of_range, ok_or, Result, ok, err, Run,
  returns, panics,
}
use fing.Schema.{Attribute, Schema, len, column, index_of}
use fing.Schema.Lookup.{IsIndexOf, index_of-IsIndexOf}
use fing.Value.{Value}
use fing.Convert
use fing.Convert.{Converted, FromValue}
use fing.Rows.{ColumnIndex, by_position, by_name, index_in, Row, get, get_at, labelled}
use fing.Rows.Access.{IsIndexOf-lt, get_elem?-none}

-- The place of the column in the schema: a position within it, or the place of the name by the
-- rule for names.
abbrev pub IsPlace : ColumnIndex → Schema → ℕ → Type 0
IsPlace (by_position i) s j = (i ≡ j) × (j < length s.attributes)
IsPlace (by_name name) s j = IsIndexOf name s.attributes (some j)

Option-cases : {A : Type 0} (o : Option A) → (o ≡ none) ⊎ ((a : A) × (o ≡ some a))
Option-cases none = inl refl
Option-cases (some a) = inr (a, refl)

get_elem?-lt :
    {A : Type 0} (xs : List A) (i : ℕ) → i < length xs → (x : A) × (get_elem? xs i ≡ some x)
get_elem?-lt [] i h = absurd (omega arith)
get_elem?-lt (x ∷ xs) zero h = (x, refl)
get_elem?-lt (x ∷ xs) (suc i) h = get_elem?-lt xs i (omega arith)

module _ {C A : Type 0} (from : FromValue A) (row : Row) where
  -- The column is not one of the schema's; or the row has no value there, or one that does not
  -- convert, or one that does.
  pub data Gets : ColumnIndex → Run (Result C A) → Type 0 where
    no_position :
        (i : ℕ)
        → length row.schema.attributes ≤ i
        → Gets
            (by_position i)
            (returns (err (column_out_of_range i (length row.schema.attributes))))
    no_name :
        (name : Text)
        → IsIndexOf name row.schema.attributes none
        → Gets (by_name name) (returns (err (unknown_column name)))
    no_value :
        (col : ColumnIndex) (i : ℕ)
        → IsPlace col row.schema i
        → length row.values ≤ i
        → Gets col panics
    unread :
        (col : ColumnIndex) (i : ℕ) (v : Value) (a : Attribute) (e : ConversionError)
        → IsPlace col row.schema i
        → get_elem? row.schema.attributes i ≡ some a
        → get_elem? row.values i ≡ some v
        → from v ≡ Convert.err e
        → Gets col (returns (err (conversion a.name e)))
    read :
        (col : ColumnIndex) (i : ℕ) (v : Value) (x : A)
        → IsPlace col row.schema i
        → get_elem? row.values i ≡ some v
        → from v ≡ Convert.ok x
        → Gets col (returns (ok x))

  converts :
      (col : ColumnIndex) (i : ℕ) (v : Value) (a : Attribute) (q : Converted A)
      → IsPlace col row.schema i
      → get_elem? row.schema.attributes i ≡ some a
      → get_elem? row.values i ≡ some v
      → from v ≡ q
      → Gets col (returns (labelled {C = C} a.name q))
  converts col i v a (Convert.ok x) p s h e = read col i v x p h e
  converts col i v a (Convert.err x) p s h e = unread col i v a x p s h e

  -- At a place of the schema.
  placed :
      (col : ColumnIndex) (i : ℕ)
      → IsPlace col row.schema i
      → i < length row.schema.attributes
      → Gets col (get_at from row (ok i))
  unfolding column
  placed col i p l = elim (Option-cases (get_elem? row.values i)) [
    | inl short ↦ rw short (no_value col i p (get_elem?-none row.values i short))
    | inr (v, h) ↦
        let (a, s) = get_elem?-lt row.schema.attributes i l in
        rw (h, s) (converts col i v a (from v) p s h refl)
  ]

  by_lookup :
      (name : Text) (o : Option ℕ)
      → IsIndexOf name row.schema.attributes o
      → Gets (by_name name) (get_at from row (ok_or o (unknown_column name)))
  by_lookup name none h = no_name name h
  by_lookup name (some i) h =
      placed (by_name name) i h (IsIndexOf-lt name row.schema.attributes i h)

  -- Reading a column comes to what `Gets` describes, whatever the row and the column: a position or
  -- a name that the schema lacks is the error for it, a value that does not convert is the error of
  -- its conversion with the name of its column, and the call panics on a row that is too short.
  pub get-Gets : (col : ColumnIndex) → Gets col (get from row col)
  unfolding get index_in len
  get-Gets (by_name name) =
      by_lookup name (index_of row.schema name) (index_of-IsIndexOf name row.schema)
  get-Gets (by_position i) = elim (Bool-cases (ltb i (length row.schema.attributes))) [
    | inl inside ↦ rw inside (placed (by_position i) i (refl, ground arith) (ground arith))
    | inr outside ↦ rw outside (no_position i (ground arith))
  ]
