-- ===== src/Rows/Access.antt =====
-- Reading a column of a row, against src/rows.rs.
use fing.Base.{
  ℕ, suc, zero, ◌≤◌, ◌<◌, List, [], ◌∷◌, Option, none, some, ◌≡◌, ◌≢◌, ◌↔◌, inl, inr, refl, ap, ◌∙◌,
  arith, length, get_elem?,
}
use fing.Base.Text.{Text}
use fing.Error.{Error, ok_or, unknown_column, Result, ok, err, returns, panics}
use fing.Schema.{Attribute, Schema, len, column, index_of}
use fing.Schema.Lookup.{IsFirstAt, IsOnlyAt, IsIndexOf, index_of-IsIndexOf, Named, EndsIn}
use fing.Value.{Value}
use fing.Convert
use fing.Convert.{Converted, FromValue}
use fing.Rows.{
  ColumnIndex, by_position, by_name, index_in, Row, read_value, get, get_at, value_or_panic,
  labelled, column_label,
}

IsFirstAt-lt :
    (P : Attribute → Type 0) (columns : List Attribute) (i : ℕ)
    → IsFirstAt P columns i
    → i < length columns
IsFirstAt-lt P [] i h = absurd h
IsFirstAt-lt P (a ∷ rest) zero h = omega arith
IsFirstAt-lt P (a ∷ rest) (suc i) h = omega (arith, IsFirstAt-lt P rest i h.1)

IsOnlyAt-lt :
    (P : Attribute → Type 0) (columns : List Attribute) (i : ℕ)
    → IsOnlyAt P columns i
    → i < length columns
IsOnlyAt-lt P [] i h = absurd h
IsOnlyAt-lt P (a ∷ rest) zero h = omega arith
IsOnlyAt-lt P (a ∷ rest) (suc i) h = omega (arith, IsOnlyAt-lt P rest i h.1)

pub IsIndexOf-lt :
    (name : Text) (columns : List Attribute) (i : ℕ)
    → IsIndexOf name columns (some i)
    → i < length columns
IsIndexOf-lt name columns i (inl h) = IsFirstAt-lt (Named name) columns i h
IsIndexOf-lt name columns i (inr (_, h)) = IsOnlyAt-lt (EndsIn name) columns i h

index_of-lt :
    (s : Schema) (name : Text) (i : ℕ) → index_of s name ≡ some i → i < length s.attributes
index_of-lt s name i e = IsIndexOf-lt name s.attributes i (rw e at (index_of-IsIndexOf name s))

ok_or-eq-ok : {C A : Type 0} (o : Option A) (e : Error C) (a : A) → ok_or o e ≡ ok a → o ≡ some a
ok_or-eq-ok none e a h = cc
ok_or-eq-ok (some b) e a h = cc

-- A column that resolves is one of the schema's.
index_in-lt :
    {C : Type 0} (col : ColumnIndex) (s : Schema) (i : ℕ)
    → index_in {C = C} col s ≡ ok i
    → i < length s.attributes
unfolding index_in len
index_in-lt (by_position j) s i e = ground arith
index_in-lt {C} (by_name name) s i e =
    index_of-lt s name i (ok_or-eq-ok {C = C} (index_of s name) (unknown_column name) i e)

pub get_elem?-none : {A : Type 0} (xs : List A) (i : ℕ) → get_elem? xs i ≡ none → length xs ≤ i
get_elem?-none [] i e = omega arith
get_elem?-none (x ∷ xs) zero e = cc
get_elem?-none (x ∷ xs) (suc i) e = omega (arith, get_elem?-none xs i e)

get_elem?-le : {A : Type 0} (xs : List A) (i : ℕ) → length xs ≤ i → get_elem? xs i ≡ none
get_elem?-le [] i h = refl
get_elem?-le (x ∷ xs) zero h = elim h [ ]
get_elem?-le (x ∷ xs) (suc i) h = get_elem?-le xs i (omega arith)

ok-injective : {C A : Type 0} {a b : A} → ◌≡◌ {A = Result C A} (ok a) (ok b) → a ≡ b
ok-injective e = cc

module _ {C A : Type 0} (from : FromValue A) (row : Row) where
  read_value-panics :
      (j : ℕ) (o : Option Value)
      → (read_value {C = C} from row j (value_or_panic o) ≡ panics) ↔ (o ≡ none)
  read_value-panics j none = ((λ h. refl), λ h. refl)
  read_value-panics j (some v) = ((λ h. cc), λ h. cc)

  get_at-panics :
      (r : Result C ℕ)
      → (get_at {C = C} from row r ≡ panics) ↔ ((i : ℕ) × (r ≡ ok i) × (length row.values ≤ i))
  get_at-panics (err e) = ((λ h. cc), λ (i, h, l). cc)
  get_at-panics (ok j) = (
    (λ h. (
      j,
      refl,
      get_elem?-none row.values j ((read_value-panics j (get_elem? row.values j)).0 h),
    )),
    λ (i, e, l).
        (read_value-panics j (get_elem? row.values j)).1
          (rw (ok-injective {C = C} e) (get_elem?-le row.values i l)),
  )

  -- Reading a column panics exactly when the column resolves to a place that the row lacks, which
  -- only a row shorter than its schema has.
  pub get-panics_iff :
      (col : ColumnIndex)
      → (get {C = C} from row col ≡ panics)
        ↔ ((i : ℕ) × (index_in {C = C} col row.schema ≡ ok i) × (length row.values ≤ i))
  unfolding get
  get-panics_iff col = get_at-panics (index_in col row.schema)

  -- A row with a value for every column of its schema is read without a panic, whatever the column.
  pub get-never_panics :
      (col : ColumnIndex)
      → length row.schema.attributes ≤ length row.values
      → get {C = C} from row col ≢ panics
  get-never_panics col full e =
      let (i, r, l) = (get-panics_iff col).0 e in
      omega (arith, full, l, index_in-lt col row.schema i r)

  -- A column that is found by its name, and whose value converts, is read as what it converts to.
  pub get-by_name :
      (name : Text) (i : ℕ) (v : Value) (a : A)
      → index_of row.schema name ≡ some i
      → get_elem? row.values i ≡ some v
      → from v ≡ Convert.ok a
      → get {C = C} from row (by_name name) ≡ returns (ok a)
  unfolding get index_in
  get-by_name name i v a found held reads =
      ap (λ (o : Option ℕ). get_at {C = C} from row (ok_or o (unknown_column name))) found
      ∙ ap (λ (o : Option Value). read_value {C = C} from row i (value_or_panic o)) held
      ∙ ap
          (λ (r : Converted A). returns (labelled {C = C} (column_label i (column row.schema i)) r))
          reads
