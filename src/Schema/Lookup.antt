-- ===== src/Schema/Lookup.antt =====
-- `Schema::index_of` against the rule in its comment: the full name first, and failing that the
-- part behind the last dot, when only one column has it.
use fing.Base.{
  ℕ, zero, suc, ◌+◌, ◌<◌, List, [], ◌∷◌, Option, none, some, ◌≡◌, ◌≢◌, ◌⊎◌, inl, inr, refl, arith,
  eq_list, eq_list_iff, Bool-cases,
}
use fing.Base.Text.{Text}
use fing.Schema.{
  Attribute, Schema, position, unqualified, find_unqualified, or_unqualified, index_of,
}

-- Column `i` is one of those that `P` holds of.
abbrev pub IsAt : (Attribute → Type 0) → List Attribute → ℕ → Type 0
IsAt P [] i = ⊥
IsAt P (a ∷ rest) zero = P a
IsAt P (a ∷ rest) (suc i) = IsAt P rest i

abbrev pub IsNowhere : (Attribute → Type 0) → List Attribute → Type 0
IsNowhere P [] = Unit {0}
IsNowhere P (a ∷ rest) = ¬ (P a) × IsNowhere P rest

-- Column `i` is the first of those.
abbrev pub IsFirstAt : (Attribute → Type 0) → List Attribute → ℕ → Type 0
IsFirstAt P [] i = ⊥
IsFirstAt P (a ∷ rest) zero = P a
IsFirstAt P (a ∷ rest) (suc i) = ¬ (P a) × IsFirstAt P rest i

-- Column `i` is the only one of those.
abbrev pub IsOnlyAt : (Attribute → Type 0) → List Attribute → ℕ → Type 0
IsOnlyAt P [] i = ⊥
IsOnlyAt P (a ∷ rest) zero = P a × IsNowhere P rest
IsOnlyAt P (a ∷ rest) (suc i) = ¬ (P a) × IsOnlyAt P rest i

-- Two columns are of those.
abbrev pub IsTwice : (Attribute → Type 0) → List Attribute → Type 0
IsTwice P columns = (i j : ℕ) × (i < j) × IsAt P columns i × IsAt P columns j

abbrev pub Named : Text → Attribute → Type 0
Named name a = a.name ≡ name

abbrev pub EndsIn : Text → Attribute → Type 0
EndsIn name a = unqualified a ≡ name

-- The rule: which answers are right.
abbrev pub IsIndexOf : Text → List Attribute → Option ℕ → Type 0
IsIndexOf name columns (some i) =
    IsFirstAt (Named name) columns i
    ⊎ (IsNowhere (Named name) columns × IsOnlyAt (EndsIn name) columns i)
IsIndexOf name columns none =
    IsNowhere (Named name) columns
    × (IsNowhere (EndsIn name) columns ⊎ IsTwice (EndsIn name) columns)

-- What `position` returns, when it starts to count at `i`.
abbrev IsPosition : Text → ℕ → List Attribute → Option ℕ → Type 0
IsPosition name i columns (some k) = (j : ℕ) × (k ≡ i + j) × IsFirstAt (Named name) columns j
IsPosition name i columns none = IsNowhere (Named name) columns

IsPosition-cons :
    (name : Text) (i : ℕ) (a : Attribute) (rest : List Attribute) (r : Option ℕ)
    → a.name ≢ name
    → IsPosition name (i + 1) rest r
    → IsPosition name i (a ∷ rest) r
IsPosition-cons name i a rest none ne h = (ne, h)
IsPosition-cons name i a rest (some k) ne (j, e, h) = (suc j, omega arith, (ne, h))

position-IsPosition :
    (name : Text) (i : ℕ) (columns : List Attribute)
    → IsPosition name i columns (position name i columns)
unfolding position
position-IsPosition name i [] = tt
position-IsPosition name i (a ∷ rest) = elim (Bool-cases (eq_list a.name name)) [
  | inl same ↦ rw same (zero, omega arith, (eq_list_iff a.name name).0 same)
  | inr other ↦ rw other (
      IsPosition-cons name i a rest _ (λ e. cc ((eq_list_iff a.name name).1 e))
        (position-IsPosition name (i + 1) rest))
]

-- What the loop returns, with nothing found so far, and with `k` found.
abbrev IsFound : Text → ℕ → List Attribute → Option ℕ → Type 0
IsFound name i columns (some k) = (j : ℕ) × (k ≡ i + j) × IsOnlyAt (EndsIn name) columns j
IsFound name i columns none = IsNowhere (EndsIn name) columns ⊎ IsTwice (EndsIn name) columns

abbrev IsStill : Text → ℕ → List Attribute → Option ℕ → Type 0
IsStill name k columns (some k') = (k' ≡ k) × IsNowhere (EndsIn name) columns
IsStill name k columns none = (j : ℕ) × IsAt (EndsIn name) columns j

module _ (name : Text) where
  IsStill-cons :
      (k : ℕ) (a : Attribute) (rest : List Attribute) (r : Option ℕ)
      → unqualified a ≢ name
      → IsStill name k rest r
      → IsStill name k (a ∷ rest) r
  IsStill-cons k a rest none ne (j, h) = (suc j, h)
  IsStill-cons k a rest (some k') ne (e, h) = (e, (ne, h))

  find_unqualified-IsStill :
      (i k : ℕ) (columns : List Attribute)
      → IsStill name k columns (find_unqualified name i (some k) columns)
  unfolding find_unqualified
  find_unqualified-IsStill i k [] = (refl, tt)
  find_unqualified-IsStill i k (a ∷ rest) = elim (Bool-cases (eq_list (unqualified a) name)) [
    | inl same ↦ rw same (zero, (eq_list_iff (unqualified a) name).0 same)
    | inr other ↦ rw other (
        IsStill-cons k a rest _ (λ e. cc ((eq_list_iff (unqualified a) name).1 e))
          (find_unqualified-IsStill (i + 1) k rest))
  ]

  IsFound-first :
      (i : ℕ) (a : Attribute) (rest : List Attribute) (r : Option ℕ)
      → unqualified a ≡ name
      → IsStill name i rest r
      → IsFound name i (a ∷ rest) r
  IsFound-first i a rest none e (j, h) = inr (zero, suc j, omega arith, e, h)
  IsFound-first i a rest (some k) e (q, h) = (zero, omega arith, (e, h))

  IsFound-cons :
      (i : ℕ) (a : Attribute) (rest : List Attribute) (r : Option ℕ)
      → unqualified a ≢ name
      → IsFound name (i + 1) rest r
      → IsFound name i (a ∷ rest) r
  IsFound-cons i a rest none ne (inl h) = inl (ne, h)
  IsFound-cons i a rest none ne (inr (j, k, l, h, h')) = inr (suc j, suc k, omega arith, h, h')
  IsFound-cons i a rest (some k) ne (j, e, h) = (suc j, omega arith, (ne, h))

  find_unqualified-IsFound :
      (i : ℕ) (columns : List Attribute)
      → IsFound name i columns (find_unqualified name i none columns)
  unfolding find_unqualified
  find_unqualified-IsFound i [] = inl tt
  find_unqualified-IsFound i (a ∷ rest) = elim (Bool-cases (eq_list (unqualified a) name)) [
    | inl same ↦ rw same (
        IsFound-first i a rest _ ((eq_list_iff (unqualified a) name).0 same)
          (find_unqualified-IsStill (i + 1) i rest))
    | inr other ↦ rw other (
        IsFound-cons i a rest _ (λ e. cc ((eq_list_iff (unqualified a) name).1 e))
          (find_unqualified-IsFound (i + 1) rest))
  ]

  found-IsIndexOf :
      (columns : List Attribute) (r : Option ℕ)
      → IsNowhere (Named name) columns
      → IsFound name 0 columns r
      → IsIndexOf name columns r
  found-IsIndexOf columns none h f = (h, f)
  found-IsIndexOf columns (some k) h (j, e, f) = let e' : k ≡ j = omega arith in rw e' (inr (h, f))

  or_unqualified-IsIndexOf :
      (columns : List Attribute) (r : Option ℕ)
      → IsPosition name 0 columns r
      → IsIndexOf name columns (or_unqualified name columns r)
  or_unqualified-IsIndexOf columns none h =
      found-IsIndexOf columns _ h (find_unqualified-IsFound 0 columns)
  or_unqualified-IsIndexOf columns (some k) (j, e, h) =
      let e' : k ≡ j = omega arith in rw e' (inl h)

  -- Whatever the columns are, the answer of `index_of` is the right one by the rule: the first
  -- column of that full name; if there is none, the only column whose name has it as the part
  -- behind its last dot; and nothing if no column has, or at least two.
  pub index_of-IsIndexOf : (s : Schema) → IsIndexOf name s.attributes (index_of s name)
  unfolding index_of
  index_of-IsIndexOf s =
      or_unqualified-IsIndexOf s.attributes _ (position-IsPosition name 0 s.attributes)
