-- ===== src/Schema.antt =====
-- src/schema.rs: columns, and how a column is found by its name.
pub mod Lookup
pub mod Unqualified
mod SourceTests
mod Tests
use fing.Base.{
  ℕ, suc, ◌+◌, [], ◌∷◌, List, Bool, true, false, Option, none, some, map, length, is_nil, get_elem?,
  eq_list, ◌⊎◌, inl, inr, if◌then◌else◌,
}
use fing.Base.Text.{Text, rsplit, split_by}
use fing.Value.{DataType}

pub data Constraint : Type 0 where
  no_constraint : Constraint
  primary_key unique not_null unique_not_null : Constraint
  foreign_key : ℕ → Constraint
  not_null_f_key : ℕ → Constraint

pub record Attribute : Type 0 where
  pub name : Text
  pub dtype : DataType
  pub constraint : Constraint

abbrev is_primary : Constraint → Bool
is_primary primary_key = true
is_primary _ = false

unfoldable pub is_primary_key : Attribute → Bool
is_primary_key a = is_primary a.constraint

pub record Schema : Type 0 where
  pub attributes : List Attribute

unfoldable pub new : List Attribute → Schema
new attributes = record { attributes = attributes }

abbrev pub columns : Schema → List Attribute
columns s = s.attributes

unfoldable pub len : Schema → ℕ
len s = length s.attributes

unfoldable pub is_empty : Schema → Bool
is_empty s = is_nil s.attributes

unfoldable pub column : Schema → ℕ → Option Attribute
column s index = get_elem? s.attributes index

unfoldable pub names : Schema → List Text
names s = map (λ a. a.name) s.attributes

-- `iter().position(|a| a.name == name)`, from position `i` on
unfoldable pub position : Text → ℕ → List Attribute → Option ℕ
unfolding eq_list
position name i [] = none
position name i (a ∷ rest) =
    let later = position name (i + 1) rest in if eq_list a.name name then some i else later

abbrev first_or : Text → List Text → Text
first_or default [] = default
first_or default (p ∷ ps) = p

-- `attr.name.rsplit('.').next().unwrap_or(&attr.name)`
unfoldable pub unqualified : Attribute → Text
unfolding split_by
unqualified a = first_or a.name (rsplit b'.' a.name)

-- The loop over `enumerate()`, from position `i` on.
unfoldable pub find_unqualified : Text → ℕ → Option ℕ → List Attribute → Option ℕ
unfolding eq_list
find_unqualified name i found [] = found
find_unqualified name i none (a ∷ rest) =
    find_unqualified name (i + 1) (if eq_list (unqualified a) name then some i else none) rest
find_unqualified name i (some j) (a ∷ rest) =
    let later = find_unqualified name (i + 1) (some j) rest in
    if eq_list (unqualified a) name then none else later

abbrev or_unqualified : Text → List Attribute → Option ℕ → Option ℕ
or_unqualified name attributes (some i) = some i
or_unqualified name attributes none = find_unqualified name 0 none attributes

unfoldable pub index_of : Schema → Text → Option ℕ
unfolding position find_unqualified
index_of s name = or_unqualified name s.attributes (position name 0 s.attributes)

-- What serde does with a list of columns, written by a `Serializer` and read by a `Deserializer`: a
-- value, or an error of theirs.
pub record Serde (Ok E In : Type 0) : Type 0 where
  pub serialize_list : List Attribute → E ⊎ Ok
  pub deserialize_list : In → E ⊎ List Attribute

abbrev map_ok : {E A B : Type 0} → (A → B) → E ⊎ A → E ⊎ B
map_ok f (inl e) = inl e
map_ok f (inr a) = inr (f a)

-- The two impls by hand: a schema is written as the bare sequence of its columns.
unfoldable pub serialize : {Ok E In : Type 0} → Serde Ok E In → Schema → E ⊎ Ok
serialize serde s = serde.serialize_list s.attributes

unfoldable pub deserialize : {Ok E In : Type 0} → Serde Ok E In → In → E ⊎ Schema
unfolding new
deserialize serde input = map_ok new (serde.deserialize_list input)
