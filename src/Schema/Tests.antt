-- ===== src/Schema/Tests.antt =====
-- Tests of src/schema.rs, after those at its end, and the properties at concrete inputs.
use fing.Base.{[], ◌∷◌, ◌≡◌, ◌↔◌, refl, some, none}
use fing.Base.Text.{Text, codes}
use fing.Value.{DataType}
use fing.Schema.{Attribute, no_constraint, Schema, index_of, unqualified}
use fing.Schema.Lookup.{IsIndexOf, index_of-IsIndexOf}
use fing.Schema.Unqualified.{IsLastPart, unqualified_iff}

abbrev column_named : Text → Attribute
column_named name = record { name = name; dtype = DataType.int; constraint = no_constraint }

abbrev joined : Schema
joined = record {
  attributes =
      column_named (codes "users.id")
      ∷ column_named (codes "orders.id")
      ∷ column_named (codes "orders.total")
      ∷ [];
}

index_of_tests :
    (index_of joined (codes "id") ≡ none)
    × (index_of joined (codes "orders.id") ≡ some 1)
    × (index_of joined (codes "total") ≡ some 2)
unfolding index_of unqualified
index_of_tests = (refl, refl, refl)

index_of-IsIndexOf_example : IsIndexOf (codes "id") joined.attributes (index_of joined (codes "id"))
index_of-IsIndexOf_example = index_of-IsIndexOf (codes "id") joined

unqualified_iff_example :
    (unqualified (column_named (codes "orders.id")) ≡ codes "id")
    ↔ IsLastPart (codes "orders.id") (codes "id")
unqualified_iff_example = unqualified_iff (column_named (codes "orders.id")) (codes "id")
