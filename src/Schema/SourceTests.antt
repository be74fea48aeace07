-- ===== src/Schema/SourceTests.antt =====
-- The tests at the end of src/schema.rs on lookup and on the form of a schema, under their names
-- there; those that are types have them in the spelling of types.
use fing.Base.{ℕ, [], ◌∷◌, Bool, true, false, ◌&&◌, Option, none, some, ◌≡◌, inr, refl, ◌==◌}
use fing.Base.Text.{Text, codes}
use fing.Value.{DataType}
use fing.Schema.{
  Attribute, Schema, no_constraint, primary_key, new, index_of, unqualified, Serde, serialize,
  deserialize,
}

abbrev attr : Text → DataType → Attribute
attr name dtype = record { name = name; dtype = dtype; constraint = no_constraint }

abbrev sample : Schema
unfolding new
sample = new (
    record { name = codes "id"; dtype = DataType.int; constraint = primary_key }
    ∷ attr (codes "name") DataType.string
    ∷ [])

abbrev is_at : ℕ → Option ℕ → Bool
is_at i (some j) = i == j
is_at i none = false

abbrev is_none : Option ℕ → Bool
is_none none = true
is_none (some i) = false

abbrev columns_resolve_by_exact_name : Bool
unfolding index_of new
columns_resolve_by_exact_name =
    is_at 1 (index_of sample (codes "name")) && is_none (index_of sample (codes "missing"))

abbrev qualified : Schema
unfolding new
qualified =
    new (attr (codes "users.id") DataType.int ∷ attr (codes "orders.total") DataType.int ∷ [])

abbrev qualified_columns_resolve_when_unambiguous : Bool
unfolding index_of new
qualified_columns_resolve_when_unambiguous =
    is_at 0 (index_of qualified (codes "users.id")) && is_at 1 (index_of qualified (codes "total"))

abbrev ambiguous : Schema
unfolding new
ambiguous = new (attr (codes "users.id") DataType.int ∷ attr (codes "orders.id") DataType.int ∷ [])

abbrev ambiguous_qualified_columns_do_not_resolve : Bool
unfolding index_of new
ambiguous_qualified_columns_do_not_resolve =
    is_none (index_of ambiguous (codes "id")) && is_at 1 (index_of ambiguous (codes "orders.id"))

source_tests :
    (columns_resolve_by_exact_name ≡ true)
    × (qualified_columns_resolve_when_unambiguous ≡ true)
    × (ambiguous_qualified_columns_do_not_resolve ≡ true)
unfolding index_of new unqualified
source_tests = (refl, refl, refl)

-- Of `serde_cbor` the tests use one serializer for a schema and for its columns, and that it reads
-- back what it wrote.
module _ {Ok E In : Type 0} (serde : Serde Ok E In) where
  SchemaEncodesAsABareSequenceOfAttributes : Type 0
  SchemaEncodesAsABareSequenceOfAttributes =
      serialize serde sample ≡ serde.serialize_list sample.attributes

  -- `bytes` is what the serializer wrote, as its input.
  SchemaRoundtripsThroughCbor : In → Type 0
  SchemaRoundtripsThroughCbor bytes = deserialize serde bytes ≡ inr sample

  serde_tests :
      (bytes : In)
      → serde.deserialize_list bytes ≡ inr sample.attributes
      → SchemaEncodesAsABareSequenceOfAttributes × SchemaRoundtripsThroughCbor bytes
  unfolding serialize deserialize new SchemaEncodesAsABareSequenceOfAttributes
      SchemaRoundtripsThroughCbor
  serde_tests bytes e = (refl, rw e refl)
