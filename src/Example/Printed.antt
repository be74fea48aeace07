-- ===== src/Example/Printed.antt =====
-- What the loop of examples/basic.rs prints.
use fing.Base.{
  List, [], ◌∷◌, ◌++◌, append_assoc, append-nil, some, ◌≡◌, refl, ap, sym, ◌∙◌, map, get_elem?, ℕ,
}
use fing.Base.Int.{ℤ}
use fing.Base.Text.{Text, codes}
use fing.Base.Decimal.{to_string_ℤ}
use fing.Error.{Result, ok, Run, returns}
use fing.Protocol.{Response}
use fing.Schema.{Schema, index_of}
use fing.Value.{Value, IsValue}
use fing.Convert.Ranges.{Holds, int_from_value-i64}
use fing.Convert.{i64, int_from_value, str_from_value}
use fing.Rows.Access.{get-by_name}
use fing.Rows.{Row, by_name, get}
use fing.Codec.{Cbor}
use fing.Example.{World, finish, go_on, ◌>>=◌, print, print_row, print_rows}

-- A row of `users`: the columns that the schema finds by these names hold a number and a text.
pub record User (schema : Schema) : Type 0 where
  pub values : List Value
  pub id_at : ℕ
  pub id_found : index_of schema (codes "id") ≡ some id_at
  pub id_value : Value
  pub id_held : get_elem? values id_at ≡ some id_value
  pub id : ℤ
  pub id_number : Holds id id_value
  pub id_sound : IsValue id_value
  pub name_at : ℕ
  pub name_found : index_of schema (codes "name") ≡ some name_at
  pub name : Text
  pub name_held : get_elem? values name_at ≡ some (Value.string name)

abbrev pub user_line : {schema : Schema} → User schema → Text
user_line u = to_string_ℤ u.id ++ codes ": " ++ u.name

abbrev user_row : (schema : Schema) → User schema → Row
user_row schema u = record { schema = schema; values = u.values }

module _ (C : Type 0) (schema : Schema) (u : User schema) where
  get-id :
      get {C = C} (int_from_value i64) (user_row schema u) (by_name (codes "id"))
      ≡ returns (ok u.id)
  get-id =
      get-by_name (int_from_value i64) (user_row schema u) (codes "id") u.id_at u.id_value u.id
        u.id_found u.id_held (int_from_value-i64 u.id_value u.id u.id_sound u.id_number)

  get-name :
      get {C = C} str_from_value (user_row schema u) (by_name (codes "name")) ≡ returns (ok u.name)
  unfolding str_from_value
  get-name =
      get-by_name str_from_value (user_row schema u) (codes "name") u.name_at (Value.string u.name)
        u.name u.name_found u.name_held refl

module _ (cbor : Cbor) (debug : Response → Text) where
  open cbor use {CborError}

  print_row-User :
      (schema : Schema) (u : User schema) (w : World)
      → print_row cbor debug (user_row schema u) w
        ≡ (returns (ok tt), record w { printed = w.printed ++ (user_line u ∷ []) })
  unfolding print_row
  print_row-User schema u w =
      ap
        (λ (r : Run (Result CborError ℤ)).
          go_on r
            (λ id.
              finish (get str_from_value (user_row schema u) (by_name (codes "name"))) >>= λ name.
              print (to_string_ℤ id ++ codes ": " ++ name))
            w)
        (get-id CborError schema u)
      ∙ ap
          (λ (r : Run (Result CborError Text)).
            go_on r (λ name. print (to_string_ℤ u.id ++ codes ": " ++ name)) w)
          (get-name CborError schema u)

  -- The loop over rows that each hold a number and a text under the names of the example prints a
  -- line for each, in order, and comes to its end without an error or a panic.
  pub print_rows-lines :
      (schema : Schema) (users : List (User schema)) (w : World)
      → print_rows cbor debug schema (map (λ u. u.values) users) w
        ≡ (returns (ok tt), record w { printed = w.printed ++ map (λ u. user_line u) users })
  unfolding print_rows
  print_rows-lines schema [] w =
      λ i. (returns (ok tt), record w { printed = sym (append-nil w.printed) i })
  print_rows-lines schema (u ∷ users) w =
      ap
        (λ (p : Run (Result CborError (Unit {0})) × World).
          go_on p.0 (λ _. print_rows cbor debug schema (map (λ u. u.values) users)) p.1)
        (print_row-User schema u w)
      ∙ print_rows-lines schema users (record w { printed = w.printed ++ (user_line u ∷ []) })
      ∙ ap (λ (lines : List Text). (returns (ok tt), record w { printed = lines }))
          (append_assoc w.printed (user_line u ∷ []) (map (λ u. user_line u) users))
