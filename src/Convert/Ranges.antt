-- ===== src/Convert/Ranges.antt =====
-- Which values are read as which types, against src/convert.rs.
use fing.Base.{◌≢◌, Bool-cases, ◌&&◌, none, some, ◌≡◌, ◌↔◌, ◌⊎◌, inl, inr, refl, ap, arith}
use fing.Base.Int.{ℤ, ◌≤ℤ◌, leb_ℤ}
use fing.Base.Text.{codes}
use fing.Error.{ConversionError, conversion_error, with_reason}
use fing.Value.{Value, IsValue, type_name}
use fing.Convert.{
  Converted, ok, err, FromValue, out_of_range, IntType, i64, int_name, int_min, int_max, narrow,
  map_some, try_from, int_from_value, option_from_value,
}

-- The integer `i` is one that the type has.
abbrev pub InRange : IntType → ℤ → Type 0
InRange ty i = (int_min ty ≤ℤ i) × (i ≤ℤ int_max ty)

-- The value is an integer column's, and holds `i`.
abbrev pub Holds : ℤ → Value → Type 0
Holds i (Value.big_int j) = j ≡ i
Holds i (Value.int j) = j ≡ i
Holds i (Value.small_int j) = j ≡ i
Holds i _ = ⊥

try_from_fits : (ty : IntType) (i : ℤ) → InRange ty i → try_from ty i ≡ some i
unfolding try_from
try_from_fits ty i h = ground arith

-- What a conversion to an integer type answers, and for which value.
abbrev pub Reads : IntType → Value → Converted ℤ → Type 0
Reads ty v (ok i) = Holds i v × InRange ty i
Reads ty v (err e) =
    (e.expected ≡ int_name ty)
    × (e.found ≡ type_name v)
    × ((((i : ℤ) → ¬ (Holds i v)) × (e.reason ≡ none))
        ⊎ ((i : ℤ) × Holds i v × ¬ (InRange ty i) × (e.reason ≡ some (codes "value out of range"))))

narrow-Reads : (ty : IntType) (v : Value) (i : ℤ) → Holds i v → Reads ty v (narrow ty v (some i))
unfolding try_from out_of_range with_reason
narrow-Reads ty v i h = elim (Bool-cases (leb_ℤ (int_min ty) i && leb_ℤ i (int_max ty))) [
  | inl fits ↦ rw fits (h, (ground arith, ground arith))
  | inr not_fits ↦ rw not_fits (refl, refl, inr (i, h, (λ r. ground arith), refl))
]

refused-Reads :
    (ty : IntType) (v : Value) → ((i : ℤ) → ¬ (Holds i v)) → Reads ty v (narrow ty v none)
unfolding conversion_error
refused-Reads ty v h = (refl, refl, inl (h, refl))

-- Each integer type is read exactly from the integer columns whose number it has; the error names
-- both types, and gives a reason exactly when the column was an integer's.
pub int_from_value-Reads : (ty : IntType) (v : Value) → Reads ty v (int_from_value ty v)
unfolding int_from_value
int_from_value-Reads ty (Value.big_int i) = narrow-Reads ty (Value.big_int i) i refl
int_from_value-Reads ty (Value.int i) = narrow-Reads ty (Value.int i) i refl
int_from_value-Reads ty (Value.small_int i) = narrow-Reads ty (Value.small_int i) i refl
int_from_value-Reads ty v = refused-Reads ty v (λ i h. h)

-- Every integer column reads as an `i64`.
pub int_from_value-i64 : (v : Value) (i : ℤ) → IsValue v → Holds i v → int_from_value i64 v ≡ ok i
unfolding int_from_value
int_from_value-i64 (Value.big_int j) i r h = ground (arith, try_from_fits i64 j)
int_from_value-i64 (Value.int j) i r h = ground (arith, try_from_fits i64 j)
int_from_value-i64 (Value.small_int j) i r h = ground (arith, try_from_fits i64 j)
int_from_value-i64 v i r h = absurd h

map_some-ne-none : {A : Type 0} (r : Converted A) → map_some r ≢ ok none
map_some-ne-none (ok a) e = cc
map_some-ne-none (err x) e = cc

map_some-eq-some : {A : Type 0} (r : Converted A) (a : A) → map_some r ≡ ok (some a) → r ≡ ok a
map_some-eq-some (ok b) a e = cc
map_some-eq-some (err x) a e = cc

map_some-eq-err :
    {A : Type 0} (r : Converted A) (x : ConversionError) → map_some r ≡ err x → r ≡ err x
map_some-eq-err (ok b) x e = cc
map_some-eq-err (err y) x e = cc

-- `Option<T>` reads NULL as nothing, and everything else as `T` reads it, its errors included: so a
-- NULL is never taken for a value, a value for a NULL, or an error for another.
pub option_from_value_iff :
    {A : Type 0} (read : FromValue A) (v : Value)
    → ((option_from_value read v ≡ ok none) ↔ (v ≡ Value.null))
      × ((a : A) → (option_from_value read v ≡ ok (some a)) ↔ ((v ≢ Value.null) × (read v ≡ ok a)))
      × ((x : ConversionError)
          → (option_from_value read v ≡ err x) ↔ ((v ≢ Value.null) × (read v ≡ err x)))
unfolding option_from_value
option_from_value_iff read Value.null = (
  ((λ e. refl), λ e. refl),
  (λ a. ((λ e. cc), λ p. absurd (p.0 refl))),
  λ x. ((λ e. cc), λ p. absurd (p.0 refl)),
)
option_from_value_iff read v = (
  ((λ e. absurd (map_some-ne-none (read v) e)), λ e. cc),
  (λ a. ((λ e. ((λ n. cc), map_some-eq-some (read v) a e)), λ p. ap map_some p.1)),
  λ x. ((λ e. ((λ n. cc), map_some-eq-err (read v) x e)), λ p. ap map_some p.1),
)
