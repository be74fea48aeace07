-- ===== src/Error.antt =====
-- src/error.rs: the errors of the library, and `Result`. `C` stands for `serde_cbor::Error`, a type
-- of a third-party package. Of an I/O error the code reads the kind alone.
use fing.Base.{ℕ, [], Option, none, some, ◌++◌, ◌≡◌, refl, ◌⊎◌, inl, inr}
use fing.Base.Text.{Text, codes}
use fing.Base.Decimal.{to_string}

-- `std::io::ErrorKind`: the two kinds that the code tells from the rest.
pub data ErrorKind : Type 0 where
  unexpected_eof : ErrorKind
  connection_reset : ErrorKind
  other_kind : ℕ → ErrorKind

pub record ConversionError : Type 0 where
  pub expected : Text
  pub found : Text
  pub reason : Option Text

unfoldable pub conversion_error : Text → Text → ConversionError
conversion_error expected found = record { expected = expected; found = found; reason = none }

unfoldable pub with_reason : Text → Text → Text → ConversionError
with_reason expected found reason = record {
  expected = expected;
  found = found;
  reason = some reason;
}

pub data Error (C : Type 0) : Type 0 where
  io : ErrorKind → Error C
  encode : C → Error C
  decode : C → Error C
  request_too_large : (size limit : ℕ) → Error C
  response_too_large : (size limit : ℕ) → Error C
  connection_closed : Error C
  server : Text → Error C
  query : Text → Error C
  not_connected : Error C
  unsupported : Text → Error C
  multiple_statements : Error C
  conversion : (column : Text) → ConversionError → Error C
  unknown_column : Text → Error C
  column_out_of_range : (index count : ℕ) → Error C
  unexpected_response : Text → Error C
  invalid_argument : Text → Error C
  server_shutdown : Error C

-- `impl From<std::io::Error> for Error`
unfoldable pub from_io : {C : Type 0} → ErrorKind → Error C
from_io unexpected_eof = connection_closed
from_io connection_reset = connection_closed
from_io (other_kind k) = io (other_kind k)

abbrev display_reason : Option Text → Text
display_reason none = []
display_reason (some reason) = codes " (" ++ reason ++ codes ")"

-- `Display` of `ConversionError`
unfoldable pub display_conversion : ConversionError → Text
display_conversion e =
    codes "cannot read " ++ e.found ++ codes " as " ++ e.expected ++ display_reason e.reason

-- `Display` of `Error`. The texts of the foreign errors are parameters.
module _ {C : Type 0} (display_io : ErrorKind → Text) (display_cbor : C → Text) where
  unfoldable pub display : Error C → Text
  unfolding display_conversion
  display (io e) = codes "io error: " ++ display_io e
  display (encode e) = codes "failed to encode request: " ++ display_cbor e
  display (decode e) = codes "failed to decode response: " ++ display_cbor e
  display (request_too_large size limit) =
      codes "request is "
      ++ to_string size
      ++ codes " bytes but the server reads at most "
      ++ to_string limit
      ++ codes "; split the statement into smaller ones"
  display (response_too_large size limit) =
      codes "server announced a "
      ++ to_string size
      ++ codes " byte response, limit is "
      ++ to_string limit
  display connection_closed =
      codes "server closed the connection; it may have panicked handling the request"
  display (server msg) = codes "server error: " ++ msg
  display (query msg) = codes "query error: " ++ msg
  display not_connected =
      codes "not connected to a database; call `use_database` on this connection first"
  display (unsupported what) = codes "FairyDB does not implement " ++ what
  display multiple_statements =
      codes "input holds more than one statement; FairyDB executes only the first, "
      ++ codes "so send them one at a time"
  display (conversion column source) =
      codes "column `" ++ column ++ codes "`: " ++ display_conversion source
  display (unknown_column name) = codes "no column named `" ++ name ++ codes "`"
  display (column_out_of_range index count) =
      codes "column index "
      ++ to_string index
      ++ codes " out of range for a row of "
      ++ to_string count
  display (unexpected_response what) = codes "unexpected response: " ++ what
  display (invalid_argument msg) = codes "invalid argument: " ++ msg
  display server_shutdown = codes "server is shutting down"

-- What `std::error::Error::source` hands on: the error beneath, if there is one.
pub data Source (C : Type 0) : Type 0 where
  io_source : ErrorKind → Source C
  cbor_source : C → Source C
  conversion_source : ConversionError → Source C

unfoldable pub source : {C : Type 0} → Error C → Option (Source C)
source (io e) = some (io_source e)
source (encode e) = some (cbor_source e)
source (decode e) = some (cbor_source e)
source (conversion column e) = some (conversion_source e)
source _ = none

pub data Result (C A : Type 0) : Type 0 where
  ok : A → Result C A
  err : Error C → Result C A

module _ {C : Type 0} where
  infixl 5 ◌>>=◌
  abbrev pub ◌>>=◌ : {A B : Type 0} → Result C A → (A → Result C B) → Result C B
  ok a >>= f = f a
  err e >>= f = err e

  abbrev pub ok_or : {A : Type 0} → Option A → Error C → Result C A
  ok_or none e = err e
  ok_or (some a) e = ok a

  pub Result-cases :
      {A : Type 0} (r : Result C A) → ((a : A) × (r ≡ ok a)) ⊎ ((e : Error C) × (r ≡ err e))
  Result-cases (ok a) = inl (a, refl)
  Result-cases (err e) = inr (e, refl)

-- Code that may also panic.
pub data Run (A : Type 0) : Type 0 where
  returns : A → Run A
  panics : Run A
