-- ===== src/Example/Tests.antt =====
-- The properties of examples/basic.rs at concrete inputs.
use fing.Base.{if◌then◌else◌, ◌==◌, List, [], ◌∷◌, ◌++◌, true, false, none, ◌≡◌, refl, arith, map}
use fing.Base.Int.{pos}
use fing.Base.Text.{
  Text, Bytes, codes, filter_non_empty, split_by, strip_prefix, trim, is_whitespace, join, trim_end,
  trim_start,
}
use fing.Base.Decimal.{to_string, to_string_ℤ}
use fing.Rows
use fing.Rows.Display.{
  display_rows, widths_from, widest, header, left_aligned, right_aligned, is_right_aligned, lines,
  cells_from,
}
use fing.Error.{unexpected_eof, ok, returns}
use fing.Protocol
use fing.Protocol.{Response, Tuple, system_command, db_command}
use fing.Codec.{Coded, coded, failed, Cbor}
use fing.Client.Names.{parse_list}
use fing.Example.Completes.{Serves, finished, session_lines, session-completes}
use fing.Value.{Value, DataType, display_value}
use fing.Schema.{Schema, no_constraint, index_of, unqualified}
use fing.Codec.Frames.{framed}
use fing.Codec.Transport.{Stream}
use fing.Codec.Toy.{toy}
use fing.Client.{Client}
use fing.Client.Connect.{Network, done}
use fing.Client.Sessions.{OpensFresh}
use fing.Example.{any_users, main, print_rows, select_users, session}
use fing.Example.Guarded.{Leaves, main-IsGuarded}
use fing.Example.Printed.{User, user_line, print_rows-lines}

abbrev debug : Response → Text
debug r = codes "?"

abbrev fresh : Stream
fresh = record {
  incoming = framed (codes "Databases: demo") ++ framed (codes "Connected");
  ending = unexpected_eof;
  sent = [];
  broken = none;
  nodelay = false;
  read_timeout = none;
  write_timeout = none;
}

abbrev local : Network
local = record {
  resolve = λ name. done (codes "127.0.0.1:3333" ∷ []);
  open_stream = λ a. done fresh;
  open_within = λ a t. done fresh;
  set_nodelay = λ s. done tt;
}

local-OpensFresh : OpensFresh toy debug local
local-OpensFresh = record { plain = λ a s e. cc; within = λ a t s e. cc }

main-IsGuarded_example : Leaves toy debug (main toy debug local none).1
main-IsGuarded_example = main-IsGuarded toy debug local none local-OpensFresh

abbrev client : Client
client = record {
  stream = fresh;
  addr = codes "127.0.0.1:3333";
  database = none;
  statement_guard = true;
}

abbrev users : Schema
users = record {
  attributes =
      record { name = codes "users.id"; dtype = DataType.int; constraint = no_constraint }
      ∷ record { name = codes "users.name"; dtype = DataType.string; constraint = no_constraint }
      ∷ [];
}

abbrev alice_values : List Value
alice_values = Value.int (pos 1) ∷ Value.string (codes "alice") ∷ []

alice : User users
unfolding index_of unqualified
alice = record {
  values = alice_values;
  id_at = 0;
  id_found = refl;
  id_value = Value.int (pos 1);
  id_held = refl;
  id = pos 1;
  id_number = refl;
  id_sound = (omega arith, omega arith);
  name_at = 1;
  name_found = refl;
  name = codes "alice";
  name_held = refl;
}

print_rows-lines_example :
    print_rows toy debug users
      (map (λ (u : User users). u.values) (alice ∷ []))
      (record { client = client; printed = [] })
    ≡ (
      returns (ok tt),
      record {
        client = client;
        printed = [] ++ map (λ (u : User users). user_line u) (alice ∷ []);
      },
    )
print_rows-lines_example =
    print_rows-lines toy debug users (alice ∷ []) (record { client = client; printed = [] })

abbrev rows : List Tuple
rows = record { tid = 0; value_id = none; field_vals = alice_values } ∷ []

-- A codec as `toy`, whose result set has the users.
abbrev decode_users : Bytes → Coded (Unit {0}) Response
decode_users [] = failed tt
decode_users (b ∷ bs) =
    if b == 2
    then coded (Protocol.query_result (Protocol.select users rows none))
    else coded (Protocol.system_msg (b ∷ bs))

abbrev users_cbor : Cbor
users_cbor = record { CborError = Unit {0}; to_vec = toy.to_vec; from_slice = decode_users }

abbrev answered : Client
answered = record client {
  stream = record fresh {
    incoming =
        framed (codes "Databases: demo")
        ++ (framed (codes "Connected")
            ++ (framed (codes "Tables: users") ++ (framed (2 ∷ []) ++ [])));
  };
}

answered-Serves : Serves users_cbor debug answered
unfolding system_command db_command parse_list filter_non_empty split_by strip_prefix trim
    is_whitespace any_users alice display_rows widths_from widest header left_aligned right_aligned
    is_right_aligned lines cells_from display_value to_string to_string_ℤ join trim_end trim_start
    Rows.new
answered-Serves = record {
  listing = codes "Databases: demo";
  name = codes "demo";
  others = [];
  listed = refl;
  named = refl;
  first_reply = record {
    request = 1 ∷ [];
    encodes = refl;
    request_fits = omega arith;
    writable = refl;
    body = codes "Databases: demo";
    rest =
        framed (codes "Connected") ++ (framed (codes "Tables: users") ++ (framed (2 ∷ []) ++ []));
    arrives = refl;
    not_empty = omega arith;
    body_fits = omega arith;
    decodes = refl;
  };
  chosen = Protocol.system_msg (codes "Connected");
  accepts = refl;
  second_reply = record {
    request = codes "demo";
    encodes = refl;
    request_fits = omega arith;
    writable = refl;
    body = codes "Connected";
    rest = framed (codes "Tables: users") ++ (framed (2 ∷ []) ++ []);
    arrives = refl;
    not_empty = omega arith;
    body_fits = omega arith;
    decodes = refl;
  };
  third = codes "Tables: users";
  has_users = refl;
  third_reply = record {
    request = 1 ∷ [];
    encodes = refl;
    request_fits = omega arith;
    writable = refl;
    body = codes "Tables: users";
    rest = framed (2 ∷ []) ++ [];
    arrives = refl;
    not_empty = omega arith;
    body_fits = omega arith;
    decodes = refl;
  };
  schema = users;
  users = alice ∷ [];
  tuples = rows;
  hold = refl;
  paging = none;
  table = codes " users.id | users.name\n----------+------------\n        1 | alice\n(1 row)";
  shown = refl;
  fourth_reply = record {
    request = select_users;
    encodes = refl;
    request_fits = omega arith;
    writable = refl;
    body = 2 ∷ [];
    rest = [];
    arrives = refl;
    not_empty = omega arith;
    body_fits = omega arith;
    decodes = refl;
  };
}

session-completes_example :
    session users_cbor debug (record { client = answered; printed = [] }) ≡ (
      returns (ok tt),
      record {
        client = finished users_cbor debug answered answered-Serves;
        printed = session_lines users_cbor debug answered answered-Serves;
      },
    )
session-completes_example = session-completes users_cbor debug answered answered-Serves
