-- ===== src/Client/Tests.antt =====
-- The properties of src/client.rs at concrete inputs.
use fing.Base.{List, [], ◌∷◌, ◌++◌, true, none, some, ◌≡◌, refl, arith, map, All}
use fing.Base.Text.{is_whitespace, Text, Bytes, codes, trim, join}
use fing.Error.{unexpected_eof, ok}
use fing.Protocol
use fing.Protocol.{Response, db_command, system_msg}
use fing.Sql.{inspect, query}
use fing.Codec.Frames.{framed}
use fing.Codec.Toy.{toy, id_schema, id_tuples}
use fing.Client.{Client, check, outcome_of}
use fing.Client
use fing.Client.Keeps.{IsGuarded}
use fing.Client.Wire.{Operation}
use fing.Client.Controls.{
  Step, settings, set_all, after_steps, after_steps-IsGuarded, after_steps-settings,
}
use fing.Client.Answers.{Says, execute-Says}
use fing.Client.Listing.{Listable, parse_list-join}
use fing.Client.Names.{parse_list}
use fing.Client.Queries.{Exchange, exchanged, query_rows-select}

abbrev debug : Response → Text
debug r = codes "?"

abbrev client : Bytes → Client
client bytes = record {
  stream = record {
    incoming = bytes;
    ending = unexpected_eof;
    sent = [];
    broken = none;
    nodelay = true;
    read_timeout = none;
    write_timeout = none;
  };
  addr = codes "127.0.0.1:3333";
  database = none;
  statement_guard = true;
}

abbrev steps : List Step
steps =
    Step.operate (Operation.use_database (codes "mydb"))
    ∷ Step.set_reads (some 0)
    ∷ Step.operate (Operation.execute (codes "SELECT 1"))
    ∷ Step.set_guard true
    ∷ Step.set_writes (some 250)
    ∷ Step.operate (Operation.execute (codes "DROP TABLE t"))
    ∷ []

after_steps-IsGuarded_example :
    IsGuarded toy debug (after_steps toy debug steps (client (framed (codes "Connected"))))
after_steps-IsGuarded_example =
    after_steps-IsGuarded toy debug steps (client (framed (codes "Connected"))) tt
      (record { guard_on = refl; requests = tt })

after_steps-settings_example :
    settings (after_steps toy debug steps (client [])) ≡ set_all steps (settings (client []))
after_steps-settings_example = after_steps-settings toy debug steps (client [])

select_passes : inspect {C = Unit {0}} (codes "SELECT 1") ≡ ok query
unfolding inspect
select_passes = refl

abbrev answered : Client
answered = client (framed (2 ∷ []) ++ [])

one_row :
    Exchange toy debug
      (codes "SELECT 1")
      answered
      (Protocol.query_result (Protocol.select id_schema id_tuples none))
unfolding db_command
one_row = record {
  passes = (query, select_passes);
  request = codes "SELECT 1";
  encodes = refl;
  request_fits = omega arith;
  writable = refl;
  body = 2 ∷ [];
  rest = [];
  arrives = refl;
  not_empty = omega arith;
  body_fits = omega arith;
  decodes = refl;
}

execute-Says_example :
    Says toy debug
      (Protocol.query_result (Protocol.select id_schema id_tuples none))
      (Client.execute toy debug (codes "SELECT 1") answered).0
    × ((Client.execute toy debug (codes "SELECT 1") answered).1
        ≡ exchanged toy debug (codes "SELECT 1") answered _ one_row)
execute-Says_example = execute-Says toy debug (codes "SELECT 1") answered _ one_row

query_rows-select_example : Client.query_rows toy debug (codes "SELECT 1") answered ≡ (
  ok (record { schema = id_schema; rows = map (λ t. t.field_vals) id_tuples; paging = none }),
  exchanged toy debug (codes "SELECT 1") answered _ one_row,
)
query_rows-select_example =
    query_rows-select toy debug (codes "SELECT 1") answered id_schema id_tuples none one_row

two_names : All Listable (codes "users" ∷ codes "order items" ∷ [])
unfolding trim is_whitespace
two_names = (
  (refl, refl, (refl, (refl, (refl, (refl, (refl, tt)))))),
  (
    (
      refl,
      refl,
      (refl, (refl, (refl, (refl, (refl, (refl, (refl, (refl, (refl, (refl, (refl, tt))))))))))),
    ),
    tt,
  ),
)

parse_list-join_example :
    parse_list
      (codes "Tables:" ++ (b' ' ∷ join (codes ", ") (codes "users" ∷ codes "order items" ∷ [])))
      (codes "Tables:")
    ≡ codes "users" ∷ codes "order items" ∷ []
parse_list-join_example =
    parse_list-join (codes "Tables:") (codes "users" ∷ codes "order items" ∷ []) two_names
