-- ===== src/Client/CompleteTests.antt =====
-- The operations of src/client.rs with every answer, or none, at concrete inputs.
use fing.Base.{List, map, [], ◌∷◌, ◌++◌, true, none, ◌≡◌, ◌⊎◌, refl, arith}
use fing.Base.Text.{Text, Bytes, codes, trim, is_whitespace}
use fing.Error.{Error, other_kind, io, Result, ok, err, ◌>>=◌}
use fing.Protocol
use fing.Protocol.{Response, system_msg, system_command, db_command}
use fing.Codec.Frames.{framed}
use fing.Codec.Transport.{Stream}
use fing.Codec.Toy.{toy, id_schema, id_tuples}
use fing.Sql.{StatementKind, inspect}
use fing.Client.Served.{Planned, frames, run_all, behind, run_all-frames}
use fing.Codec.Exchange.{Exchanges}
use fing.Client
use fing.Client.{Client}
use fing.Client.Wire.{Operation}
use fing.Client.Exchanges.{request_of, run, IsReady, refusal, unless_refused, meaning, settle}
use fing.Client.Refused.{Refused}
use fing.Client.Complete.{settled, run_complete}
use fing.Client.Taken.{taken}
use fing.Client.Late.{timed_out, arriving, run_late}
use fing.Client.Ends.{down_or_unexpected, ends_complete}

abbrev debug : Response → Text
debug r = codes "?"

-- Nothing has arrived when the read timeout is over.
abbrev waiting : Client
waiting = record {
  stream = record {
    incoming = [];
    ending = other_kind 11;
    sent = [];
    broken = none;
    nodelay = true;
    read_timeout = none;
    write_timeout = none;
  };
  addr = codes "127.0.0.1:3333";
  database = none;
  statement_guard = true;
}

abbrev import : Operation
import = Operation.import_csv (codes "/tmp/t.csv") (codes " ")

run_complete_example :
    ((e : Error (Unit {0})) × Refused toy debug import waiting e
      × (run toy debug import waiting ≡ (err e, waiting)))
    ⊎ (IsReady toy debug import waiting
        × ((q : Result (Unit {0}) Response) × (s : Stream) × Exchanges toy
              (request_of import)
              waiting.stream
              q
              s
            × (run toy debug import waiting ≡ (
              (q >>= meaning toy debug import),
              settled toy debug import q (record waiting { stream = s }),
            ))))
run_complete_example = run_complete toy debug import waiting

abbrev choose : Operation
choose = Operation.use_database (codes " mydb ")

abbrev listing : Bytes
listing = codes "Databases: other"

-- The late answer to `databases` counts as the answer to `use_database`.
run_late_example :
    (run toy debug Operation.databases waiting
      ≡ (err (io (other_kind 11)), timed_out (1 ∷ []) waiting))
    × (run toy debug choose (arriving (framed listing ++ []) (timed_out (1 ∷ []) waiting)) ≡ (
      meaning toy debug choose (system_msg listing),
      settle toy debug choose
          (refusal toy debug (system_msg listing))
          (taken (codes "mydb") [] (timed_out (1 ∷ []) waiting)),
    ))
unfolding trim is_whitespace system_command
run_late_example =
    run_late toy debug Operation.databases choose waiting 11 (1 ∷ []) (codes "mydb") listing []
      (system_msg listing) tt (refl, omega arith) refl refl refl refl (refl, omega arith)
      (omega arith, refl)

ends_complete_example :
    ((q : Result (Unit {0}) Response) × (s : Stream) × Exchanges toy
        (system_command Protocol.shutdown [])
        waiting.stream
        q
        s
      × (Client.shutdown_server toy debug waiting
          ≡ ((q >>= down_or_unexpected toy debug), record waiting { stream = s })))
    × ((q : Result (Unit {0}) Response) × (s : Stream) × Exchanges toy
          (system_command Protocol.close_connection [])
          waiting.stream
          q
          s
        × (Client.close toy debug waiting ≡ (
          (q >>= λ r. unless_refused toy debug (refusal toy debug r) (ok tt)),
          record waiting { stream = s },
        )))
ends_complete_example = ends_complete toy debug waiting

select_passes : inspect {C = Unit {0}} (codes "SELECT 1") ≡ ok StatementKind.query
unfolding inspect
select_passes = refl

abbrev plan : List (Planned toy debug true)
unfolding trim is_whitespace system_command db_command
plan =
    record {
      op = choose;
      response = system_msg (codes "Connected");
      ready = refl;
      request = codes "mydb";
      is_sent = (refl, omega arith);
      body = codes "Connected";
      holds = (omega arith, refl);
    }
    ∷ record {
      op = Operation.query (codes "SELECT 1");
      response = Protocol.query_result (Protocol.select id_schema id_tuples none);
      ready = (StatementKind.query, select_passes);
      request = codes "SELECT 1";
      is_sent = (refl, omega arith);
      body = 2 ∷ [];
      holds = (omega arith, refl);
    }
    ∷ record {
      op = Operation.reset_server;
      response = Protocol.quiet_ok;
      ready = tt;
      request = 1 ∷ [];
      is_sent = (refl, omega arith);
      body = [];
      holds = refl;
    }
    ∷ []

abbrev served : Client
served = arriving (frames toy debug plan ++ []) waiting

run_all-frames_example :
    run_all toy debug (map (λ (p : Planned toy debug true). p.op) plan) served ≡ (
      map (λ (p : Planned toy debug true). (p.op, meaning toy debug p.op p.response)) plan,
      behind toy debug plan [] served,
    )
run_all-frames_example = run_all-frames toy debug true plan [] served refl refl refl
