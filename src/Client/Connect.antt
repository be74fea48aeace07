-- ===== src/Client/Connect.antt =====
-- `ClientBuilder` of src/client.rs, and how a client comes to be. What the network answers is a
-- parameter: how an address is resolved, how a connection to it opens, and whether
-- `set_nodelay` succeeds.
use fing.Base.{ℕ, zero, suc, List, [], ◌∷◌, Bool, true, Option, none, some}
use fing.Base.Text.{Text, codes}
use fing.Error.{ErrorKind, other_kind, from_io, invalid_argument, Result, ok, err, ok_or, ◌>>=◌}
use fing.Protocol.{Response}
use fing.Codec.{Cbor}
use fing.Codec.Transport.{Stream}
use fing.Client.{SocketAddr, Client, Session, use_database}

pub record ClientBuilder : Type 0 where
  pub connect_timeout : Option ℕ
  pub read_timeout : Option ℕ
  pub write_timeout : Option ℕ
  pub database : Option Text
  pub statement_guard : Option Bool

-- `ClientBuilder::default()`, also `Client::builder()`
abbrev pub builder : ClientBuilder
builder = record {
  connect_timeout = none;
  read_timeout = none;
  write_timeout = none;
  database = none;
  statement_guard = none;
}

unfoldable pub with_connect_timeout : ℕ → ClientBuilder → ClientBuilder
with_connect_timeout timeout b = record b { connect_timeout = some timeout }

unfoldable pub with_read_timeout : ℕ → ClientBuilder → ClientBuilder
with_read_timeout timeout b = record b { read_timeout = some timeout }

unfoldable pub with_write_timeout : ℕ → ClientBuilder → ClientBuilder
with_write_timeout timeout b = record b { write_timeout = some timeout }

unfoldable pub with_database : Text → ClientBuilder → ClientBuilder
with_database name b = record b { database = some name }

unfoldable pub with_statement_guard : Bool → ClientBuilder → ClientBuilder
with_statement_guard enabled b = record b { statement_guard = some enabled }

-- An I/O call that succeeds with a value or fails.
pub data Tried (A : Type 0) : Type 0 where
  done : A → Tried A
  failed : ErrorKind → Tried A

-- `to_socket_addrs`, `TcpStream::connect`, `TcpStream::connect_timeout`, and whether
-- `TcpStream::set_nodelay(true)` succeeds on a stream
pub record Network : Type 0 where
  pub resolve : Text → Tried (List SocketAddr)
  pub open_stream : SocketAddr → Tried Stream
  pub open_within : SocketAddr → ℕ → Tried Stream
  pub set_nodelay : Stream → Tried (Unit {0})

abbrev pub tried : {C A : Type 0} → Tried A → Result C A
tried (done a) = ok a
tried (failed kind) = err (from_io kind)

abbrev pub first : List SocketAddr → Option SocketAddr
first [] = none
first (a ∷ _) = some a

unfoldable pub resolve : {C : Type 0} → Network → Text → Result C SocketAddr
resolve net addr = tried (net.resolve addr) >>= λ addrs.
    ok_or (first addrs) (invalid_argument (codes "address resolved to nothing"))

abbrev pub open_with : Network → SocketAddr → Option ℕ → Tried Stream
open_with net addr none = net.open_stream addr
open_with net addr (some timeout) = net.open_within addr timeout

-- `std::io::ErrorKind::InvalidInput`
abbrev pub invalid_input : ErrorKind
invalid_input = other_kind 20

-- `stream.set_nodelay(true)?`
unfoldable pub set_stream_nodelay : {C : Type 0} → Network → Stream → Result C Stream
set_stream_nodelay net s = tried (net.set_nodelay s) >>= λ _. ok (record s { nodelay = true })

-- The standard library documents that a timeout of zero is an error.
abbrev pub timeout_ok : {C : Type 0} → Option ℕ → Result C (Option ℕ)
timeout_ok none = ok none
timeout_ok (some zero) = err (from_io invalid_input)
timeout_ok (some (suc t)) = ok (some (suc t))

unfoldable pub set_stream_read_timeout : {C : Type 0} → Option ℕ → Stream → Result C Stream
set_stream_read_timeout timeout s = timeout_ok timeout >>= λ t. ok (record s { read_timeout = t })

unfoldable pub set_stream_write_timeout : {C : Type 0} → Option ℕ → Stream → Result C Stream
set_stream_write_timeout timeout s = timeout_ok timeout >>= λ t. ok (record s { write_timeout = t })

abbrev with_stream : {C : Type 0} → Client → Result C Stream → Result C (Unit {0}) × Client
with_stream c (ok s) = (ok tt, record c { stream = s })
with_stream c (err e) = (err e, c)

-- `Client::set_read_timeout` and `Client::set_write_timeout`
unfoldable pub set_read_timeout : {C : Type 0} → Option ℕ → Session C (Unit {0})
unfolding set_stream_read_timeout
set_read_timeout timeout c = with_stream c (set_stream_read_timeout timeout c.stream)

unfoldable pub set_write_timeout : {C : Type 0} → Option ℕ → Session C (Unit {0})
unfolding set_stream_write_timeout
set_write_timeout timeout c = with_stream c (set_stream_write_timeout timeout c.stream)

abbrev pub unwrap_or : Option Bool → Bool → Bool
unwrap_or none b = b
unwrap_or (some b) _ = b

-- The stream of the new client, set up.
unfoldable pub open_client : {C : Type 0} → Network → ClientBuilder → Text → Result C Client
unfolding resolve set_stream_nodelay set_stream_read_timeout set_stream_write_timeout
open_client net b addr = resolve net addr >>= λ address.
    tried (open_with net address b.connect_timeout) >>= λ s. set_stream_nodelay net s >>= λ s₁.
    set_stream_read_timeout b.read_timeout s₁ >>= λ s'.
    set_stream_write_timeout b.write_timeout s' >>= λ s''. ok (record {
      stream = s'';
      addr = address;
      database = none;
      statement_guard = unwrap_or b.statement_guard true;
    })

module _ (cbor : Cbor) (debug : Response → Text) (net : Network) where
  open cbor use {CborError}

  -- `?` drops the new client when its first request fails.
  abbrev pub opened : Result CborError (Unit {0}) × Client → Result CborError Client
  opened (ok _, c) = ok c
  opened (err e, c) = err e

  abbrev pub select : Option Text → Client → Result CborError Client
  select none c = ok c
  select (some name) c = opened (use_database cbor debug name c)

  unfoldable pub connect : ClientBuilder → Text → Result CborError Client
  unfolding open_client
  connect b addr = open_client net b addr >>= select b.database

  -- `Client::connect` and `Client::connect_to`
  unfoldable pub connect_default : Text → Result CborError Client
  unfolding connect
  connect_default addr = connect builder addr

  unfoldable pub connect_to : Text → Text → Result CborError Client
  unfolding connect with_database
  connect_to addr database = connect (with_database database builder) addr
