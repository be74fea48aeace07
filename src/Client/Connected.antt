-- ===== src/Client/Connected.antt =====
-- The client that `ClientBuilder::connect` of src/client.rs returns.
use fing.Base.{append_assoc, length-append, ◌∷◌, ◌++◌, Option, none, some, sym, ap, ◌∙◌, arith}
use fing.Base.Text.{Text, trim}
use fing.Error.{Result, ok, err}
use fing.Protocol.{Response}
use fing.Codec.{Cbor}
use fing.Client
use fing.Client.{SocketAddr, Client}
use fing.Client.Wire.{Operation}
use fing.Client.Frame.{Framed, after-Framed}
use fing.Client.Selected.{Records, use_database-Records}
use fing.Client.Connect.{
  ClientBuilder, Network, done, open_with, open_client, opened, select, connect,
}
use fing.Client.Opened.{Ensures, Ensures-then, IsConnected, open_client-IsConnected}

-- What is on record once the database of a builder has been selected.
abbrev pub trimmed : Option Text → Option Text
trimmed none = none
trimmed (some name) = some (trim name)

module _ (cbor : Cbor) (debug : Response → Text) (net : Network) where
  open cbor use {CborError}

  -- A request on a client that is connected.
  selects :
      (b : ClientBuilder) (addr name : Text) (c : Client) (p : Result CborError (Unit {0}) × Client)
      → IsConnected net b addr none 0 c
      → Records cbor debug (some (trim name)) c p
      → Framed 1 c p.1
      → Ensures (IsConnected net b addr (some (trim name)) 1) (opened cbor debug net p)
  selects b addr name c (err e, d) h r f = tt
  selects b addr name c (ok _, d) h r f = record {
    others = h.others;
    resolved = h.resolved ∙ ap (λ (a : SocketAddr). done (a ∷ h.others)) (sym f.same_addr);
    fresh = h.fresh;
    opened_at =
        ap (λ (a : SocketAddr). open_with net a b.connect_timeout) f.same_addr ∙ h.opened_at;
    guard = f.same_guard ∙ h.guard;
    database = r;
    nodelay = f.goes_on.nodelay ∙ h.nodelay;
    read_timeout = f.goes_on.read_timeout ∙ h.read_timeout;
    write_timeout = f.goes_on.write_timeout ∙ h.write_timeout;
    no_zero = h.no_zero;
    added = h.added ++ f.goes_on.added;
    sent =
        f.goes_on.writes
        ∙ ap (λ t. t ++ f.goes_on.added) h.sent
        ∙ append_assoc h.fresh.sent h.added f.goes_on.added;
    few = omega (arith, length-append h.added f.goes_on.added, h.few, f.goes_on.few);
  }

  selecting :
      (b : ClientBuilder) (addr : Text) (name : Option Text) (c : Client)
      → IsConnected net b addr none 0 c
      → Ensures (IsConnected net b addr (trimmed name) 1) (select cbor debug net name c)
  selecting b addr none c h = record {
    others = h.others;
    resolved = h.resolved;
    fresh = h.fresh;
    opened_at = h.opened_at;
    guard = h.guard;
    database = h.database;
    nodelay = h.nodelay;
    read_timeout = h.read_timeout;
    write_timeout = h.write_timeout;
    no_zero = h.no_zero;
    added = h.added;
    sent = h.sent;
    few = omega (arith, h.few);
  }
  selecting b addr (some name) c h =
      selects b addr name c (Client.use_database cbor debug name c) h
        (use_database-Records cbor debug name c)
        (after-Framed cbor debug (Operation.use_database name) c)

  -- The client that is returned is the one that the builder describes: connected to the first
  -- address of the name, with its timeouts, none of which is zero, with the guard unless the builder
  -- turns it off, and with the trimmed name of its database on record; for which it has sent one
  -- request at most.
  pub connect-IsConnected :
      (b : ClientBuilder) (addr : Text)
      → Ensures (IsConnected net b addr (trimmed b.database) 1) (connect cbor debug net b addr)
  unfolding connect
  connect-IsConnected b addr =
      Ensures-then (IsConnected net b addr none 0) (IsConnected net b addr (trimmed b.database) 1)
        (open_client net b addr) (select cbor debug net b.database)
        (open_client-IsConnected CborError net b addr) (selecting b addr b.database)
