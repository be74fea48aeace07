-- ===== src/Client/Sessions.antt =====
-- Sessions of src/client.rs from `connect` on, and the guard.
use fing.Base.{
  length, ℕ, ◌≤◌, List, [], ◌∷◌, ◌++◌, Bool, true, false, Option, none, some, ◌≡◌, ◌≢◌, refl, sym,
  subst, ap, ◌∙◌, arith, All,
}
use fing.Base.Text.{Text, Bytes}
use fing.Error.{Result, ok, err}
use fing.Protocol.{Response}
use fing.Codec.{Cbor}
use fing.Codec.Transport.{Stream}
use fing.Client
use fing.Client.{SocketAddr, Client}
use fing.Client.Wire.{Operation, after_all, after_all-IsGuarded}
use fing.Client.Keeps.{IsRequest, IsGuarded, Keeps-use_database}
use fing.Client.Connect.{
  ClientBuilder, Network, done, open_with, unwrap_or, open_client, opened, select, connect,
}
use fing.Client.Opened.{Ensures, Ensures-then, IsConnected, open_client-IsConnected}

module _ (cbor : Cbor) (debug : Response → Text) (net : Network) where
  open cbor use {CborError}

  -- Nothing has been sent over a connection that was just opened.
  pub record OpensFresh : Type 0 where
    pub plain : (a : SocketAddr) (s : Stream) → net.open_stream a ≡ done s → s.sent ≡ []
    pub within : (a : SocketAddr) (t : ℕ) (s : Stream) → net.open_within a t ≡ done s → s.sent ≡ []

  open_with-fresh :
      OpensFresh
      → (a : SocketAddr) (o : Option ℕ) (s : Stream) → open_with net a o ≡ done s
      → s.sent ≡ []
  open_with-fresh h a none s e = h.plain a s e
  open_with-fresh h a (some t) s e = h.within a t s e

  IsGuarded-open_client :
      OpensFresh
      → (b : ClientBuilder) (addr : Text) (c : Client) → b.statement_guard ≢ some false
      → IsConnected net b addr none 0 c
      → IsGuarded cbor debug c
  IsGuarded-open_client f b addr c g h = record {
    guard_on = h.guard ∙ on b.statement_guard g;
    requests = subst (All (IsRequest cbor debug)) (sym nothing) tt;
  }
    where
      on : (o : Option Bool) → o ≢ some false → unwrap_or o true ≡ true
      on none n = refl
      on (some true) n = refl
      on (some false) n = absurd (n refl)

      empty : (xs : List Bytes) → length xs ≤ 0 → xs ≡ []
      empty [] l = refl
      empty (x ∷ xs) l = absurd (omega arith)

      nothing : c.stream.sent ≡ []
      nothing =
          h.sent
          ∙ ap (λ t. t ++ h.added) (open_with-fresh f c.addr b.connect_timeout h.fresh h.opened_at)
          ∙ empty h.added h.few

  IsGuarded-select :
      (name : Option Text) (c : Client)
      → IsGuarded cbor debug c
      → Ensures (IsGuarded cbor debug) (select cbor debug net name c)
  IsGuarded-select none c g = g
  IsGuarded-select (some name) c g =
      kept (Client.use_database cbor debug name c) ((Keeps-use_database cbor debug name).at c g)
    where
      kept :
          (p : Result CborError (Unit {0}) × Client)
          → IsGuarded cbor debug p.1
          → Ensures (IsGuarded cbor debug) (opened cbor debug net p)
      kept (ok _, d) g = g
      kept (err e, d) g = tt

  -- From `connect` on: when a builder does not turn the guard off and its network opens fresh
  -- connections, every session on the client that it returns keeps the guard on, and puts nothing on
  -- the wire but requests that the guard allows, whatever the operations and the server's answers.
  pub session-IsGuarded :
      (b : ClientBuilder) (addr : Text)
      → OpensFresh
      → b.statement_guard ≢ some false
      → Ensures
          (λ c. (ops : List Operation) → IsGuarded cbor debug (after_all cbor debug ops c))
          (connect cbor debug net b addr)
  unfolding connect
  session-IsGuarded b addr f g =
      Ensures-then (IsConnected net b addr none 0)
        (λ c. (ops : List Operation) → IsGuarded cbor debug (after_all cbor debug ops c))
        (open_client net b addr) (select cbor debug net b.database)
        (open_client-IsConnected CborError net b addr)
        λ c h.
          always (select cbor debug net b.database c)
            (IsGuarded-select b.database c (IsGuarded-open_client f b addr c g h))
    where
      always :
          (r : Result CborError Client)
          → Ensures (IsGuarded cbor debug) r
          → Ensures
              (λ c. (ops : List Operation) → IsGuarded cbor debug (after_all cbor debug ops c))
              r
      always (ok c) g = λ ops. after_all-IsGuarded cbor debug ops c g
      always (err e) g = tt
