-- ===== src/Client/Opened.antt =====
-- The client that `ClientBuilder::connect` of src/client.rs opens, before a database is selected.
use fing.Base.{
  length, append-nil, ℕ, zero, suc, ◌≤◌, List, [], ◌∷◌, ◌++◌, true, Option, none, some, ◌≡◌, ◌≢◌,
  refl, sym, ap, ◌∙◌, arith,
}
use fing.Base.Text.{Text, Bytes}
use fing.Error.{Error, Result, ok, err, ok_or, ◌>>=◌}
use fing.Codec.Transport.{Stream}
use fing.Client.{SocketAddr, Client}
use fing.Client.Connect.{
  ClientBuilder, Network, Tried, done, failed, tried, first, resolve, open_with, timeout_ok,
  set_stream_nodelay, set_stream_read_timeout, set_stream_write_timeout, unwrap_or, open_client,
}

-- A result that is a value has the property.
abbrev pub Ensures : {C A : Type 0} → (A → Type 0) → Result C A → Type 0
Ensures P (ok a) = P a
Ensures P (err e) = Unit

Ensures-bind :
    {C A B : Type 0} (P : B → Type 0) (r : Result C A) (f : A → Result C B)
    → ((a : A) → r ≡ ok a → Ensures P (f a))
    → Ensures P (r >>= f)
Ensures-bind P (ok a) f h = h a refl
Ensures-bind P (err e) f h = tt

first-ok :
    (C : Type 0) (r : Tried (List SocketAddr)) (x : Error C) (a : SocketAddr)
    → (tried {C = C} r >>= λ addrs. ok_or (first addrs) x) ≡ ok a
    → (more : List SocketAddr) × (r ≡ done (a ∷ more))
first-ok C (done []) x a e = cc
first-ok C (done (b ∷ more)) x a e = (more, cc)
first-ok C (failed k) x a e = cc

pub Ensures-then :
    {C A B : Type 0} (P : A → Type 0) (Q : B → Type 0) (r : Result C A) (f : A → Result C B)
    → Ensures P r
    → ((a : A) → P a → Ensures Q (f a))
    → Ensures Q (r >>= f)
Ensures-then P Q (ok a) f h k = k a h
Ensures-then P Q (err e) f h k = tt

resolve-ok :
    (C : Type 0) (net : Network) (addr : Text) (a : SocketAddr)
    → resolve {C = C} net addr ≡ ok a
    → (more : List SocketAddr) × (net.resolve addr ≡ done (a ∷ more))
unfolding resolve
resolve-ok C net addr a e = first-ok C (net.resolve addr) _ a e

tried-ok : (C : Type 0) {A : Type 0} (r : Tried A) (a : A) → tried {C = C} r ≡ ok a → r ≡ done a
tried-ok C (done x) a e = cc
tried-ok C (failed k) a e = cc

timeout_ok-ok : (C : Type 0) (t u : Option ℕ) → timeout_ok {C = C} t ≡ ok u → (u ≡ t) × (t ≢ some 0)
timeout_ok-ok C none u e = (cc, λ f. cc)
timeout_ok-ok C (some zero) u e = cc
timeout_ok-ok C (some (suc t)) u e = (cc, λ f. ground arith)

-- The client is the one asked for: connected to the first address, with the options of the builder
-- and the guard on by default. `selected` says what of the database is on record, and `n` how many
-- requests have been sent.
pub record IsConnected (net : Network) (b : ClientBuilder) (addr : Text) (selected : Option Text)
    (n : ℕ) (c : Client) : Type 0 where
  pub others : List SocketAddr
  pub resolved : net.resolve addr ≡ done (c.addr ∷ others)
  pub fresh : Stream
  pub opened_at : open_with net c.addr b.connect_timeout ≡ done fresh
  pub guard : c.statement_guard ≡ unwrap_or b.statement_guard true
  pub database : c.database ≡ selected
  pub nodelay : c.stream.nodelay ≡ true
  pub read_timeout : c.stream.read_timeout ≡ b.read_timeout
  pub write_timeout : c.stream.write_timeout ≡ b.write_timeout
  pub no_zero : (b.read_timeout ≢ some 0) × (b.write_timeout ≢ some 0)
  pub added : List Bytes
  pub sent : c.stream.sent ≡ fresh.sent ++ added
  pub few : length added ≤ n

set_nodelay-ok :
    (C : Type 0) (net : Network) (s s' : Stream)
    → set_stream_nodelay {C = C} net s ≡ ok s'
    → s' ≡ record s { nodelay = true }
unfolding set_stream_nodelay
set_nodelay-ok C net s s' e = nodelay_done (net.set_nodelay s) e
  where
    nodelay_done :
        (r : Tried (Unit {0}))
        → (tried {C = C} r >>= λ _. ok (record s { nodelay = true })) ≡ ok s'
        → s' ≡ record s { nodelay = true }
    nodelay_done (done _) e = cc
    nodelay_done (failed k) e = cc

set_read_timeout-ok :
    (C : Type 0) (t : Option ℕ) (s s' : Stream)
    → set_stream_read_timeout {C = C} t s ≡ ok s'
    → (s' ≡ record s { read_timeout = t }) × (t ≢ some 0)
unfolding set_stream_read_timeout
set_read_timeout-ok C none s s' e = (cc, λ f. cc)
set_read_timeout-ok C (some zero) s s' e = cc
set_read_timeout-ok C (some (suc t)) s s' e = (cc, λ f. ground arith)

set_write_timeout-ok :
    (C : Type 0) (t : Option ℕ) (s s' : Stream)
    → set_stream_write_timeout {C = C} t s ≡ ok s'
    → (s' ≡ record s { write_timeout = t }) × (t ≢ some 0)
unfolding set_stream_write_timeout
set_write_timeout-ok C none s s' e = (cc, λ f. cc)
set_write_timeout-ok C (some zero) s s' e = cc
set_write_timeout-ok C (some (suc t)) s s' e = (cc, λ f. ground arith)

module _ (C : Type 0) (net : Network) (b : ClientBuilder) (addr : Text) where
  pub open_client-IsConnected :
      Ensures (IsConnected net b addr none 0) (open_client {C = C} net b addr)
  unfolding open_client
  open_client-IsConnected =
      Ensures-bind (IsConnected net b addr none 0) (resolve net addr) _ λ a resolved.
        Ensures-bind (IsConnected net b addr none 0) (tried (open_with net a b.connect_timeout)) _
          λ s opened.
            Ensures-bind (IsConnected net b addr none 0) (set_stream_nodelay net s) _ λ s₁ delays.
              Ensures-bind (IsConnected net b addr none 0)
                (set_stream_read_timeout b.read_timeout s₁) _
                λ s' reads.
                  Ensures-bind (IsConnected net b addr none 0)
                    (set_stream_write_timeout b.write_timeout s') _
                    λ s'' writes. connected a s s₁ s' s'' resolved opened delays reads writes
    where
      connected :
          (a : SocketAddr) (s s₁ s' s'' : Stream)
          → resolve {C = C} net addr ≡ ok a
          → tried {C = C} (open_with net a b.connect_timeout) ≡ ok s
          → set_stream_nodelay {C = C} net s ≡ ok s₁
          → set_stream_read_timeout {C = C} b.read_timeout s₁ ≡ ok s'
          → set_stream_write_timeout {C = C} b.write_timeout s' ≡ ok s''
          → IsConnected net b addr none 0 (record {
            stream = s'';
            addr = a;
            database = none;
            statement_guard = unwrap_or b.statement_guard true;
          })
      connected a s s₁ s' s'' resolved opened delays reads writes =
          let (more, r) = resolve-ok C net addr a resolved in
          let (read_set, read_pos) = set_read_timeout-ok C b.read_timeout s₁ s' reads in
          let (write_set, write_pos) = set_write_timeout-ok C b.write_timeout s' s'' writes in
          let set_up : s'' ≡ record s {
            nodelay = true;
            read_timeout = b.read_timeout;
            write_timeout = b.write_timeout;
          } =
            write_set
            ∙ ap (λ (t : Stream). record t { write_timeout = b.write_timeout }) read_set
            ∙ ap
                (λ (t : Stream). record t {
                  read_timeout = b.read_timeout;
                  write_timeout = b.write_timeout;
                })
                (set_nodelay-ok C net s s₁ delays) in
          record {
            others = more;
            resolved = r;
            fresh = s;
            opened_at = tried-ok C _ s opened;
            guard = refl;
            database = refl;
            nodelay = ap (λ (t : Stream). t.nodelay) set_up;
            read_timeout = ap (λ (t : Stream). t.read_timeout) set_up;
            write_timeout = ap (λ (t : Stream). t.write_timeout) set_up;
            no_zero = (read_pos, write_pos);
            added = [];
            sent = ap (λ (t : Stream). t.sent) set_up ∙ sym (append-nil s.sent);
            few = omega arith;
          }
