-- ===== src/Client/Establish.antt =====
-- How `ClientBuilder::connect` of src/client.rs comes to a client, or to which error.
use fing.Base.{
  ℕ, zero, suc, List, [], ◌∷◌, true, Option, none, some, ◌⊎◌, inl, inr, ◌≡◌, ◌≢◌, ◌↔◌, refl, sym,
  subst, ◌∙◌, arith,
}
use fing.Base.Text.{Text, codes}
use fing.Error.{ErrorKind, from_io, invalid_argument, Result, ok, err, ◌>>=◌}
use fing.Codec.Transport.{Stream}
use fing.Client.{SocketAddr, Client}
use fing.Client.Connect.{
  ClientBuilder, Network, Tried, done, failed, resolve, open_with, invalid_input, timeout_ok,
  set_stream_nodelay, set_stream_read_timeout, set_stream_write_timeout, unwrap_or, open_client,
}

-- The client on a stream that has just been opened.
abbrev pub set_up : ClientBuilder → SocketAddr → Stream → Client
set_up b a s = record {
  stream = record s {
    nodelay = true;
    read_timeout = b.read_timeout;
    write_timeout = b.write_timeout;
  };
  addr = a;
  database = none;
  statement_guard = unwrap_or b.statement_guard true;
}

module _ (C : Type 0) (net : Network) (b : ClientBuilder) (addr : Text) where
  -- The name does not resolve, or to nothing; the first address does not open; `set_nodelay`
  -- fails; a timeout is zero, which the standard library refuses; or the stream is there.
  pub data Opens : Result C Client → Type 0 where
    unresolved : (kind : ErrorKind) → net.resolve addr ≡ failed kind → Opens (err (from_io kind))
    nothing :
        net.resolve addr ≡ done []
        → Opens (err (invalid_argument (codes "address resolved to nothing")))
    unopened :
        (a : SocketAddr) (more : List SocketAddr) (kind : ErrorKind)
        → net.resolve addr ≡ done (a ∷ more)
        → open_with net a b.connect_timeout ≡ failed kind
        → Opens (err (from_io kind))
    no_nodelay :
        (a : SocketAddr) (more : List SocketAddr) (s : Stream) (kind : ErrorKind)
        → net.resolve addr ≡ done (a ∷ more)
        → open_with net a b.connect_timeout ≡ done s
        → net.set_nodelay s ≡ failed kind
        → Opens (err (from_io kind))
    zero_timeout :
        (a : SocketAddr) (more : List SocketAddr) (s : Stream)
        → net.resolve addr ≡ done (a ∷ more)
        → open_with net a b.connect_timeout ≡ done s
        → net.set_nodelay s ≡ done tt
        → (b.read_timeout ≡ some 0) ⊎ (b.write_timeout ≡ some 0)
        → Opens (err (from_io invalid_input))
    opens :
        (a : SocketAddr) (more : List SocketAddr) (s : Stream)
        → net.resolve addr ≡ done (a ∷ more)
        → open_with net a b.connect_timeout ≡ done s
        → net.set_nodelay s ≡ done tt
        → b.read_timeout ≢ some 0
        → b.write_timeout ≢ some 0
        → Opens (ok (set_up b a s))

timeout_ok-positive : (C : Type 0) (t : Option ℕ) → t ≢ some 0 → timeout_ok {C = C} t ≡ ok t
timeout_ok-positive C none h = refl
timeout_ok-positive C (some zero) h = absurd (h refl)
timeout_ok-positive C (some (suc t)) h = refl

timeout-cases : (t : Option ℕ) → (t ≡ some 0) ⊎ (t ≢ some 0)
timeout-cases none = inr (λ e. cc)
timeout-cases (some zero) = inl refl
timeout-cases (some (suc t)) = inr (λ e. ground arith)

Tried-cases :
    {A : Type 0} (r : Tried A) → ((k : ErrorKind) × (r ≡ failed k)) ⊎ ((a : A) × (r ≡ done a))
Tried-cases (failed k) = inl (k, refl)
Tried-cases (done a) = inr (a, refl)

module _ (C : Type 0) (net : Network) (b : ClientBuilder) (addr : Text) where
  timeouts_set :
      (s : Stream) (a : SocketAddr)
      → b.read_timeout ≢ some 0
      → b.write_timeout ≢ some 0
      → ((set_stream_read_timeout {C = C} b.read_timeout (record s { nodelay = true }) >>= λ s'.
          set_stream_write_timeout b.write_timeout s' >>= λ s''. ok (record {
            stream = s'';
            addr = a;
            database = none;
            statement_guard = unwrap_or b.statement_guard true;
          })))
        ≡ ok (set_up b a s)
  unfolding set_stream_read_timeout set_stream_write_timeout
  timeouts_set s a r w =
      rw (timeout_ok-positive C b.read_timeout r)
        (rw (timeout_ok-positive C b.write_timeout w) refl)

  open_client-Opens : (r : Result C Client) → Opens C net b addr r → open_client net b addr ≡ r
  unfolding open_client resolve set_stream_nodelay set_stream_read_timeout set_stream_write_timeout
  open_client-Opens r (unresolved kind e) = rw e refl
  open_client-Opens r (nothing e) = rw e refl
  open_client-Opens r (unopened a more kind e o) = rw e (rw o refl)
  open_client-Opens r (zero_timeout a more s e o d (inl z)) = rw e (rw o (rw d (rw z refl)))
  open_client-Opens r (zero_timeout a more s e o d (inr z)) = elim (timeout-cases b.read_timeout) [
    | inl zr ↦ rw e (rw o (rw d (rw zr refl)))
    | inr nr ↦ rw e (rw o (rw d (rw (timeout_ok-positive C b.read_timeout nr) (rw z refl))))
  ]
  open_client-Opens r (opens a more s e o d nr nw) = rw e (rw o (rw d (timeouts_set s a nr nw)))
  open_client-Opens r (no_nodelay a more s kind e o d) = rw e (rw o (rw d refl))

  Opens-from :
      (a : SocketAddr) (more : List SocketAddr) (s : Stream)
      → net.resolve addr ≡ done (a ∷ more)
      → open_with net a b.connect_timeout ≡ done s
      → net.set_nodelay s ≡ done tt
      → (r : Result C Client) × Opens C net b addr r
  Opens-from a more s e o d = elim (timeout-cases b.read_timeout) [
    | inl zr ↦ (_, zero_timeout a more s e o d (inl zr))
    | inr nr ↦ elim (timeout-cases b.write_timeout) [
      | inl zw ↦ (_, zero_timeout a more s e o d (inr zw))
      | inr nw ↦ (_, opens a more s e o d nr nw)
    ]
  ]

  Opens-resolved :
      (addrs : List SocketAddr)
      → net.resolve addr ≡ done addrs
      → (r : Result C Client) × Opens C net b addr r
  Opens-resolved [] e = (_, nothing e)
  Opens-resolved (a ∷ more) e = elim (Tried-cases (open_with net a b.connect_timeout)) [
    | inl (kind, o) ↦ (_, unopened a more kind e o)
    | inr (s, o) ↦ elim (Tried-cases (net.set_nodelay s)) [
      | inl (kind, d) ↦ (_, no_nodelay a more s kind e o d)
      | inr (_, d) ↦ Opens-from a more s e o d
    ]
  ]

  Opens-some : (r : Result C Client) × Opens C net b addr r
  Opens-some = elim (Tried-cases (net.resolve addr)) [
    | inl (kind, e) ↦ (_, unresolved kind e)
    | inr (addrs, e) ↦ Opens-resolved addrs e
  ]

  -- Opening a connection comes to exactly what `Opens` describes.
  pub open_client_iff : (r : Result C Client) → (open_client net b addr ≡ r) ↔ Opens C net b addr r
  open_client_iff r = (
    λ e.
        let (r₀, x) = Opens-some in subst (Opens C net b addr) (sym (open_client-Opens r₀ x) ∙ e) x,
    open_client-Opens r,
  )
