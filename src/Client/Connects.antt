-- ===== src/Client/Connects.antt =====
-- `ClientBuilder::connect` of src/client.rs from the network to the selected database.
use fing.Base.{Option, none, some, ◌⊎◌, inl, inr, ◌≡◌, ◌↔◌, refl, sym, subst, ◌∙◌}
use fing.Base.Text.{Text, codes, trim}
use fing.Error.{Error, invalid_argument, Result, ok, err, ◌>>=◌}
use fing.Protocol.{Response}
use fing.Codec.{Cbor}
use fing.Codec.Transport.{Stream}
use fing.Codec.Exchange.{Exchanges}
use fing.Codec.Exchange.Total.{Exchanges-some}
use fing.Client.{Client, use_database}
use fing.Client.Wire.{Operation}
use fing.Client.Exchanges.{request_of, IsName, refusal}
use fing.Client.Refused.{IsBlank, IsName-or-IsBlank, run-Refused}
use fing.Client.Complete.{run-Exchanges}
use fing.Client.Connect.{ClientBuilder, Network, opened, select, connect}
use fing.Client.Establish.{Opens, open_client_iff}

Option-cases : {A : Type 0} (o : Option A) → (o ≡ none) ⊎ ((a : A) × (o ≡ some a))
Option-cases none = inl refl
Option-cases (some a) = inr (a, refl)

module _ (cbor : Cbor) (debug : Response → Text) (net : Network) (b : ClientBuilder)
    (addr : Text) where
  open cbor use {CborError}

  -- The connection does not open; or no database is asked for, or a blank one; or the request to
  -- select it fails, is refused, or succeeds.
  pub data Connects : Result CborError Client → Type 0 where
    unopened : (e : Error CborError) → Opens CborError net b addr (err e) → Connects (err e)
    plain : (c : Client) → Opens CborError net b addr (ok c) → b.database ≡ none → Connects (ok c)
    blank :
        (c : Client) (name : Text)
        → Opens CborError net b addr (ok c)
        → b.database ≡ some name
        → IsBlank name
        → Connects (err (invalid_argument (codes "database name is empty")))
    unanswered :
        (c : Client) (name : Text) (e : Error CborError) (s : Stream)
        → Opens CborError net b addr (ok c)
        → b.database ≡ some name
        → IsName name
        → Exchanges cbor (request_of (Operation.use_database name)) c.stream (err e) s
        → Connects (err e)
    refused :
        (c : Client) (name : Text) (r : Response) (e : Error CborError) (s : Stream)
        → Opens CborError net b addr (ok c)
        → b.database ≡ some name
        → IsName name
        → Exchanges cbor (request_of (Operation.use_database name)) c.stream (ok r) s
        → refusal cbor debug r ≡ some e
        → Connects (err e)
    selected :
        (c : Client) (name : Text) (r : Response) (s : Stream)
        → Opens CborError net b addr (ok c)
        → b.database ≡ some name
        → IsName name
        → Exchanges cbor (request_of (Operation.use_database name)) c.stream (ok r) s
        → refusal cbor debug r ≡ none
        → Connects (ok (record c { stream = s; database = some (trim name) }))

  connect-open :
      (r : Result CborError Client)
      → Opens CborError net b addr r
      → connect cbor debug net b addr ≡ (r >>= select cbor debug net b.database)
  unfolding connect
  connect-open r x = rw ((open_client_iff CborError net b addr r).1 x) refl

  -- The selection on the client that has been opened.
  connect-select :
      (c : Client) (name : Text) (p : Result CborError (Unit {0}) × Client)
      → Opens CborError net b addr (ok c)
      → b.database ≡ some name
      → use_database cbor debug name c ≡ p
      → connect cbor debug net b addr ≡ opened cbor debug net p
  connect-select c name p x d u = connect-open (ok c) x ∙ rw d (rw u refl)

  connect-Connects : (r : Result CborError Client) → Connects r → connect cbor debug net b addr ≡ r
  connect-Connects r (unopened e x) = connect-open (err e) x
  connect-Connects r (plain c x d) = connect-open (ok c) x ∙ rw d refl
  connect-Connects r (blank c name x d h) =
      connect-select c name _ x d
        (run-Refused cbor debug (Operation.use_database name) c _ (h, refl))
  connect-Connects r (unanswered c name e s x d h y) =
      connect-select c name _ x d
        (run-Exchanges cbor debug (Operation.use_database name) c (err e) s h y)
  connect-Connects r (refused c name q e s x d h y refusing) =
      connect-select c name _ x d
        (run-Exchanges cbor debug (Operation.use_database name) c (ok q) s h y)
      ∙ rw refusing refl
  connect-Connects r (selected c name q s x d h y accepted) =
      connect-select c name _ x d
        (run-Exchanges cbor debug (Operation.use_database name) c (ok q) s h y)
      ∙ rw accepted refl

  Connects-answered :
      (c : Client) (name : Text) (q : Result CborError Response) (s : Stream)
      → Opens CborError net b addr (ok c)
      → b.database ≡ some name
      → IsName name
      → Exchanges cbor (request_of (Operation.use_database name)) c.stream q s
      → (r : Result CborError Client) × Connects r
  Connects-answered c name (err e) s x d h y = (_, unanswered c name e s x d h y)
  Connects-answered c name (ok q) s x d h y = elim (Option-cases (refusal cbor debug q)) [
    | inl accepted ↦ (_, selected c name q s x d h y accepted)
    | inr (e, refusing) ↦ (_, refused c name q e s x d h y refusing)
  ]

  Connects-named :
      (c : Client) (name : Text)
      → Opens CborError net b addr (ok c)
      → b.database ≡ some name
      → (r : Result CborError Client) × Connects r
  Connects-named c name x d = elim (IsName-or-IsBlank name) [
    | inl empty ↦ (_, blank c name x d empty)
    | inr h ↦
        let (q, s, y) = Exchanges-some cbor (request_of (Operation.use_database name)) c.stream in
        Connects-answered c name q s x d h y
  ]

  Connects-opened :
      (r : Result CborError Client)
      → Opens CborError net b addr r
      → (r' : Result CborError Client) × Connects r'
  Connects-opened (err e) x = (_, unopened e x)
  Connects-opened (ok c) x = elim (Option-cases b.database) [
    | inl d ↦ (_, plain c x d)
    | inr (name, d) ↦ Connects-named c name x d
  ]

  -- Connecting comes to exactly what `Connects` describes, whatever the name, the builder, the
  -- network and the server: each error of resolving, opening, setting TCP_NODELAY, setting a timeout
  -- (refused exactly when it is zero) and selecting the database stands for its own cause, and a
  -- client that is returned is set up as the builder says, with its database selected by one
  -- accepted request or with none.
  pub connect_iff : (r : Result CborError Client) → (connect cbor debug net b addr ≡ r) ↔ Connects r
  connect_iff r = (
    λ e.
        let (r₀, x) = Connects-opened _ ((open_client_iff CborError net b addr _).0 refl) in
        subst Connects (sym (connect-Connects r₀ x) ∙ e) x,
    connect-Connects r,
  )
