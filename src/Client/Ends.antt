-- ===== src/Client/Ends.antt =====
-- The two operations of src/client.rs that consume the client.
use fing.Base.{[], Bool, true, false, ◌≡◌, refl, ap, ◌∙◌, if◌then◌else◌}
use fing.Base.Text.{Text}
use fing.Error.{unexpected_response, Result, ok, err, ◌>>=◌}
use fing.Protocol
use fing.Protocol.{Response, CommandWithArgs, system_command}
use fing.Codec.{Cbor}
use fing.Codec.Transport.{Stream}
use fing.Codec.Exchange.{Exchanges}
use fing.Codec.Exchange.Total.{Exchanges-some}
use fing.Client
use fing.Client.{Client, Session, proceed, bind, give, check, unexpected, round_trip, system}
use fing.Client.Exchanges.{refusal, unless_refused}
use fing.Client.Operations.{answered, carry-give}
use fing.Client.Complete.{unanswered, round_trip-stream}

-- The responses that tell of a server on its way down, or of none but an acknowledgement.
abbrev pub goes_down : Response → Bool
goes_down (Protocol.shutdown _) = true
goes_down Protocol.quiet_ok = true
goes_down _ = false

module _ (cbor : Cbor) (debug : Response → Text) where
  open cbor use {CborError}

  abbrev pub down_or_unexpected : Response → Result CborError (Unit {0})
  down_or_unexpected r = if goes_down r then ok tt else err (unexpected_response (debug r))

  shut_down_lem : (r : Response) → Client.shut_down cbor debug r ≡ down_or_unexpected r
  unfolding unexpected
  shut_down_lem (Protocol.query_result result) = refl
  shut_down_lem Protocol.ok = refl
  shut_down_lem (Protocol.system_msg text) = refl
  shut_down_lem (Protocol.system_err text) = refl
  shut_down_lem (Protocol.query_execution_error text) = refl
  shut_down_lem (Protocol.shutdown b) = refl
  shut_down_lem Protocol.quiet_ok = refl
  shut_down_lem Protocol.quiet_err = refl

  reply :
      (q : Result CborError Response) (d : Client)
      → proceed q (λ response. give (Client.shut_down cbor debug response)) d
        ≡ ((q >>= down_or_unexpected), d)
  reply (ok r) d = ap (λ (a : Result CborError (Unit {0})). (a, d)) (shut_down_lem r)
  reply (err e) d = refl

  shutdown_server-Exchanges :
      (c : Client) (q : Result CborError Response) (s : Stream)
      → Exchanges cbor (system_command Protocol.shutdown []) c.stream q s
      → Client.shutdown_server cbor debug c ≡ ((q >>= down_or_unexpected), record c { stream = s })
  unfolding Client.shutdown_server
  shutdown_server-Exchanges c q s x =
      ap
        (λ (p : Result CborError Response × Client).
          proceed p.0 (λ response. give (Client.shut_down cbor debug response)) p.1)
        (round_trip-stream cbor debug (system_command Protocol.shutdown []) c q s x)
      ∙ reply q (record c { stream = s })

  close-Exchanges :
      (c : Client) (q : Result CborError Response) (s : Stream)
      → Exchanges cbor (system_command Protocol.close_connection []) c.stream q s
      → Client.close cbor debug c ≡ (
        (q >>= λ r. unless_refused cbor debug (refusal cbor debug r) (ok tt)),
        record c { stream = s },
      )
  unfolding Client.close system
  close-Exchanges c (ok r) s x =
      answered cbor debug _ _ c (record c { stream = s }) r
        (round_trip-stream cbor debug (system_command Protocol.close_connection []) c (ok r) s x)
      ∙ carry-give cbor debug (refusal cbor debug r) (ok tt) (record c { stream = s })
  close-Exchanges c (err e) s x =
      unanswered cbor debug _ _ c (record c { stream = s }) e
        (round_trip-stream cbor debug (system_command Protocol.close_connection []) c (err e) s x)

  -- Each of the two that consume the client sends its one request, whose exchange is one of
  -- `Exchanges`, and gives the error of an exchange that fails. Shutting the server down succeeds
  -- exactly on a shutdown notice, whatever it says, or a quiet acknowledgement; any other response
  -- is unexpected, one that carries an error too. Closing succeeds on every response that carries
  -- no error, and gives the error that the others carry.
  pub ends_complete :
      (c : Client)
      → ((q : Result CborError Response) × (s : Stream) × Exchanges cbor
            (system_command Protocol.shutdown [])
            c.stream
            q
            s
          × (Client.shutdown_server cbor debug c
              ≡ ((q >>= down_or_unexpected), record c { stream = s })))
        × ((q : Result CborError Response) × (s : Stream) × Exchanges cbor
              (system_command Protocol.close_connection [])
              c.stream
              q
              s
            × (Client.close cbor debug c ≡ (
              (q >>= λ r. unless_refused cbor debug (refusal cbor debug r) (ok tt)),
              record c { stream = s },
            )))
  ends_complete c =
      let (q, s, x) = Exchanges-some cbor (system_command Protocol.shutdown []) c.stream in
      let (q', s', x') =
        Exchanges-some cbor (system_command Protocol.close_connection []) c.stream in
      ((q, s, x, shutdown_server-Exchanges c q s x), (q', s', x', close-Exchanges c q' s' x'))
