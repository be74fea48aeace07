-- ===== src/Client/Frame.antt =====
-- What the operations of src/client.rs leave alone: the address, the guard, the options of the
-- socket, and what was sent before.
use fing.Base.{ℕ, ◌+◌, List, [], ◌∷◌, Option, none, some, ◌≡◌, refl, ◌∙◌, arith}
use fing.Base.Text.{Text}
use fing.Protocol.{CommandWithArgs, Response}
use fing.Codec.{Cbor}
use fing.Codec.Streams.{Continues, Continues-refl, Continues-trans, Continues-more, Goes-round_trip}
use fing.Client.{Client, round_trip}
use fing.Client.Wire.{Operation, use_database, reset_server, after, after_all}
use fing.Client.Rules.{Carried, Chooses, after_related}
use fing.Base.{length, subst}

-- The client `c'` comes of `c` by at most `n` requests, the database apart.
pub record Framed (n : ℕ) (c c' : Client) : Type 0 where
  pub same_addr : c'.addr ≡ c.addr
  pub same_guard : c'.statement_guard ≡ c.statement_guard
  pub goes_on : Continues n c.stream c'.stream

Framed-refl : (c : Client) → Framed 0 c c
Framed-refl c = record { same_addr = refl; same_guard = refl; goes_on = Continues-refl c.stream }

Framed-more : (n : ℕ) (c d : Client) → Framed 0 c d → Framed n c d
Framed-more n c d h = record {
  same_addr = h.same_addr;
  same_guard = h.same_guard;
  goes_on = Continues-more 0 n (omega arith) h.goes_on;
}

Framed-join : (m n : ℕ) (b c d : Client) → Framed m b c → Framed n c d → Framed (m + n) b d
Framed-join m n b c d h k = record {
  same_addr = k.same_addr ∙ h.same_addr;
  same_guard = k.same_guard ∙ h.same_guard;
  goes_on = Continues-trans m n h.goes_on k.goes_on;
}

module _ (cbor : Cbor) (debug : Response → Text) where
  Framed-request :
      (command : CommandWithArgs) (c : Client) → Framed 1 c (round_trip cbor debug command c).1
  unfolding round_trip
  Framed-request command c = record {
    same_addr = refl;
    same_guard = refl;
    goes_on = (Goes-round_trip cbor command).at c.stream;
  }

  Framed-database : (name : Option Text) (c : Client) → Framed 0 c (record c { database = name })
  Framed-database name c = record {
    same_addr = refl;
    same_guard = refl;
    goes_on = Continues-refl c.stream;
  }

  framed : Carried cbor debug
  framed = record {
    Rel = Framed;
    same = Framed-refl;
    more = Framed-more;
    join = Framed-join;
    request = Framed-request;
  }

  chosen : (op : Operation) → Chooses cbor debug framed op
  unfolding framed
  chosen (use_database name) = λ n. Framed-database (some n)
  chosen reset_server = Framed-database none
  chosen op = tt

  pub after-Framed : (op : Operation) (c : Client) → Framed 1 c (after cbor debug op c)
  unfolding framed
  after-Framed op = after_related cbor debug framed op (chosen op)

  -- A session of n operations sends n chunks at most, each behind those before it; it takes what it
  -- reads from the front of what arrives, and changes neither the address, the guard nor an option
  -- of the socket, whatever the operations come to.
  pub after_all-Framed :
      (ops : List Operation) (c : Client) → Framed (length ops) c (after_all cbor debug ops c)
  after_all-Framed [] c = Framed-refl c
  after_all-Framed (op ∷ ops) c =
      subst (λ n. Framed n c (after_all cbor debug (op ∷ ops) c)) (omega arith)
        (Framed-join 1 (length ops) c (after cbor debug op c) (after_all cbor debug (op ∷ ops) c)
          (after-Framed op c) (after_all-Framed ops (after cbor debug op c)))
