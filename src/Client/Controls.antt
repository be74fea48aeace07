-- ===== src/Client/Controls.antt =====
-- Sessions on a client of src/client.rs that also set its guard and its timeouts.
use fing.Base.{
  ℕ, zero, suc, List, [], ◌∷◌, Bool, true, false, Option, none, some, ◌≡◌, refl, ap, ◌∙◌,
}
use fing.Base.Text.{Text}
use fing.Protocol.{Response}
use fing.Codec.{Cbor}
use fing.Client.{SocketAddr, Client, set_statement_guard}
use fing.Client.Connect.{
  set_read_timeout, set_write_timeout, set_stream_read_timeout, set_stream_write_timeout,
}
use fing.Client.Keeps.{IsGuarded}
use fing.Client.Wire.{Operation, after, after-IsGuarded}
use fing.Client.Frame.{after-Framed}

pub data Step : Type 0 where
  operate : Operation → Step
  set_guard : Bool → Step
  set_reads set_writes : Option ℕ → Step

-- The settings of a client.
pub record Settings : Type 0 where
  pub addr : SocketAddr
  pub guard : Bool
  pub reads : Option ℕ
  pub writes : Option ℕ

abbrev pub settings : Client → Settings
settings c = record {
  addr = c.addr;
  guard = c.statement_guard;
  reads = c.stream.read_timeout;
  writes = c.stream.write_timeout;
}

-- A timeout of zero is refused, and the old one stays.
abbrev pub renewed : Option ℕ → Option ℕ → Option ℕ
renewed none old = none
renewed (some zero) old = old
renewed (some (suc t)) old = some (suc t)

-- What a step makes of the settings: operations leave them alone.
abbrev pub set : Step → Settings → Settings
set (operate op) s = s
set (set_guard enabled) s = record s { guard = enabled }
set (set_reads timeout) s = record s { reads = renewed timeout s.reads }
set (set_writes timeout) s = record s { writes = renewed timeout s.writes }

abbrev pub set_all : List Step → Settings → Settings
set_all [] s = s
set_all (step ∷ steps) s = set_all steps (set step s)

-- No step turns the guard off.
abbrev pub KeepsOn : List Step → Type 0
KeepsOn [] = Unit {0}
KeepsOn (set_guard false ∷ steps) = ⊥
KeepsOn (step ∷ steps) = KeepsOn steps

module _ (cbor : Cbor) (debug : Response → Text) where
  open cbor use {CborError}

  -- The client after a step; the result is dropped.
  abbrev pub after_step : Step → Client → Client
  after_step (operate op) c = after cbor debug op c
  after_step (set_guard enabled) c = set_statement_guard c enabled
  after_step (set_reads timeout) c = (set_read_timeout {C = CborError} timeout c).1
  after_step (set_writes timeout) c = (set_write_timeout {C = CborError} timeout c).1

  abbrev pub after_steps : List Step → Client → Client
  after_steps [] c = c
  after_steps (step ∷ steps) c = after_steps steps (after_step step c)

  step-settings : (step : Step) (c : Client) → settings (after_step step c) ≡ set step (settings c)
  unfolding set_statement_guard set_read_timeout set_write_timeout set_stream_read_timeout
      set_stream_write_timeout
  step-settings (operate op) c =
      let h = after-Framed cbor debug op c in
      λ i. record {
        addr = h.same_addr i;
        guard = h.same_guard i;
        reads = h.goes_on.read_timeout i;
        writes = h.goes_on.write_timeout i;
      }
  step-settings (set_guard enabled) c = refl
  step-settings (set_reads none) c = refl
  step-settings (set_reads (some zero)) c = refl
  step-settings (set_reads (some (suc t))) c = refl
  step-settings (set_writes none) c = refl
  step-settings (set_writes (some zero)) c = refl
  step-settings (set_writes (some (suc t))) c = refl

  -- Over every session, and whatever the server does, the settings of the client are those that
  -- the steps set: the guard as last set, each timeout as last set to none or to more than zero, and
  -- the address as it was.
  pub after_steps-settings :
      (steps : List Step) (c : Client) → settings (after_steps steps c) ≡ set_all steps (settings c)
  after_steps-settings [] c = refl
  after_steps-settings (step ∷ steps) c =
      after_steps-settings steps (after_step step c) ∙ ap (set_all steps) (step-settings step c)

  step-IsGuarded :
      (step : Step) (c : Client)
      → KeepsOn (step ∷ [])
      → IsGuarded cbor debug c
      → IsGuarded cbor debug (after_step step c)
  unfolding set_statement_guard set_read_timeout set_write_timeout set_stream_read_timeout
      set_stream_write_timeout
  step-IsGuarded (operate op) c k g = after-IsGuarded cbor debug op c g
  step-IsGuarded (set_guard true) c k g = record { guard_on = refl; requests = g.requests }
  step-IsGuarded (set_guard false) c k g = elim k [ ]
  step-IsGuarded (set_reads none) c k g = record { guard_on = g.guard_on; requests = g.requests }
  step-IsGuarded (set_reads (some zero)) c k g = g
  step-IsGuarded (set_reads (some (suc t))) c k g = record {
    guard_on = g.guard_on;
    requests = g.requests;
  }
  step-IsGuarded (set_writes none) c k g = record { guard_on = g.guard_on; requests = g.requests }
  step-IsGuarded (set_writes (some zero)) c k g = g
  step-IsGuarded (set_writes (some (suc t))) c k g = record {
    guard_on = g.guard_on;
    requests = g.requests;
  }

  KeepsOn-cons :
      (step : Step) (steps : List Step)
      → KeepsOn (step ∷ steps)
      → KeepsOn (step ∷ []) × KeepsOn steps
  KeepsOn-cons (set_guard true) steps k = (tt, k)
  KeepsOn-cons (set_guard false) steps k = elim k [ ]
  KeepsOn-cons step steps k = (tt, k)

  -- A session that never turns the guard off keeps it on, whatever else it sets, and puts nothing on
  -- the wire but what the guard allows.
  pub after_steps-IsGuarded :
      (steps : List Step) (c : Client)
      → KeepsOn steps
      → IsGuarded cbor debug c
      → IsGuarded cbor debug (after_steps steps c)
  after_steps-IsGuarded [] c k g = g
  after_steps-IsGuarded (step ∷ steps) c k g =
      let (now, later) = KeepsOn-cons step steps k in
      after_steps-IsGuarded steps (after_step step c) later (step-IsGuarded step c now g)
