-- ===== src/Client/Spec.antt =====
-- A session as its user sees it: the database chosen and the guard. Each operation of src/client.rs
-- is a step of it, which depends on whether the operation succeeds and on nothing else.
use fing.Base.{List, [], ◌∷◌, Bool, true, false, Option, none, some, ◌≡◌, refl, ap, sym, arith, ◌∙◌}
use fing.Base.Text.{Text, trim}
use fing.Error.{Result, ok, err}
use fing.Protocol.{Response}
use fing.Codec.{Cbor}
use fing.Client
use fing.Client.{Client}
use fing.Client.Wire.{
  Operation, create_database, use_database, databases, tables, execute, query, import_csv, commit,
  help, reset_server, after, after_all,
}
use fing.Client.Frame.{after-Framed}
use fing.Client.Selected.{Records, after-database, use_database-Records, reset_server-Records}

pub record View : Type 0 where
  pub chosen : Option Text
  pub guard : Bool

-- A step of the session, for an operation that succeeds or fails.
abbrev pub spec_step : Operation → Bool → View → View
spec_step (use_database name) true v = record v { chosen = some (trim name) }
spec_step reset_server true v = record v { chosen = none }
spec_step op b v = v

abbrev pub spec_run : List Operation → List Bool → View → View
spec_run (op ∷ ops) (b ∷ bs) v = spec_run ops bs (spec_step op b v)
spec_run _ _ v = v

abbrev pub view : Client → View
view c = record { chosen = c.database; guard = c.statement_guard }

abbrev is_ok : {C A : Type 0} → Result C A → Bool
is_ok (ok _) = true
is_ok (err _) = false

module _ (cbor : Cbor) (debug : Response → Text) where
  open cbor use {CborError}

  -- Whether an operation returns a value.
  abbrev pub succeeds : Operation → Client → Bool
  succeeds (create_database name) c = is_ok (Client.create_database cbor debug name c).0
  succeeds (use_database name) c = is_ok (Client.use_database cbor debug name c).0
  succeeds databases c = is_ok (Client.databases cbor debug c).0
  succeeds tables c = is_ok (Client.tables cbor debug c).0
  succeeds (execute sql) c = is_ok (Client.execute cbor debug sql c).0
  succeeds (query sql) c = is_ok (Client.query_rows cbor debug sql c).0
  succeeds (import_csv path table) c = is_ok (Client.import_csv cbor debug path table c).0
  succeeds commit c = is_ok (Client.commit cbor debug c).0
  succeeds help c = is_ok (Client.help cbor debug c).0
  succeeds reset_server c = is_ok (Client.reset_server cbor debug c).0

  abbrev pub outcomes : List Operation → Client → List Bool
  outcomes [] c = []
  outcomes (op ∷ ops) c = succeeds op c ∷ outcomes ops (after cbor debug op c)

  view-eq :
      (c d : Client) (name : Option Text)
      → d.database ≡ name
      → d.statement_guard ≡ c.statement_guard
      → view d ≡ record { chosen = name; guard = c.statement_guard }
  view-eq c d name e f = ground arith

  choosing :
      (op : Operation) (name : Option Text) (c : Client) (p : Result CborError (Unit {0}) × Client)
      → ((v : View) → spec_step op true v ≡ record v { chosen = name })
      → ((v : View) → spec_step op false v ≡ v)
      → Records cbor debug name c p
      → p.1.statement_guard ≡ c.statement_guard
      → view p.1 ≡ spec_step op (is_ok p.0) (view c)
  choosing op name c (ok x, d) done failed e f = view-eq c d name e f ∙ sym (done (view c))
  choosing op name c (err x, d) done failed e f = view-eq c d c.database e f ∙ sym (failed (view c))

  after-refines :
      (op : Operation) (c : Client)
      → view (after cbor debug op c) ≡ spec_step op (succeeds op c) (view c)
  after-refines (use_database name) c =
      choosing (use_database name) (some (trim name)) c (Client.use_database cbor debug name c)
        (λ v. refl) (λ v. refl) (use_database-Records cbor debug name c)
        (after-Framed cbor debug (use_database name) c).same_guard
  after-refines reset_server c =
      choosing reset_server none c (Client.reset_server cbor debug c) (λ v. refl) (λ v. refl)
        (reset_server-Records cbor debug c) (after-Framed cbor debug reset_server c).same_guard
  after-refines op c =
      view-eq c (after cbor debug op c) c.database (after-database cbor debug op tt c)
        (after-Framed cbor debug op c).same_guard

  -- A session of any operations on any client is, of the database on record and of the guard, the
  -- session that the specification runs on the same successes and failures.
  pub after_all-refines :
      (ops : List Operation) (c : Client)
      → view (after_all cbor debug ops c) ≡ spec_run ops (outcomes ops c) (view c)
  after_all-refines [] c = refl
  after_all-refines (op ∷ ops) c =
      after_all-refines ops (after cbor debug op c)
      ∙ ap (spec_run ops (outcomes ops (after cbor debug op c))) (after-refines op c)
