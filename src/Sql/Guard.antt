-- ===== src/Sql/Guard.antt =====
-- What the guard `inspect` lets through, on text that is a list of tokens.
use fing.Base.{
  List, [], ◌∷◌, true, false, ◌≡◌, ◌↔◌, ◌⊎◌, inl, inr, sym, ap, ◌∙◌, arith, take, Bool-cases,
  eq_list_iff,
}
use fing.Base.Text.{Text, codes, as_bytes}
use fing.Error.{Error, multiple_statements, Result, ok, err, ◌>>=◌}
use fing.Sql.{StatementKind, query, insert, create_table, scan, classify, inspect}
use fing.Sql.Tokens.{Token, write, IsLexed, runs_on, words_of}
use fing.Sql.Tokenize.{lexes}
use fing.Sql.Unique.{IsLexed-unique}
use fing.Sql.Refused.{Refuses, classify-Refuses}
use fing.Sql.Lexed.{scan-IsLexed}

-- The leading words of the statements that the server runs.
abbrev pub Heads : List Text → StatementKind → Type 0
Heads [] k = ⊥
Heads (w ∷ ws) query = (w ≡ codes "SELECT") ⊎ (w ≡ codes "WITH")
Heads (w ∷ ws) insert = w ≡ codes "INSERT"
Heads (w ∷ []) create_table = ⊥
Heads (w ∷ v ∷ ws) create_table = (w ≡ codes "CREATE") × (v ≡ codes "TABLE")

module _ {C : Type 0} where
  classify-Heads :
      (ws : List Text) (k : StatementKind) → (classify {C = C} (take 2 ws) ≡ ok k) ↔ Heads ws k
  unfolding classify
  classify-Heads [] k = ((λ h. cc), λ h. absurd h)
  classify-Heads (w ∷ []) query = ground (
    arith,
    eq_list_iff w (codes "SELECT"),
    eq_list_iff w (codes "WITH"),
    eq_list_iff w (codes "INSERT"),
    eq_list_iff w (codes "CREATE"),
  )
  classify-Heads (w ∷ []) insert = ground (
    arith,
    eq_list_iff w (codes "SELECT"),
    eq_list_iff w (codes "WITH"),
    eq_list_iff w (codes "INSERT"),
    eq_list_iff w (codes "CREATE"),
  )
  classify-Heads (w ∷ []) create_table = ground (
    arith,
    eq_list_iff w (codes "SELECT"),
    eq_list_iff w (codes "WITH"),
    eq_list_iff w (codes "INSERT"),
    eq_list_iff w (codes "CREATE"),
  )
  classify-Heads (w ∷ v ∷ ws) query = ground (
    arith,
    eq_list_iff w (codes "SELECT"),
    eq_list_iff w (codes "WITH"),
    eq_list_iff w (codes "INSERT"),
    eq_list_iff w (codes "CREATE"),
    eq_list_iff v (codes "TABLE"),
  )
  classify-Heads (w ∷ v ∷ ws) insert = ground (
    arith,
    eq_list_iff w (codes "SELECT"),
    eq_list_iff w (codes "WITH"),
    eq_list_iff w (codes "INSERT"),
    eq_list_iff w (codes "CREATE"),
    eq_list_iff v (codes "TABLE"),
  )
  classify-Heads (w ∷ v ∷ ws) create_table = ground (
    arith,
    eq_list_iff w (codes "SELECT"),
    eq_list_iff w (codes "WITH"),
    eq_list_iff w (codes "INSERT"),
    eq_list_iff w (codes "CREATE"),
    eq_list_iff v (codes "TABLE"),
  )

  inspect_lem :
      (sql : Text) (r : Result C (List Text))
      → scan sql ≡ r
      → inspect {C = C} sql ≡ (r >>= classify)
  unfolding inspect
  inspect_lem sql r e = ap (λ (x : Result C (List Text)). x >>= classify) e

  module _ (sql : Text) (ts : List Token) (e : as_bytes sql ≡ write ts) (h : IsLexed ts) where
    -- More than one statement is refused, whatever they are.
    inspect-runs_on : runs_on ts ≡ true → inspect {C = C} sql ≡ err multiple_statements
    inspect-runs_on more = inspect_lem sql _ (rw more at (scan-IsLexed {C = C} sql ts e h))

    inspect-classify : runs_on ts ≡ false → inspect {C = C} sql ≡ classify (take 2 (words_of ts))
    inspect-classify only = inspect_lem sql _ (rw only at (scan-IsLexed {C = C} sql ts e h))

    -- Text that is a list of tokens passes the guard as a `k` exactly when nothing but comments,
    -- spaces and semicolons stands behind its first semicolon and its first bare words are those
    -- of a `k`; what strings, quoted identifiers and comments hold plays no part.
    pub inspect-ok_iff :
        (k : StatementKind)
        → (inspect {C = C} sql ≡ ok k) ↔ ((runs_on ts ≡ false) × Heads (words_of ts) k)
    inspect-ok_iff k = elim (Bool-cases (runs_on ts)) [
      | inl more ↦ ((λ p. cc (inspect-runs_on more)), λ q. cc)
      | inr only ↦ (
        (λ p. (only, (classify-Heads (words_of ts) k).0 (sym (inspect-classify only) ∙ p))),
        λ q. inspect-classify only ∙ (classify-Heads (words_of ts) k).1 q.1,
      )
    ]

    inspect-err_iff :
        (f : Error C)
        → (inspect {C = C} sql ≡ err f) ↔ (
            ((runs_on ts ≡ true) × (f ≡ multiple_statements))
            ⊎ ((runs_on ts ≡ false) × Refuses (words_of ts) f))
    inspect-err_iff f = elim (Bool-cases (runs_on ts)) [
      | inl more ↦ (
        λ p. inl (more, cc (inspect-runs_on more)),
        λ q. elim q [
          | inl (_, same) ↦ inspect-runs_on more ∙ ap err (sym same)
          | inr (only, _) ↦ cc
        ],
      )
      | inr only ↦ (
        λ p. inr (only, (classify-Refuses (words_of ts) f).0 (sym (inspect-classify only) ∙ p)),
        λ q. elim q [
          | inl (more, _) ↦ cc
          | inr (_, refused) ↦ inspect-classify only ∙ (classify-Refuses (words_of ts) f).1 refused
        ],
      )
    ]

  -- Every text whatever is a list of tokens in just one way, and they alone decide what the guard makes of it: it
  -- accepts the text as a `k` exactly when nothing significant stands behind its first semicolon
  -- and its first bare words are those of a `k`, and it answers the error `f` exactly when `f` is
  -- the error for several statements and something significant stands behind the first
  -- semicolon, or nothing does and `f` is what `Refuses` names for the first bare words.
  pub inspect-lexes :
      (sql : Text)
      → (ts : List Token) × (as_bytes sql ≡ write ts)
        × IsLexed ts
        × ((us : List Token) → as_bytes sql ≡ write us → IsLexed us → us ≡ ts)
        × ((k : StatementKind)
            → (inspect {C = C} sql ≡ ok k) ↔ ((runs_on ts ≡ false) × Heads (words_of ts) k))
        × ((f : Error C)
            → (inspect {C = C} sql ≡ err f) ↔ (
                ((runs_on ts ≡ true) × (f ≡ multiple_statements))
                ⊎ ((runs_on ts ≡ false) × Refuses (words_of ts) f)))
  inspect-lexes sql =
      let (ts, e, h) = lexes (as_bytes sql) in
      (
        ts,
        e,
        h,
        (λ us e' h'. IsLexed-unique us ts h' h (sym e' ∙ e)),
        inspect-ok_iff sql ts e h,
        inspect-err_iff sql ts e h,
      )
