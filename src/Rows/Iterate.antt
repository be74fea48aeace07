-- ===== src/Rows/Iterate.antt =====
-- The iterator over the rows of a result set in src/rows.rs.
use fing.Base.{
  ℕ, zero, suc, ◌-◌, List, [], ◌∷◌, Option, none, some, ◌≡◌, refl, ap, sym, ◌∙◌, arith, length,
  replicate,
}
use fing.Schema.{Schema}
use fing.Value.{Value}
use fing.Rows
use fing.Protocol.{PagingInfo}
use fing.Rows.{Rows, Row, RowIter, row_at, iter, next, size_hint, rows_len, into_iter}

-- What `n` calls of `next` give, and the iterator behind them.
abbrev pub calls : ℕ → RowIter → List (Option Row) × RowIter
calls zero it = ([], it)
calls (suc n) it = let (r, it') = next it in let (rs, it'') = calls n it' in (r ∷ rs, it'')

-- The rows at the positions from `i` on, `n` of them.
abbrev pub rows_from : ℕ → ℕ → Rows → List (Option Row)
rows_from i zero r = []
rows_from i (suc n) r = row_at r i ∷ rows_from (suc i) n r

rows_from-cons :
    (i n : ℕ) (schema : Schema) (values : List Value) (rest : List (List Value))
    (p : Option PagingInfo)
    → rows_from (suc i) n (Rows.new schema (values ∷ rest) p)
      ≡ rows_from i n (Rows.new schema rest p)
unfolding row_at Rows.new
rows_from-cons i zero schema values rest p = refl
rows_from-cons i (suc n) schema values rest p =
    ap (◌∷◌ (row_at (Rows.new schema rest p) i)) (rows_from-cons (suc i) n schema values rest p)

rows_from-nil :
    (i n : ℕ) (schema : Schema) (p : Option PagingInfo)
    → rows_from i n (Rows.new schema [] p) ≡ replicate n none
unfolding row_at Rows.new
rows_from-nil i zero schema p = refl
rows_from-nil i (suc n) schema p = ap (◌∷◌ none) (rows_from-nil (suc i) n schema p)

calls-nil :
    (n : ℕ) (schema : Schema)
    → calls n (record { schema = schema; inner = [] })
      ≡ (replicate n none, record { schema = schema; inner = [] })
unfolding next
calls-nil zero schema = refl
calls-nil (suc n) schema =
    ap (λ (p : List (Option Row) × RowIter). (none ∷ p.0, p.1)) (calls-nil n schema)

calls-at :
    (n : ℕ) (schema : Schema) (rows : List (List Value)) (p : Option PagingInfo)
    → ((calls n (record { schema = schema; inner = rows })).0
        ≡ rows_from 0 n (Rows.new schema rows p))
      × (size_hint (calls n (record { schema = schema; inner = rows })).1
          ≡ (length rows - n, some (length rows - n)))
unfolding next size_hint row_at Rows.new
calls-at zero schema rows p = (refl, ap (λ (k : ℕ). (k, some k)) (omega arith))
calls-at (suc n) schema [] p = (
  ap (λ (q : List (Option Row) × RowIter). none ∷ q.0) (calls-nil n schema)
      ∙ ap (◌∷◌ none) (sym (rows_from-nil 1 n schema p)),
  ap (λ (q : List (Option Row) × RowIter). (length q.1.inner, some (length q.1.inner)))
        (calls-nil n schema)
      ∙ ap (λ (k : ℕ). (k, some k)) (omega arith),
)
calls-at (suc n) schema (values ∷ rest) p =
    let (given, hint) = calls-at n schema rest p in
    (
      ap (◌∷◌ (some (record { schema = schema; values = values })))
          (given ∙ sym (rows_from-cons 0 n schema values rest p)),
      hint ∙ ap (λ (k : ℕ). (k, some k)) (omega arith),
    )

-- However often it is called, `next` gives the rows in order, each as `get` reads it at its position
-- and none past the last, and `size_hint` is exact after every call.
pub calls-row_at :
    (n : ℕ) (r : Rows)
    → ((calls n (into_iter r)).0 ≡ rows_from 0 n r)
      × (size_hint (calls n (into_iter r)).1 ≡ (rows_len r - n, some (rows_len r - n)))
unfolding into_iter iter rows_len Rows.new
calls-row_at n r = calls-at n r.schema r.rows r.paging
