-- ===== src/Sql/Refused.antt =====
-- What `inspect` of src/sql.rs answers to the leading words of no statement that the server runs.
use fing.Base.{
  List, [], ◌∷◌, ◌++◌, ◌≡◌, ◌≢◌, ◌↔◌, ◌⊎◌, inl, inr, sym, arith, take, Bool-cases, eq_list,
  eq_list_iff, subst,
}
use fing.Base.Text.{Text, codes}
use fing.Error.{Error, unsupported, invalid_argument, err}
use fing.Sql.{classify}

abbrev IsUnknown : Text → Type 0
IsUnknown w =
    (w ≢ codes "SELECT") × (w ≢ codes "WITH") × (w ≢ codes "INSERT") × (w ≢ codes "CREATE")

-- The error for leading words of no statement that the server runs.
abbrev pub Refuses : {C : Type 0} → List Text → Error C → Type 0
Refuses [] f = f ≡ invalid_argument (codes "statement is empty")
Refuses (w ∷ []) f =
    ((w ≡ codes "CREATE") × (f ≡ invalid_argument (codes "incomplete CREATE statement")))
    ⊎ (IsUnknown w × (f ≡ unsupported (w ++ codes " statements")))
Refuses (w ∷ v ∷ ws) f =
    ((w ≡ codes "CREATE")
      × (v ≢ codes "TABLE")
      × (f ≡ unsupported (codes "CREATE " ++ v ++ codes " statements")))
    ⊎ (IsUnknown w × (f ≡ unsupported (w ++ codes " statements")))

module _ {C : Type 0} where
  refuse_create :
      (v : Text) (ws : List Text) (f : Error C)
      → (classify {C = C} (codes "CREATE" ∷ v ∷ []) ≡ err f) ↔ Refuses (codes "CREATE" ∷ v ∷ ws) f
  unfolding classify eq_list
  refuse_create v ws f = ground (arith, eq_list_iff v (codes "TABLE"))

  refuse_other :
      (w v : Text) (ws : List Text) (f : Error C)
      → w ≢ codes "CREATE"
      → (classify {C = C} (w ∷ v ∷ []) ≡ err f) ↔ Refuses (w ∷ v ∷ ws) f
  unfolding classify
  refuse_other w v ws f h = ground (
    arith,
    h,
    eq_list_iff w (codes "SELECT"),
    eq_list_iff w (codes "WITH"),
    eq_list_iff w (codes "INSERT"),
    eq_list_iff w (codes "CREATE"),
  )

  refuse_bare_create :
      (f : Error C)
      → (classify {C = C} (codes "CREATE" ∷ []) ≡ err f) ↔ Refuses (codes "CREATE" ∷ []) f
  unfolding classify eq_list
  refuse_bare_create f = ground arith

  refuse_other_bare :
      (w : Text) (f : Error C)
      → w ≢ codes "CREATE"
      → (classify {C = C} (w ∷ []) ≡ err f) ↔ Refuses (w ∷ []) f
  unfolding classify
  refuse_other_bare w f h = ground (
    arith,
    h,
    eq_list_iff w (codes "SELECT"),
    eq_list_iff w (codes "WITH"),
    eq_list_iff w (codes "INSERT"),
    eq_list_iff w (codes "CREATE"),
  )

  pub classify-Refuses :
      (ws : List Text) (f : Error C) → (classify {C = C} (take 2 ws) ≡ err f) ↔ Refuses ws f
  unfolding classify
  classify-Refuses [] f = ground arith
  classify-Refuses (w ∷ []) f = elim (Bool-cases (eq_list w (codes "CREATE"))) [
    | inl create ↦
        subst (λ (x : Text). (classify {C = C} (x ∷ []) ≡ err f) ↔ Refuses (x ∷ []) f)
          (sym ((eq_list_iff w (codes "CREATE")).0 create)) (refuse_bare_create f)
    | inr differs ↦ refuse_other_bare w f (ground (arith, eq_list_iff w (codes "CREATE")))
  ]
  classify-Refuses (w ∷ v ∷ ws) f = elim (Bool-cases (eq_list w (codes "CREATE"))) [
    | inl create ↦
        subst (λ (x : Text). (classify {C = C} (x ∷ v ∷ []) ≡ err f) ↔ Refuses (x ∷ v ∷ ws) f)
          (sym ((eq_list_iff w (codes "CREATE")).0 create)) (refuse_create v ws f)
    | inr differs ↦ refuse_other w v ws f (ground (arith, eq_list_iff w (codes "CREATE")))
  ]
