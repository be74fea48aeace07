-- ===== src/Schema/Unqualified.antt =====
-- The part of a column's name behind its last dot.
use mathlib.Core.List.{reverse-append}
use fing.Base.{
  ℕ, List, [], ◌∷◌, ◌++◌, false, ◌≡◌, ◌≢◌, ◌↔◌, ◌⊎◌, inl, inr, refl, sym, ap, subst, ◌∙◌, arith,
  All, Bool-cases, ◌==◌,
}
use fing.Base.Text.{Text, split_by, split, rsplit}
use fing.Schema.{Attribute, first_or, unqualified}

abbrev HasNoDot : Text → Type 0
HasNoDot t = All (λ c. c ≢ b'.') t

-- `t` is the whole of `s`, or what stands behind a dot, and holds no dot.
abbrev pub IsLastPart : Text → Text → Type 0
IsLastPart s t = HasNoDot t × ((s ≡ t) ⊎ ((p : Text) × (s ≡ p ++ (b'.' ∷ t))))

-- The pieces of a split: the text itself, or some pieces and a last one.
data Pieces (s : Text) : Type 0 where
  whole : split b'.' s ≡ s ∷ [] → HasNoDot s → Pieces s
  behind :
      (f : Text) (fs : List Text) (t p : Text)
      → split b'.' s ≡ f ∷ (fs ++ (t ∷ []))
      → s ≡ p ++ (b'.' ∷ t)
      → HasNoDot t
      → Pieces s

Pieces-dot : (s : Text) → Pieces s → Pieces (b'.' ∷ s)
unfolding split_by
Pieces-dot s (whole e h) = behind [] [] s [] (ap (◌∷◌ []) e) refl h
Pieces-dot s (behind f fs t p e e' h) =
    behind [] (f ∷ fs) t (b'.' ∷ p) (ap (◌∷◌ []) e) (ap (◌∷◌ b'.') e') h

Pieces-other : (c : ℕ) (s : Text) → (c == b'.') ≡ false → Pieces s → Pieces (c ∷ s)
unfolding split_by
Pieces-other c s ne (whole e h) = whole (rw (ne, e) refl) ((λ d. ground arith), h)
Pieces-other c s ne (behind f fs t p e e' h) =
    behind (c ∷ f) fs t (c ∷ p) (rw (ne, e) refl) (ap (◌∷◌ c) e') h

pieces : (s : Text) → Pieces s
unfolding split_by
pieces [] = whole refl tt
pieces (c ∷ s) = elim (Bool-cases (c == b'.')) [
  | inl dot ↦
      let e : b'.' ≡ c = ground arith in subst (λ x. Pieces (x ∷ s)) e (Pieces-dot s (pieces s))
  | inr other ↦ Pieces-other c s other (pieces s)
]

first_or-IsLastPart : (d s : Text) → Pieces s → IsLastPart s (first_or d (rsplit b'.' s))
first_or-IsLastPart d s (whole e h) = rw e (h, inl refl)
first_or-IsLastPart d s (behind f fs t p e e' h) =
    rw (e, reverse-append (f ∷ fs) (t ∷ [])) (h, inr (p, e'))

no_dot_behind : (q u : Text) → ¬ (HasNoDot (q ++ (b'.' ∷ u)))
no_dot_behind [] u h = h.0 refl
no_dot_behind (c ∷ q) u h = no_dot_behind q u h.1

behind_unique :
    (p q t u : Text) → HasNoDot t → HasNoDot u → p ++ (b'.' ∷ t) ≡ q ++ (b'.' ∷ u) → t ≡ u
behind_unique [] [] t u h k e = cc
behind_unique [] (d ∷ q) t u h k e = absurd (no_dot_behind q u (subst HasNoDot (cc) h))
behind_unique (c ∷ p) [] t u h k e = absurd (no_dot_behind p t (subst HasNoDot (cc) k))
behind_unique (c ∷ p) (d ∷ q) t u h k e = behind_unique p q t u h k (cc)

IsLastPart-unique : (s t u : Text) → IsLastPart s t → IsLastPart s u → t ≡ u
IsLastPart-unique s t u (h, inl e) (k, inl f) = sym e ∙ f
IsLastPart-unique s t u (h, inl e) (k, inr (q, f)) =
    absurd (no_dot_behind q u (subst HasNoDot (sym e ∙ f) h))
IsLastPart-unique s t u (h, inr (p, e)) (k, inl f) =
    absurd (no_dot_behind p t (subst HasNoDot (sym f ∙ e) k))
IsLastPart-unique s t u (h, inr (p, e)) (k, inr (q, f)) = behind_unique p q t u h k (sym e ∙ f)

-- The unqualified name of a column is `t` exactly when `t` holds no dot and the name is `t`, or
-- ends in a dot and `t`.
pub unqualified_iff : (a : Attribute) (t : Text) → (unqualified a ≡ t) ↔ IsLastPart a.name t
unfolding unqualified
unqualified_iff a t =
    ((λ e. subst (IsLastPart a.name) e here), λ h. IsLastPart-unique a.name _ t here h)
  where
    here : IsLastPart a.name (first_or a.name (rsplit b'.' a.name))
    here = first_or-IsLastPart a.name a.name (pieces a.name)
