-- ===== src/Sql/Cuts.antt =====
-- Where the token that begins in a text of src/sql.rs ends.
use fing.Base.{
  ℕ, [], ◌∷◌, ◌++◌, true, false, ◌&&◌, ◌≡◌, ◌≢◌, ◌⊎◌, inl, inr, refl, ap, subst, arith, All,
  Bool-cases, ◌==◌,
}
use fing.Base.Text.{Bytes}
use fing.Sql.Lexer.{begins, is_word_byte}
use fing.Sql.Tokens.{double_quotes, is_unclosed, EndsWord}

-- What ends a line comment.
pub cut_line :
    (bs : Bytes)
    → (body : Bytes) × (next : Bytes) × (bs ≡ body ++ next)
      × All (λ b. b ≢ b'\n') body
      × ((next ≡ []) ⊎ (begins b'\n' next ≡ true))
cut_line [] = ([], [], refl, tt, inl refl)
cut_line (b ∷ bs) = elim (Bool-cases (b == b'\n')) [
  | inl feed ↦ ([], b ∷ bs, refl, tt, inr feed)
  | inr no_feed ↦
      let (body, next, e, h, f) = cut_line bs in
      (b ∷ body, next, ap (◌∷◌ b) e, (ground arith, h), f)
]

is_unclosed-cons :
    (b c : ℕ) (bs body next : Bytes)
    → b == b'*' && c == b'/' ≡ false
    → c ∷ bs ≡ (body ++ (b'*' ∷ b'/' ∷ [])) ++ next
    → is_unclosed body ≡ true
    → is_unclosed (b ∷ body) ≡ true
is_unclosed-cons b c bs [] next h e u = ground arith
is_unclosed-cons b c bs (d ∷ body) next h e u = ground arith

-- A block comment is closed, or goes on to the end.
pub cut_block :
    (bs : Bytes)
    → ((body : Bytes) × (next : Bytes) × (bs ≡ (body ++ (b'*' ∷ b'/' ∷ [])) ++ next)
        × (is_unclosed body ≡ true))
      ⊎ (is_unclosed bs ≡ true)
cut_block [] = inr refl
cut_block (b ∷ []) = inr (ground arith)
cut_block (b ∷ c ∷ bs) = elim (Bool-cases (b == b'*' && c == b'/')) [
  | inl close ↦ inl ([], bs, ground arith, refl)
  | inr goes_on ↦ elim (cut_block (c ∷ bs)) [
    | inl (body, next, e, h) ↦
        inl (b ∷ body, next, ap (◌∷◌ b) e, is_unclosed-cons b c bs body next goes_on e h)
    | inr h ↦ inr (ground arith)
  ]
]

abbrev pub CutString : Bytes → Type 0
CutString bs =
    ((body : Bytes) × (next : Bytes) × (bs ≡ (double_quotes body ++ (b'\'' ∷ [])) ++ next)
      × (begins b'\'' next ≡ false))
    ⊎ ((body : Bytes) × (bs ≡ double_quotes body))

cons_plain : (b : ℕ) (bs : Bytes) → (b == b'\'') ≡ false → CutString bs → CutString (b ∷ bs)
cons_plain b bs plain (inl (body, next, e, h)) = inl (b ∷ body, next, rw plain (ap (◌∷◌ b) e), h)
cons_plain b bs plain (inr (body, e)) = inr (b ∷ body, rw plain (ap (◌∷◌ b) e))

cons_quote : (bs : Bytes) → CutString bs → CutString (b'\'' ∷ b'\'' ∷ bs)
cons_quote bs (inl (body, next, e, h)) =
    inl (b'\'' ∷ body, next, ap (λ (x : Bytes). b'\'' ∷ b'\'' ∷ x) e, h)
cons_quote bs (inr (body, e)) = inr (b'\'' ∷ body, ap (λ (x : Bytes). b'\'' ∷ b'\'' ∷ x) e)

pub cut_string : (bs : Bytes) → CutString bs
cut_string [] = inr ([], refl)
cut_string (b ∷ []) = elim (Bool-cases (b == b'\'')) [
  | inl quote ↦ inl ([], [], ground arith, refl)
  | inr plain ↦ inr (b ∷ [], rw plain refl)
]
cut_string (b ∷ c ∷ bs) = elim (Bool-cases (b == b'\'')) [
  | inr plain ↦ cons_plain b (c ∷ bs) plain (cut_string (c ∷ bs))
  | inl quote ↦ elim (Bool-cases (c == b'\'')) [
    | inl again ↦ subst (λ (x : Bytes). CutString x) (ground arith) (cons_quote bs (cut_string bs))
    | inr ends ↦ inl ([], c ∷ bs, ground arith, ends)
  ]
]

pub cut_ident :
    (bs : Bytes)
    → ((body : Bytes) × (next : Bytes) × (bs ≡ (body ++ (b'"' ∷ [])) ++ next)
        × All (λ b. b ≢ b'"') body)
      ⊎ All (λ b. b ≢ b'"') bs
cut_ident [] = inr tt
cut_ident (b ∷ bs) = elim (Bool-cases (b == b'"')) [
  | inl quote ↦ inl ([], bs, ground arith, tt)
  | inr plain ↦ elim (cut_ident bs) [
    | inl (body, next, e, h) ↦ inl (b ∷ body, next, ap (◌∷◌ b) e, (ground arith, h))
    | inr h ↦ inr (ground arith, h)
  ]
]

pub cut_word :
    (bs : Bytes)
    → (cs : Bytes) × (next : Bytes) × (bs ≡ cs ++ next)
      × All (λ b. is_word_byte b ≡ true) cs
      × EndsWord next
cut_word [] = ([], [], refl, tt, tt)
cut_word (b ∷ bs) = elim (Bool-cases (is_word_byte b)) [
  | inl inside ↦
      let (cs, next, e, h, f) = cut_word bs in (b ∷ cs, next, ap (◌∷◌ b) e, (inside, h), f)
  | inr outside ↦ ([], b ∷ bs, refl, tt, outside)
]
