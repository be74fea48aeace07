-- ===== src/Client/Imported.antt =====
-- `parse_imported` of src/client.rs, and the prose of a server that counts rows.
use fing.Base.{
  ℕ, ◌≤◌, List, [], ◌∷◌, ◌++◌, Bool, true, false, none, some, ◌≡◌, ◌≢◌, refl, ap, ◌∙◌, arith, All,
  Bool-cases, inl, inr,
}
use fing.Base.Text.{Text, is_whitespace, split_by, push_head, filter_non_empty, split_whitespace}
use fing.Base.Decimal.{to_string, parse_usize, usize_max}
use fing.Base.Decimal.Digits.{
  IsDigit, number_of, number_of-to_string, to_string-IsDigit, to_string-ne-nil,
  parse_usize-number_of,
}
use fing.Error.{ok}
use fing.Client.Names.{find_usize, parse_imported}

push_head-ne-nil : (c : ℕ) (ps : List Text) → push_head c ps ≢ []
push_head-ne-nil c [] e = cc
push_head-ne-nil c (p ∷ ps) e = cc

push_head-append :
    (c : ℕ) (ps qs : List Text) → ps ≢ [] → push_head c (ps ++ qs) ≡ push_head c ps ++ qs
push_head-append c [] qs h = absurd (h refl)
push_head-append c (p ∷ ps) qs h = refl

module _ (sep : ℕ → Bool) where
  split_by-ne-nil : (s : Text) → split_by sep s ≢ []
  unfolding split_by
  split_by-ne-nil [] e = cc
  split_by-ne-nil (c ∷ s) e = elim (Bool-cases (sep c)) [
    | inl ends ↦ cc (rw ends at e)
    | inr goes_on ↦ push_head-ne-nil c (split_by sep s) (rw goes_on at e)
  ]

  -- A separator ends the pieces of the text before it.
  split_by-append :
      (s : Text) (c : ℕ) (t : Text)
      → sep c ≡ true
      → split_by sep (s ++ (c ∷ t)) ≡ split_by sep s ++ split_by sep t
  unfolding split_by
  split_by-append [] c t h = rw h refl
  split_by-append (d ∷ s) c t h = elim (Bool-cases (sep d)) [
    | inl ends ↦ rw (ends, split_by-append s c t h) refl
    | inr goes_on ↦
        rw (goes_on, split_by-append s c t h)
          (push_head-append d (split_by sep s) (split_by sep t) (split_by-ne-nil s))
  ]

  split_by-whole : (s : Text) → All (λ c. sep c ≡ false) s → split_by sep s ≡ s ∷ []
  unfolding split_by
  split_by-whole [] h = refl
  split_by-whole (c ∷ s) (here, there) = rw (here, split_by-whole s there)

filter_non_empty-append :
    (ps qs : List Text) → filter_non_empty (ps ++ qs) ≡ filter_non_empty ps ++ filter_non_empty qs
unfolding filter_non_empty
filter_non_empty-append [] qs = refl
filter_non_empty-append (p ∷ ps) qs = ground (arith, filter_non_empty-append ps qs)

split_whitespace-append :
    (s t : Text) → split_whitespace (s ++ (b' ' ∷ t)) ≡ split_whitespace s ++ split_whitespace t
unfolding split_whitespace
split_whitespace-append s t =
    ap filter_non_empty (split_by-append is_whitespace s b' ' t refl)
    ∙ filter_non_empty-append (split_by is_whitespace s) (split_by is_whitespace t)

is_whitespace-digit : (c : ℕ) → IsDigit c → is_whitespace c ≡ false
unfolding is_whitespace
is_whitespace-digit c h = ground arith

no_spaces : (s : Text) → All IsDigit s → All (λ c. is_whitespace c ≡ false) s
no_spaces [] h = tt
no_spaces (c ∷ s) (h, hs) = (is_whitespace-digit c h, no_spaces s hs)

digits_alone : (s : Text) → s ≢ [] → All IsDigit s → split_whitespace s ≡ s ∷ []
unfolding split_whitespace filter_non_empty
digits_alone [] full h = absurd (full refl)
digits_alone (c ∷ s) full h =
    ap filter_non_empty (split_by-whole is_whitespace (c ∷ s) (no_spaces (c ∷ s) h))

-- A word that is no number for `parse::<usize>`.
abbrev pub IsNoNumber : Text → Type 0
IsNoNumber word = parse_usize word ≡ none

find_usize-none : (words : List Text) → All IsNoNumber words → find_usize words ≡ none
unfolding find_usize
find_usize-none [] h = refl
find_usize-none (word ∷ words) (here, there) = rw (here, find_usize-none words there)

find_usize-first :
    (words : List Text) (word : Text) (n : ℕ) (later : List Text)
    → All IsNoNumber words
    → parse_usize word ≡ some n
    → find_usize (words ++ (word ∷ later)) ≡ some n
unfolding find_usize
find_usize-first [] word n later h e = rw e refl
find_usize-first (w ∷ words) word n later (here, there) e =
    rw here (find_usize-first words word n later there e)

number_read : (n : ℕ) → n ≤ usize_max → parse_usize (to_string n) ≡ some n
number_read n h =
    go (to_string n) (to_string-IsDigit n) (number_of-to_string n) (to_string-ne-nil n)
  where
    go : (s : Text) → All IsDigit s → number_of s ≡ n → s ≢ [] → parse_usize s ≡ some n
    go [] d e f = absurd (f refl)
    go (c ∷ s) d e f = parse_usize-number_of c s d (omega (arith, e, h)) ∙ ap some e

-- The words of a message that counts: those before the number, the number, and those behind it.
words_of_count :
    (before behind : Text) (n : ℕ)
    → split_whitespace (before ++ (b' ' ∷ (to_string n ++ (b' ' ∷ behind))))
      ≡ split_whitespace before ++ (to_string n ∷ split_whitespace behind)
words_of_count before behind n =
    split_whitespace-append before (to_string n ++ (b' ' ∷ behind))
    ∙ ap (◌++◌ (split_whitespace before)) (
        split_whitespace-append (to_string n) behind
        ∙ ap (λ ws. ws ++ split_whitespace behind)
            (digits_alone (to_string n) (to_string-ne-nil n) (to_string-IsDigit n)))

-- A message is read as the count that is its first number, when a `usize` holds it and spaces
-- stand around it.
pub parse_imported-first :
    {C : Type 0} (before behind : Text) (n : ℕ)
    → n ≤ usize_max
    → All IsNoNumber (split_whitespace before)
    → parse_imported {C = C} (before ++ (b' ' ∷ (to_string n ++ (b' ' ∷ behind)))) ≡ ok n
unfolding parse_imported
parse_imported-first before behind n h none_before =
    rw
      (
        words_of_count before behind n,
        find_usize-first (split_whitespace before) (to_string n) n (split_whitespace behind)
            none_before (number_read n h),
      )
      refl
