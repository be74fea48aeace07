-- ===== src/Value/Written.antt =====
-- How src/value.rs writes a decimal, and counts its digits.
use fing.Base.{
  append-nil, ◌^◌, ℕ, zero, suc, ◌+◌, ◌-◌, ◌*◌, ◌≤◌, ◌<◌, [], ◌∷◌, ◌++◌, ◌≡◌, ◌⊎◌, inl, inr, refl,
  sym, ap, subst, ◌∙◌, arith, All, Bool-cases, ltb, leb, ◌==◌, if◌then◌else◌, length, take, drop,
  replicate, length-append, length-replicate, length-drop, take-append-drop, take-All, drop-All,
  append-All, replicate-All,
}
use fing.Base.Int.{ℤ, pos, negsuc, unsigned_abs, ltb_ℤ, IsI64}
use fing.Base.Text.{Text, codes}
use fing.Base.Decimal.{to_string}
use fing.Base.Decimal.Digits.{
  pow10, number_of, IsDigit, HasDigits, length-to_string, number_of-to_string, to_string-IsDigit,
  IsLeading, to_string-begins, number_from-append, number_from-eq, number_of-replicate,
}
use fing.Value.{precision_of}
use fing.Value.Decimal.{format_decimal}

abbrev pub sign_of : ℤ → Text
sign_of (pos n) = []
sign_of (negsuc n) = codes "-"

-- The digits of a fraction, behind their point.
abbrev pub fraction : Text → Text
fraction [] = []
fraction (c ∷ s) = b'.' ∷ c ∷ s

-- The digits `whole` and `part` of n / 10 ^ scale: as many behind the point as the scale says, and
-- before it no leading zero but a 0 that stands alone.
pub record IsDecimal (n scale : ℕ) (whole part : Text) : Type 0 where
  pub whole_digits : All IsDigit whole
  pub part_digits : All IsDigit part
  pub part_length : length part ≡ scale
  pub begins : (whole ≡ codes "0") ⊎ IsLeading whole
  pub stands_for : number_of whole * pow10 scale + number_of part ≡ n

begins-take :
    (k : ℕ) (s : Text) → 0 < k → k < length s → (s ≡ codes "0") ⊎ IsLeading s → IsLeading (take k s)
begins-take zero s p h b = elim p [ ]
begins-take (suc k) [] p h b = elim h [ ]
begins-take (suc k) (c ∷ s) p h (inl e) = absurd (omega (arith, h, ap length e))
begins-take (suc k) (c ∷ s) p h (inr l) = l

number_of-cut :
    (s t : Text) (scale : ℕ)
    → length t ≡ scale
    → number_of s * pow10 scale + number_of t ≡ number_of (s ++ t)
number_of-cut s t scale e =
    subst (λ k. number_of s * pow10 k + number_of t ≡ number_of (s ++ t)) e
      (sym (number_from-append 0 s t ∙ number_from-eq (number_of s) t))

module _ (n scale : ℕ) where
  -- The digits before the point, and those behind it.
  abbrev split : ℕ
  split = length (to_string n) - scale

  cut-IsDecimal :
      0 < scale
      → scale < length (to_string n)
      → IsDecimal n scale (take split (to_string n)) (drop split (to_string n))
  cut-IsDecimal p h = record {
    whole_digits = take-All IsDigit split (to_string n) (to_string-IsDigit n);
    part_digits = drop-All IsDigit split (to_string n) (to_string-IsDigit n);
    part_length = behind;
    begins = inr (begins-take split (to_string n) (omega arith) (omega arith) (to_string-begins n));
    stands_for =
        number_of-cut (take split (to_string n)) (drop split (to_string n)) scale behind
        ∙ ap number_of (take-append-drop split (to_string n))
        ∙ number_of-to_string n;
  }
    where
      behind : length (drop split (to_string n)) ≡ scale
      behind = omega (arith, length-drop split (to_string n))

  -- The digits behind "0.", filled up with zeros.
  abbrev filled : Text
  filled = replicate (scale - length (to_string n)) b'0' ++ to_string n

  filled-IsDecimal : length (to_string n) ≤ scale → IsDecimal n scale (codes "0") filled
  filled-IsDecimal h = record {
    whole_digits = ((omega arith, omega arith), tt);
    part_digits =
        append-All IsDigit _ _ (replicate-All IsDigit _ b'0' (omega arith, omega arith))
          (to_string-IsDigit n);
    part_length = omega (
      arith,
      length-append (replicate (scale - length (to_string n)) b'0') (to_string n),
      length-replicate {A = ℕ} (scale - length (to_string n)) b'0',
    );
    begins = inl refl;
    stands_for = omega (
      arith,
      number_of-replicate (scale - length (to_string n)) (to_string n),
      number_of-to_string n,
    );
  }

  whole-IsDecimal : scale ≡ 0 → IsDecimal n scale (to_string n) []
  whole-IsDecimal e = record {
    whole_digits = to_string-IsDigit n;
    part_digits = tt;
    part_length = sym e;
    begins = to_string-begins n;
    stands_for = rw e (omega (arith, number_of-to_string n));
  }

behind_point :
    {n scale : ℕ} {whole part : Text} → IsDecimal n scale whole part → 0 < scale → 0 < length part
behind_point d h = omega (arith, d.part_length, h)

sign-eq : (number : ℤ) → (if ltb_ℤ number (pos 0) then codes "-" else []) ≡ sign_of number
sign-eq (pos n) = ground arith
sign-eq (negsuc n) = ground arith

fraction-cons : (part : Text) → 0 < length part → b'.' ∷ part ≡ fraction part
fraction-cons [] h = elim h [ ]
fraction-cons (c ∷ s) h = refl

-- A decimal is written as its sign, its whole digits, and behind a point its fraction: the digits
-- stand for the number, there are as many behind the point as the scale says, and no point when it
-- is 0.
pub format_decimal-IsDecimal :
    (number : ℤ) (scale : ℕ)
    → (whole : Text) × (part : Text) × IsDecimal (unsigned_abs number) scale whole part
      × (format_decimal number scale ≡ sign_of number ++ (whole ++ fraction part))
unfolding format_decimal
format_decimal-IsDecimal number scale = elim (Bool-cases (scale == 0)) [
  | inl none_behind ↦ (
    to_string n,
    [],
    whole-IsDecimal n scale (ground arith),
    rw (none_behind, sign-eq number) (ap (◌++◌ (sign_of number)) (sym (append-nil (to_string n)))),
  )
  | inr some_behind ↦ elim (Bool-cases (ltb scale (length (to_string n)))) [
    | inl less ↦ (
      take (split n scale) (to_string n),
      drop (split n scale) (to_string n),
      cut-IsDecimal n scale (ground arith) (ground arith),
      rw (some_behind, less, sign-eq number)
          (ap (λ t. sign_of number ++ (take (split n scale) (to_string n) ++ t))
            (fraction-cons (drop (split n scale) (to_string n))
              (behind_point (cut-IsDecimal n scale (ground arith) (ground arith)) (ground arith)))),
    )
    | inr more ↦ (
      codes "0",
      filled n scale,
      filled-IsDecimal n scale (ground arith),
      rw (some_behind, more, sign-eq number)
          (ap (λ t. sign_of number ++ (b'0' ∷ t))
            (fraction-cons (filled n scale)
              (behind_point (filled-IsDecimal n scale (ground arith)) (ground arith)))),
    )
  ]
]
  where
    n : ℕ
    n = unsigned_abs number

-- The precision of a decimal column is the number of its digits.
pub precision_of-HasDigits :
    (number : ℤ) → (k : ℕ) × (precision_of number ≡ suc k) × HasDigits (unsigned_abs number) k
unfolding precision_of
precision_of-HasDigits number =
    let (k, e, d) = length-to_string (unsigned_abs number) in (k, omega (arith, e), d)

pow10_mono : (j k : ℕ) → j ≤ k → pow10 j ≤ pow10 k
pow10_mono zero zero h = omega arith
pow10_mono zero (suc k) h = omega (arith, pow10_mono zero k)
pow10_mono (suc j) zero h = elim h [ ]
pow10_mono (suc j) (suc k) h = omega (arith, pow10_mono j k)

unsigned_abs-le : (number : ℤ) → IsI64 number → unsigned_abs number ≤ 2 ^ 63
unsigned_abs-le (pos n) (h, l) = omega arith
unsigned_abs-le (negsuc n) (h, l) = omega arith

-- A decimal of 64 bits has a precision of at most 19.
pub precision_of-le : (number : ℤ) → IsI64 number → precision_of number ≤ 19
precision_of-le number h =
    let (k, e, d) = precision_of-HasDigits number in few k _ (unsigned_abs-le number h) d.1 e
  where
    few :
        (k n : ℕ)
        → n ≤ 2 ^ 63
        → (((n ≡ 0) × (k ≡ 0)) ⊎ (pow10 k ≤ n))
        → precision_of number ≡ suc k
        → precision_of number ≤ 19
    few k n l (inl (_, z)) e = omega (arith, e, z)
    few k n l (inr m) e = elim (Bool-cases (leb 19 k)) [
      | inl many ↦
          let far : pow10 19 ≤ pow10 k = pow10_mono 19 k (ground arith) in
          absurd (omega (arith, l, m))
      | inr less ↦ let small : k < 19 = ground arith in omega (arith, e)
    ]
