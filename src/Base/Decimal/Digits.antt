-- ===== src/Base/Decimal/Digits.antt =====
-- What decimal digits say, and the digits of `to_string`.
use Prim.Native.Nat.{ℕ, zero, suc, ◌+◌, ◌-◌, ◌*◌, ◌/◌, ◌%◌, ◌≤◌, ◌<◌}
use mathlib.Core.Path.{◌≡◌, refl, ◌∙◌, ap}
use mathlib.Core.Logic.{◌≢◌, ◌⊎◌, inl, inr}
use mathlib.Core.Bool.{false}
use mathlib.Core.List.{[], ◌∷◌, ◌++◌}
use mathlib.Core.Option.{some}
use native.Mathlib.Omega.{arith}
use fing.Base.Tests.{ltb, ◌==◌, Bool-cases}
use fing.Base.Lists.{length, All, replicate}
use fing.Base.Text.{Text, is_ascii_digit}
use fing.Base.Decimal.{digits_from, to_string, parse_digits, parse_usize, usize_max}

-- 10 ^ k
abbrev pub pow10 : ℕ → ℕ
pow10 zero = 1
pow10 (suc k) = 10 * pow10 k

-- The number that digits stand for, behind the number `acc`.
abbrev pub number_from : ℕ → Text → ℕ
number_from acc [] = acc
number_from acc (c ∷ s) = number_from (acc * 10 + (c - b'0')) s

abbrev pub number_of : Text → ℕ
number_of s = number_from 0 s

abbrev pub IsDigit : ℕ → Type 0
IsDigit c = (b'0' ≤ c) × (c ≤ b'9')

number_from-digits_from :
    (fuel n : ℕ) (acc : Text) → n < fuel → number_of (digits_from fuel n acc) ≡ number_from n acc
unfolding digits_from
number_from-digits_from zero n acc h = elim h [ ]
number_from-digits_from (suc fuel) n acc h = elim (Bool-cases (ltb n 10)) [
  | inl small ↦ rw small (ap (λ k. number_from k acc) (omega arith))
  | inr large ↦ rw large (
      number_from-digits_from fuel (n / 10) ((b'0' + n % 10) ∷ acc) (ground arith)
      ∙ ap (λ k. number_from k acc) (omega arith))
]

pub number_of-to_string : (n : ℕ) → number_of (to_string n) ≡ n
unfolding to_string
number_of-to_string n = number_from-digits_from (suc n) n [] (omega arith)

digits_from-IsDigit :
    (fuel n : ℕ) (acc : Text) → All IsDigit acc → n < fuel → All IsDigit (digits_from fuel n acc)
unfolding digits_from
digits_from-IsDigit zero n acc a h = elim h [ ]
digits_from-IsDigit (suc fuel) n acc a h = elim (Bool-cases (ltb n 10)) [
  | inl small ↦ rw small ((ground arith, ground arith), a)
  | inr large ↦ rw large (
      digits_from-IsDigit fuel (n / 10) ((b'0' + n % 10) ∷ acc) ((omega arith, omega arith), a)
        (ground arith))
]

pub to_string-IsDigit : (n : ℕ) → All IsDigit (to_string n)
unfolding to_string
to_string-IsDigit n = digits_from-IsDigit (suc n) n [] tt (omega arith)

-- The number has `suc k` digits, the first of them not 0 unless the number is 0.
abbrev pub HasDigits : ℕ → ℕ → Type 0
HasDigits n k = (n < pow10 (suc k)) × (((n ≡ 0) × (k ≡ 0)) ⊎ (pow10 k ≤ n))

HasDigits-zero : (n : ℕ) → n < 10 → HasDigits n 0
HasDigits-zero zero h = (h, inl (refl, refl))
HasDigits-zero (suc n) h = (h, inr (omega arith))

HasDigits-suc : (n k : ℕ) → 10 ≤ n → HasDigits (n / 10) k → HasDigits n (suc k)
HasDigits-suc n k h (l, inl (z, _)) = absurd (omega (arith, h, z))
HasDigits-suc n k h (l, inr m) = (omega arith, inr (omega arith))

length-digits_from :
    (fuel n : ℕ) (acc : Text)
    → n < fuel
    → (k : ℕ) × (length (digits_from fuel n acc) ≡ suc k + length acc) × HasDigits n k
unfolding digits_from
length-digits_from zero n acc h = elim h [ ]
length-digits_from (suc fuel) n acc h = elim (Bool-cases (ltb n 10)) [
  | inl small ↦ rw small (0, omega arith, HasDigits-zero n (ground arith))
  | inr large ↦
      let (k, e, d) = length-digits_from fuel (n / 10) ((b'0' + n % 10) ∷ acc) (ground arith) in
      rw large (suc k, omega (arith, e), HasDigits-suc n k (ground arith) d)
]

pub length-to_string : (n : ℕ) → (k : ℕ) × (length (to_string n) ≡ suc k) × HasDigits n k
unfolding to_string
length-to_string n =
    let (k, e, d) = length-digits_from (suc n) n [] (omega arith) in (k, omega (arith, e), d)

pub parse_digits-number_from :
    (acc : ℕ) (s : Text) → All IsDigit s → parse_digits acc s ≡ some (number_from acc s)
unfolding parse_digits is_ascii_digit
parse_digits-number_from acc [] h = refl
parse_digits-number_from acc (c ∷ s) h =
    ground (arith, parse_digits-number_from (acc * 10 + (c - b'0')) s)

-- Digits that a `usize` holds are read as their number.
pub parse_usize-number_of :
    (c : ℕ) (s : Text)
    → All IsDigit (c ∷ s)
    → number_of (c ∷ s) ≤ usize_max
    → parse_usize (c ∷ s) ≡ some (number_of (c ∷ s))
unfolding parse_usize
parse_usize-number_of c s h l =
    let not_plus : (c == b'+') ≡ false = ground arith in
    let fits : ltb usize_max (number_of (c ∷ s)) ≡ false = ground arith in
    rw (not_plus, parse_digits-number_from 0 (c ∷ s) h, fits) refl

-- Digits without a leading zero.
abbrev pub IsLeading : Text → Type 0
IsLeading [] = ⊥
IsLeading (c ∷ s) = c ≢ b'0'

digits_from-IsLeading :
    (fuel n : ℕ) (acc : Text) → n < fuel → 0 < n → IsLeading (digits_from fuel n acc)
unfolding digits_from
digits_from-IsLeading zero n acc h p = elim h [ ]
digits_from-IsLeading (suc fuel) n acc h p = elim (Bool-cases (ltb n 10)) [
  | inl small ↦ rw small (λ e. omega (arith, e, p))
  | inr large ↦
      rw large
        (digits_from-IsLeading fuel (n / 10) ((b'0' + n % 10) ∷ acc) (ground arith) (ground arith))
]

pub to_string-IsLeading : (n : ℕ) → 0 < n → IsLeading (to_string n)
unfolding to_string
to_string-IsLeading n h = digits_from-IsLeading (suc n) n [] (omega arith) h

pub number_from-append :
    (acc : ℕ) (s t : Text) → number_from acc (s ++ t) ≡ number_from (number_from acc s) t
number_from-append acc [] t = refl
number_from-append acc (c ∷ s) t = number_from-append (acc * 10 + (c - b'0')) s t

shifted :
    (acc d p n x y : ℕ) → x ≡ (acc * 10 + d) * p + n → y ≡ (0 + d) * p + n → x ≡ acc * (10 * p) + y
shifted acc d p n x y e f = grind arith

below : (d p n : ℕ) → d ≤ 9 → n < p → (0 + d) * p + n < 10 * p
below d p n h l = grind arith

pub number_from-eq : (acc : ℕ) (s : Text) → number_from acc s ≡ acc * pow10 (length s) + number_of s
number_from-eq acc [] = omega arith
number_from-eq acc (c ∷ s) =
    shifted acc (c - b'0') _ _ _ _ (number_from-eq (acc * 10 + (c - b'0')) s)
      (number_from-eq (0 + (c - b'0')) s)

pub number_of-replicate : (k : ℕ) (s : Text) → number_of (replicate k b'0' ++ s) ≡ number_of s
number_of-replicate zero s = refl
number_of-replicate (suc k) s = number_of-replicate k s

pub number_of-lt : (s : Text) → All IsDigit s → number_of s < pow10 (length s)
number_of-lt [] h = omega arith
number_of-lt (c ∷ s) (h, hs) =
    rw (number_from-eq (0 + (c - b'0')) s) (below (c - b'0') _ _ (omega arith) (number_of-lt s hs))

pub to_string-begins : (n : ℕ) → (to_string n ≡ b'0' ∷ []) ⊎ IsLeading (to_string n)
unfolding to_string digits_from
to_string-begins zero = inl refl
to_string-begins (suc n) = inr (to_string-IsLeading (suc n) (omega arith))

pub to_string-ne-nil : (n : ℕ) → to_string n ≢ []
to_string-ne-nil n e = let (k, l, _) = length-to_string n in omega (arith, l, ap length e)
