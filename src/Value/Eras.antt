-- ===== src/Value/Eras.antt =====
-- The year of an era from its day, as `civil_from_days` of src/value.rs computes it.
use fing.Base.{
  ℕ, zero, suc, ◌+◌, ◌-◌, ◌*◌, ◌/◌, ◌≤◌, ◌<◌, Bool, true, false, ◌&&◌, ◌≡◌, refl, subst, inl, inr,
  Bool-cases, arith, ltb, leb, ◌==◌, if◌then◌else◌,
}
use fing.Value.Calendar.{is_leap}

-- The days of an era but its leap days.
abbrev pub common_days : ℕ → ℕ
common_days doe = doe - doe / 1460 + doe / 36524 - doe / 146096

abbrev pub year_of_era : ℕ → ℕ
year_of_era doe = common_days doe / 365

-- The day of an era on which a year begins, and the leap day that ends it.
abbrev pub start : ℕ → ℕ
start y = 365 * y + y / 4 - y / 100

abbrev pub leap_day : ℕ → ℕ
leap_day y = if is_leap (y + 1) then 1 else 0

abbrev last : ℕ → ℕ
last y = start y + 364 + leap_day y

abbrev pub all_below : ℕ → (ℕ → Bool) → Bool
all_below zero p = true
all_below (suc n) p = p n && all_below n p

and_left : (a b : Bool) → (a && b) ≡ true → a ≡ true
and_left a b h = ground arith

and_right : (a b : Bool) → (a && b) ≡ true → b ≡ true
and_right a b h = ground arith

below : (k n : ℕ) → k < suc n → (k == n) ≡ false → k < n
below k n l other = ground arith

pub all_below-at : (n : ℕ) (p : ℕ → Bool) (k : ℕ) → all_below n p ≡ true → k < n → p k ≡ true
all_below-at zero p k h l = elim l [ ]
all_below-at (suc n) p k h l = elim (Bool-cases (k == n)) [
  | inl same ↦ let e : n ≡ k = ground arith in subst (λ j. p j ≡ true) e (and_left (p n) _ h)
  | inr other ↦ all_below-at n p k (and_right (p n) _ h) (below k n l other)
]

common_days_mono : (a b : ℕ) → a ≤ b → common_days a ≤ common_days b
common_days_mono a b h = omega arith

year_ok : ℕ → Bool
year_ok y = leb (365 * y) (common_days (start y)) && ltb (common_days (last y)) (365 * (y + 1))

years_ok : all_below 400 year_ok ≡ true
unfolding year_ok
years_ok = refl

last-start : (y : ℕ) → y < 399 → last y + 1 ≡ start (y + 1)
last-start y h = ground arith

-- The bounds that a year's days have.
year_bounds :
    (y : ℕ) → y < 400 → (365 * y ≤ common_days (start y)) × (common_days (last y) < 365 * (y + 1))
unfolding year_ok
year_bounds y h = let e : year_ok y ≡ true = all_below-at 400 year_ok y years_ok h in ground arith

of_ltb : (a b : ℕ) → ltb a b ≡ true → a < b
of_ltb a b h = ground arith

succ_le : {a b : ℕ} → a < b → a + 1 ≤ b
succ_le h = omega arith

later : {a b c : ℕ} → a < b → b ≤ c → a < c
later h l = omega arith

at_most : {a b c : ℕ} → b + 1 ≡ c → a < c → a ≤ b
at_most e l = omega arith

next_start : (y doe : ℕ) → last y + 1 ≡ start (y + 1) → last y < doe → start (y + 1) ≤ doe
next_start y doe e l = subst (λ s. s ≤ doe) e (succ_le l)

order : (a b c d : ℕ) → (d < c → a ≤ b) → b < a → c ≤ d
order a b c d f h = elim (Bool-cases (ltb d c)) [
  | inl less ↦ let l : a ≤ b = f (of_ltb d c less) in omega arith
  | inr more ↦ ground arith
]

not_before_next : (x doe : ℕ) → x < 399 → 365 * (x + 1) ≤ common_days doe → start (x + 1) ≤ doe
not_before_next x doe h l =
    order (common_days doe) (common_days (last x)) (start (x + 1)) doe
      (λ less. common_days_mono doe (last x) (at_most (last-start x h) less))
      (later (year_bounds x (omega arith)).1 l)

not_before : (y doe : ℕ) → y < 400 → 365 * y ≤ common_days doe → start y ≤ doe
not_before zero doe h l = omega arith
not_before (suc x) doe h l =
    let e : x + 1 ≡ suc x = omega arith in
    subst (λ y. 365 * y ≤ common_days doe → start y ≤ doe) e (not_before_next x doe (omega arith)) l

not_after : (y doe : ℕ) → y < 400 → doe < 146097 → common_days doe < 365 * (y + 1) → doe ≤ last y
not_after y doe h b l = elim (Bool-cases (ltb y 399)) [
  | inl less ↦
      let first : last y + 1 ≡ start (y + 1) = last-start y (of_ltb y 399 less) in
      order (common_days (start (y + 1))) (common_days doe) doe (last y)
        (λ less. common_days_mono (start (y + 1)) doe (next_start y doe first less))
        (later l (year_bounds (y + 1) (ground arith)).0)
  | inr end ↦ let e : 399 ≡ y = ground arith in subst (λ y. doe ≤ last y) e (omega arith)
]

-- A day of an era lies between the first day of its year and the last.
pub year_of_era-bounds :
    (doe : ℕ)
    → doe < 146097
    → (year_of_era doe < 400)
      × (start (year_of_era doe) ≤ doe)
      × (doe ≤ start (year_of_era doe) + 364 + leap_day (year_of_era doe))
year_of_era-bounds doe h = (lt, from_start, to_last)
  where
    lt : year_of_era doe < 400
    lt = omega arith

    from_start : start (year_of_era doe) ≤ doe
    from_start = not_before (year_of_era doe) doe lt (omega arith)

    to_last : doe ≤ last (year_of_era doe)
    to_last = not_after (year_of_era doe) doe lt h (omega arith)
