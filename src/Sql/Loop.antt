-- ===== src/Sql/Loop.antt =====
-- The loop of `scan` does not depend on the proof by which it ends, and goes on round by round.
use mathlib.Core.WellFounded.{Acc}
use fing.Base.{ℕ, List, [], ◌∷◌, ◌≡◌, refl}
use fing.Base.Text.{Text, Bytes, as_bytes}
use fing.Error.{Result, ok, err, ◌>>=◌}
use fing.Sql.Lexer.{Shorter, arm_at, arm_at-lt}
use fing.Sql.{Seen, apply, scan_loop, scan_from, shorter_acc, unseen, scan}

module _ {C : Type 0} where
  bind-eq :
      (r : Result C Seen) (f g : Seen → Result C (List Text))
      → ((s : Seen) → f s ≡ g s)
      → (r >>= f) ≡ (r >>= g)
  bind-eq (ok s) f g h = h s
  bind-eq (err e) f g h = refl

  scan_loop-acc :
      (bytes : Bytes) (v w : Acc Shorter bytes) (s : Seen)
      → scan_loop {C = C} bytes v s ≡ scan_loop bytes w s
  unfolding scan_loop
  scan_loop-acc [] v w s = refl
  scan_loop-acc (b ∷ bs) (Acc.intro _ f) (Acc.intro _ g) s =
      bind-eq (apply (arm_at b bs).lexeme s) _ _ (λ s'.
        scan_loop-acc (arm_at b bs).rest (f (arm_at b bs).rest (arm_at-lt b bs))
          (g (arm_at b bs).rest (arm_at-lt b bs)) s')

  pub scan_from-nil : (s : Seen) → scan_from {C = C} [] s ≡ ok s.words
  unfolding scan_loop
  scan_from-nil s = refl

  scan_loop-cons :
      (b : ℕ) (bs : Bytes) (w : Acc Shorter (b ∷ bs)) (s : Seen)
      → scan_loop {C = C} (b ∷ bs) w s
        ≡ (apply (arm_at b bs).lexeme s >>= scan_from (arm_at b bs).rest)
  unfolding scan_loop
  scan_loop-cons b bs (Acc.intro _ f) s =
      bind-eq (apply (arm_at b bs).lexeme s) _ _
        (λ s'. scan_loop-acc (arm_at b bs).rest _ (shorter_acc (arm_at b bs).rest) s')

  -- One round.
  pub scan_from-cons :
      (b : ℕ) (bs : Bytes) (s : Seen)
      → scan_from {C = C} (b ∷ bs) s
        ≡ (apply (arm_at b bs).lexeme s >>= scan_from (arm_at b bs).rest)
  scan_from-cons b bs s = scan_loop-cons b bs (shorter_acc (b ∷ bs)) s

  pub scan_lem : (sql : Text) → scan {C = C} sql ≡ scan_from (as_bytes sql) unseen
  unfolding scan
  scan_lem sql = refl
