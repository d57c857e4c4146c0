-- ===== src/Prelude/Decimal.antt =====
-- A number that is printed in decimal is read back.
use Prim.Native.Nat.{ℕ, zero, suc, ◌+◌, ◌-◌, ◌*◌, ◌/◌, ◌%◌, ◌<◌}
use mathlib.Core.Path.{◌≡◌, refl, sym, ap, ◌∙◌, subst}
use mathlib.Core.Logic.{◌≢◌, inl, inr}
use mathlib.Core.Bool.{true, false}
use mathlib.Core.Option.{some}
use mathlib.Core.List.{[], ◌∷◌, ◌++◌}
use native.Mathlib.Omega.{arith}
use whimbrel.Prelude.Tests.{ltb, lt→ltb, Bool-cases}
use whimbrel.Prelude.Lists.{All, List-cases}
use whimbrel.Prelude.Text.{
  Text, run, is_digit, decimal_from, decimal, digit_char, base_text, decimal_text, is_line_end,
}
use whimbrel.Prelude.TextLaws.{run-append, IsLine}

last_digit : (n : ℕ) → digit_char (n % 10) ≡ 48 + n % 10
last_digit n = let small : n % 10 < 10 = omega arith in rw (lt→ltb (n % 10) 10 small) refl

decimal-base_text :
    (fuel n : ℕ) (done : Text)
    → n < fuel
    → decimal_from 0 (base_text 10 fuel n done) ≡ decimal_from n done
unfolding base_text decimal_from
decimal-base_text zero n done h = elim h [ ]
decimal-base_text (suc fuel) n done h = elim (Bool-cases (ltb n 10)) [
  | inl small ↦
      let value : 0 + (48 + n % 10 - 48) ≡ n = ground arith in
      rw small (rw (last_digit n) (ap (λ v. decimal_from v done) value))
  | inr large ↦
      let value : n / 10 * 10 + (48 + n % 10 - 48) ≡ n = omega arith in
      let below : n / 10 < fuel = ground arith in
      rw large (
        decimal-base_text fuel (n / 10) (digit_char (n % 10) ∷ done) below
        ∙ rw (last_digit n) (ap (λ v. decimal_from v done) value))
]

-- What is printed is read back.
pub decimal-decimal_text : (n : ℕ) → decimal (decimal_text n) ≡ n
unfolding decimal decimal_text decimal_from
decimal-decimal_text n = decimal-base_text (suc n) n [] (omega arith)

-- The digits are of a class that has all digits.
base_text-All :
    (P : ℕ → Type 0)
    → ((d : ℕ) → d < 10 → P (48 + d))
    → (fuel n : ℕ) (done : Text) → All P done
    → All P (base_text 10 fuel n done)
unfolding base_text
base_text-All P digit zero n done h = h
base_text-All P digit (suc fuel) n done h =
    let here : P (digit_char (n % 10)) =
      subst P (sym (last_digit n)) (digit (n % 10) (omega arith)) in
    elim (Bool-cases (ltb n 10)) [
      | inl small ↦ rw small (here, h)
      | inr large ↦
          rw large (base_text-All P digit fuel (n / 10) (digit_char (n % 10) ∷ done) (here, h))
    ]

pub decimal_text-All :
    (P : ℕ → Type 0) → ((d : ℕ) → d < 10 → P (48 + d)) → (n : ℕ) → All P (decimal_text n)
unfolding decimal_text
decimal_text-All P digit n = base_text-All P digit (suc n) n [] tt

base_text-some : (fuel n c : ℕ) (done : Text) → base_text 10 fuel n (c ∷ done) ≢ []
unfolding base_text
base_text-some zero n c done h = cc
base_text-some (suc fuel) n c done h = elim (Bool-cases (ltb n 10)) [
  | inl small ↦ let bad : digit_char (n % 10) ∷ c ∷ done ≡ [] = rw small at h in absurd cc
  | inr large ↦ base_text-some fuel (n / 10) (digit_char (n % 10)) (c ∷ done) (rw large at h)
]

decimal_text-some : (n : ℕ) → decimal_text n ≢ []
unfolding decimal_text base_text
decimal_text-some n h = elim (Bool-cases (ltb n 10)) [
  | inl small ↦ let bad : digit_char (n % 10) ∷ [] ≡ [] = rw small at h in absurd cc
  | inr large ↦ base_text-some n (n / 10) (digit_char (n % 10)) [] (rw large at h)
]

digit_is : (d : ℕ) → d < 10 → is_digit (48 + d) ≡ true
unfolding is_digit
digit_is d h = ground arith

-- The first digit and the others.
pub decimal_text_cons :
    (n : ℕ) → (x : ℕ) × (xs : Text) × (decimal_text n ≡ x ∷ xs) × (is_digit x ≡ true)
decimal_text_cons n = elim (List-cases (decimal_text n)) [
  | inl empty ↦ absurd (decimal_text-some n empty)
  | inr (x, xs, is) ↦
      let digits : All (λ d. is_digit d ≡ true) (x ∷ xs) =
        subst (All (λ d. is_digit d ≡ true)) is
          (decimal_text-All (λ d. is_digit d ≡ true) digit_is n) in
      (x, xs, is, digits.0)
]

-- A number that is printed in front of a character that is no digit is the run of digits there.
pub run-decimal_text :
    (n c : ℕ) (s : Text)
    → is_digit c ≡ false
    → run is_digit (decimal_text n ++ c ∷ s) ≡ some (decimal_text n, c ∷ s)
run-decimal_text n c s e = elim (List-cases (decimal_text n)) [
  | inl empty ↦ absurd (decimal_text-some n empty)
  | inr (x, xs, is) ↦
      let digits : All (λ d. is_digit d ≡ true) (x ∷ xs) =
        subst (All (λ d. is_digit d ≡ true)) is
          (decimal_text-All (λ d. is_digit d ≡ true) digit_is n) in
      rw is (run-append is_digit x xs c s digits e)
]

digit-no_line_end : (d : ℕ) → d < 10 → is_line_end (48 + d) ≡ false
unfolding is_line_end
digit-no_line_end d h = ground arith

pub decimal_text-IsLine : (n : ℕ) → IsLine (decimal_text n)
decimal_text-IsLine n = decimal_text-All (λ c. is_line_end c ≡ false) digit-no_line_end n
