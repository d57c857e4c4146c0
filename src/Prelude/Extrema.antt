-- ===== src/Prelude/Extrema.antt =====
-- `min` and `max` of a list of numbers that is not empty.
use Prim.Native.Nat.{ℕ, ◌≤◌, min, max}
use mathlib.Core.Path.{subst}
use mathlib.Core.Logic.{inl, inr}
use mathlib.Core.List.{List, [], ◌∷◌}
use native.Mathlib.Omega.{arith}
use whimbrel.Prelude.Tests.{leb, Bool-cases}
use whimbrel.Prelude.Lists.{All}

unfoldable pub lowest : ℕ → List ℕ → ℕ
lowest m [] = m
lowest m (n ∷ ms) = lowest (min m n) ms

unfoldable pub highest : ℕ → List ℕ → ℕ
highest m [] = m
highest m (n ∷ ms) = highest (max m n) ms

pub lowest-le : (m : ℕ) (ms : List ℕ) → (lowest m ms ≤ m) × All (λ n. lowest m ms ≤ n) ms
unfolding lowest
lowest-le m [] = (omega arith, tt)
lowest-le m (n ∷ ms) =
    let (here, later) = lowest-le (min m n) ms in
    (omega (arith, here), (omega (arith, here), later))

pub highest-ge : (m : ℕ) (ms : List ℕ) → (m ≤ highest m ms) × All (λ n. n ≤ highest m ms) ms
unfolding highest
highest-ge m [] = (omega arith, tt)
highest-ge m (n ∷ ms) =
    let (here, later) = highest-ge (max m n) ms in
    (omega (arith, here), (omega (arith, here), later))

-- A property of `m` and of all others is one of the lowest and the highest.
pub lowest-All : (P : ℕ → Type 0) (m : ℕ) (ms : List ℕ) → P m → All P ms → P (lowest m ms)
unfolding lowest
lowest-All P m [] p h = p
lowest-All P m (n ∷ ms) p (q, h) =
    lowest-All P (min m n) ms
      (elim (Bool-cases (leb m n)) [
        | inl e ↦ subst P (ground arith) p
        | inr e ↦ subst P (ground arith) q
      ])
      h

pub highest-All : (P : ℕ → Type 0) (m : ℕ) (ms : List ℕ) → P m → All P ms → P (highest m ms)
unfolding highest
highest-All P m [] p h = p
highest-All P m (n ∷ ms) p (q, h) =
    highest-All P (max m n) ms
      (elim (Bool-cases (leb m n)) [
        | inl e ↦ subst P (ground arith) q
        | inr e ↦ subst P (ground arith) p
      ])
      h
