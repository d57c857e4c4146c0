-- ===== src/Stats/Signed.antt =====
-- `statistics.median` of integers, twofold, and that it forgets the order in which they came.
use whimbrel.Prelude.{ℕ, ◌-◌, ◌/◌, ◌%◌}
use whimbrel.Prelude.{◌≡◌, ap}
use whimbrel.Prelude.{Bool, true, false, not, Option, none, some, arith}
use whimbrel.Prelude.{List, [], ◌∷◌}
use whimbrel.Prelude.{◌==◌, if◌then◌else◌}
use whimbrel.Prelude.{length, get_or}
use whimbrel.Prelude.Int.{ℤ, pos, ltb_ℤ, ◌+ℤ◌, eq_of_parts}
use whimbrel.Prelude.Sort.{sort}
use whimbrel.Prelude.Perms.{sort-perm_eq}
use mathlib.Core.List.{Perm}

abbrev pub leb_ℤ : ℤ → ℤ → Bool
leb_ℤ a b = not (ltb_ℤ b a)

abbrev get_ℤ : List ℤ → ℕ → ℤ
get_ℤ s i = get_or s i (pos 0)

unfoldable pub median_sorted_ℤ : List ℤ → Option ℤ
median_sorted_ℤ [] = none
median_sorted_ℤ (x ∷ xs) =
    let s = x ∷ xs in
    let n = length s in
    if n % 2 == 1
    then some (get_ℤ s (n / 2) +ℤ get_ℤ s (n / 2))
    else some (get_ℤ s (n / 2 - 1) +ℤ get_ℤ s (n / 2))

unfoldable pub median_ℤ : List ℤ → Option ℤ
unfolding sort
median_ℤ vals = median_sorted_ℤ (sort leb_ℤ vals)

leb_ℤ_total : (x y : ℤ) → leb_ℤ x y ≡ false → leb_ℤ y x ≡ true
leb_ℤ_total x y h = ground arith

leb_ℤ_trans : (x y z : ℤ) → leb_ℤ x y ≡ true → leb_ℤ y z ≡ true → leb_ℤ x z ≡ true
leb_ℤ_trans x y z h k = ground arith

leb_ℤ_antisym : (x y : ℤ) → leb_ℤ x y ≡ true → leb_ℤ y x ≡ true → x ≡ y
leb_ℤ_antisym x y h k = eq_of_parts x y (ground arith)

ints : IsSet (List ℤ)
ints = hlevel

-- The median of the same values in another order is the same.
pub median_ℤ-perm : {xs ys : List ℤ} → Perm xs ys → median_ℤ xs ≡ median_ℤ ys
unfolding median_ℤ
median_ℤ-perm h =
    ap median_sorted_ℤ (sort-perm_eq leb_ℤ leb_ℤ_total leb_ℤ_trans leb_ℤ_antisym ints h)
