-- ===== src/Stats/PercentileLaws.antt =====
-- The percentiles of a sorted list: they grow with the rank, stay within the list, and agree.
use whimbrel.Prelude.{ℕ, zero, suc, ◌+◌, ◌-◌, ◌*◌, ◌/◌, ◌%◌, ◌≤◌, ◌<◌, min}
use whimbrel.Prelude.{◌≡◌, refl, sym, ap, ◌∙◌, inl, inr}
use whimbrel.Prelude.{true, some, arith}
use whimbrel.Prelude.{List, [], ◌∷◌}
use whimbrel.Prelude.{leb, leb→le, ◌==◌, if◌then◌else◌, Bool-cases, ==_iff}
use whimbrel.Prelude.{length, get_or, All}
use whimbrel.Prelude.Sort.{sort, IsSorted, sort-IsSorted, length-sort}
use native.Mathlib.Nat.{le_trans}
use mathlib.Core.Option
use whimbrel.Stats.Percentile.{
  median_sorted, percentile_at, percentile, pass_percentile_at, pass_percentile, quartile_range,
  iqr,
}

-- Values do not fall along the list.
abbrev pub Ascends : List ℕ → Type 0
Ascends s = (i j : ℕ) → i ≤ j → j < length s → get_or s i 0 ≤ get_or s j 0

-- The interpolation at position `k`, in quarters, of the values that `g` has at whole positions.
interpolate : (ℕ → ℕ) → ℕ → ℕ
interpolate g k = g (k / 4) * (4 - k % 4) + g (k / 4 + 1) * (k % 4)

whole : (g : ℕ → ℕ) (k : ℕ) → k % 4 ≡ 0 → 4 * g (k / 4) ≡ interpolate g k
unfolding interpolate
whole g k r = rw r (omega arith)

weighted :
    (g : ℕ → ℕ) (k c : ℕ)
    → c ≡ k / 4 + 1
    → g (k / 4) * (4 * c - k) + g c * (k - 4 * (k / 4)) ≡ interpolate g k
unfolding interpolate
weighted g k c e =
    let low : 4 * (k / 4 + 1) - k ≡ 4 - k % 4 = omega arith in
    let high : k - 4 * (k / 4) ≡ k % 4 = omega arith in rw (e, low, high)

by_ceiling :
    (g : ℕ → ℕ) (k : ℕ)
    → (if k / 4 == (k + 3) / 4
        then 4 * g (k / 4)
        else g (k / 4) * (4 * ((k + 3) / 4) - k) + g ((k + 3) / 4) * (k - 4 * (k / 4)))
      ≡ interpolate g k
by_ceiling g k = elim (Bool-cases (k / 4 == (k + 3) / 4)) [
  | inl e ↦ rw e (whole g k (omega (arith, (==_iff (k / 4) ((k + 3) / 4)).0 e)))
  | inr e ↦ rw e (weighted g k ((k + 3) / 4) (ground arith))
]

by_next :
    (g : ℕ → ℕ) (k last : ℕ)
    → k ≤ 4 * last
    → (if k / 4 == min (k / 4 + 1) last
        then 4 * g (k / 4)
        else g (k / 4) * (4 * min (k / 4 + 1) last - k)
          + g (min (k / 4 + 1) last) * (k - 4 * (k / 4)))
      ≡ interpolate g k
by_next g k last fits = elim (Bool-cases (k / 4 == min (k / 4 + 1) last)) [
  | inl e ↦ rw e (whole g k (omega (arith, (==_iff (k / 4) (min (k / 4 + 1) last)).0 e)))
  | inr e ↦ rw e (weighted g k (min (k / 4 + 1) last) (ground arith))
]

percentile_at-eq-interpolate :
    (s : List ℕ) (q : ℕ) → percentile_at s q ≡ interpolate (λ i. get_or s i 0) ((length s - 1) * q)
unfolding percentile_at
percentile_at-eq-interpolate s q = elim (Bool-cases (length s == 1)) [
  | inl e ↦
      let one : length s ≡ 1 = (==_iff (length s) 1).0 e in
      let zero_pos : (length s - 1) * q ≡ 0 = rw one (omega arith) in
      rw (e, zero_pos) (whole (λ i. get_or s i 0) 0 refl)
  | inr e ↦ rw e (by_ceiling (λ i. get_or s i 0) ((length s - 1) * q))
]

pass_percentile_at-eq-interpolate :
    (s : List ℕ) (q : ℕ)
    → q ≤ 4
    → pass_percentile_at s q ≡ interpolate (λ i. get_or s i 0) ((length s - 1) * q)
unfolding pass_percentile_at
pass_percentile_at-eq-interpolate s q b =
    by_next (λ i. get_or s i 0) ((length s - 1) * q) (length s - 1) (grind arith)

-- Both scripts compute the same percentile of every list, at every quarter.
pub pass_percentile-eq-percentile :
    (s : List ℕ) (q : ℕ) → q ≤ 4 → pass_percentile s q ≡ percentile s q
unfolding pass_percentile percentile
pass_percentile-eq-percentile [] q b = refl
pass_percentile-eq-percentile (x ∷ xs) q b =
    ap some (
      pass_percentile_at-eq-interpolate (x ∷ xs) q b
      ∙ sym (percentile_at-eq-interpolate (x ∷ xs) q))

-- Weights that sum up to four.
spread : (a d r : ℕ) → r ≤ 4 → a * (4 - r) + (a + d) * r ≡ 4 * a + d * r
spread a d zero h = omega arith
spread a d (suc zero) h = omega arith
spread a d (suc (suc zero)) h = omega arith
spread a d (suc (suc (suc zero))) h = omega arith
spread a d (suc (suc (suc (suc zero)))) h = omega arith
spread a d (suc (suc (suc (suc (suc r))))) h = absurd (omega arith)

weigh_mono : (a b r r' : ℕ) → a ≤ b → r ≤ r' → r' ≤ 4 → a * (4 - r) + b * r ≤ a * (4 - r') + b * r'
weigh_mono a b r r' h k m =
    let d : ℕ = b - a in
    let e : b ≡ a + d = omega arith in
    rw e (rw (spread a d r (le_trans k m), spread a d r' m) (grind arith))

module _ (g : ℕ → ℕ) (last : ℕ) (asc : (i j : ℕ) → i ≤ j → j ≤ last → g i ≤ g j) where
  -- The interpolation lies between the values at the two positions around it.
  interpolate-ge : (k : ℕ) → k ≤ 4 * last → 4 * g (k / 4) ≤ interpolate g k
  unfolding interpolate
  interpolate-ge k fits = elim (Bool-cases (k % 4 == 0)) [
    | inl e ↦ rw ((==_iff (k % 4) 0).0 e) (omega arith)
    | inr e ↦ omega (
      arith,
      weigh_mono (g (k / 4)) (g (k / 4 + 1)) 0 (k % 4)
          (asc (k / 4) (k / 4 + 1) (omega arith) (ground arith)) (omega arith) (omega arith),
    )
  ]

  interpolate-le : (k m : ℕ) → k ≤ 4 * m → m ≤ last → interpolate g k ≤ 4 * g m
  unfolding interpolate
  interpolate-le k m below fits = elim (Bool-cases (k % 4 == 0)) [
    | inl e ↦ rw ((==_iff (k % 4) 0).0 e) (omega (arith, asc (k / 4) m (omega arith) fits))
    | inr e ↦ omega (
      arith,
      weigh_mono (g (k / 4)) (g (k / 4 + 1)) (k % 4) 4
          (asc (k / 4) (k / 4 + 1) (omega arith) (ground arith)) (omega arith) (omega arith),
      asc (k / 4 + 1) m (ground arith) fits,
    )
  ]

  interpolate_mono : (k k' : ℕ) → k ≤ k' → k' ≤ 4 * last → interpolate g k ≤ interpolate g k'
  interpolate_mono k k' h fits = elim (Bool-cases (k / 4 == k' / 4)) [
    | inr e ↦
        omega
          (arith, interpolate-le k (k' / 4) (ground arith) (omega arith), interpolate-ge k' fits)
    | inl e ↦ elim (Bool-cases (k % 4 == k' % 4)) [
      | inl f ↦
          let same : k ≡ k' =
            omega (arith, (==_iff (k / 4) (k' / 4)).0 e, (==_iff (k % 4) (k' % 4)).0 f) in
          rw same (omega arith)
      | inr f ↦
          let floor : k / 4 ≡ k' / 4 = (==_iff (k / 4) (k' / 4)).0 e in
          unfold interpolate in
          rw floor (
            weigh_mono (g (k' / 4)) (g (k' / 4 + 1)) (k % 4) (k' % 4)
              (asc (k' / 4) (k' / 4 + 1) (omega arith) (ground arith)) (omega arith) (omega arith))
    ]
  ]

-- On a list that ascends the percentiles grow with their rank, and lie between its first and its
-- last value.
pub percentile_at_mono :
    (s : List ℕ) (q q' : ℕ)
    → Ascends s
    → 0 < length s
    → q ≤ q'
    → q' ≤ 4
    → (percentile_at s q ≤ percentile_at s q')
      × (4 * get_or s 0 0 ≤ percentile_at s q)
      × (percentile_at s q' ≤ 4 * get_or s (length s - 1) 0)
percentile_at_mono s q q' asc some_left h b =
    let n = length s - 1 in
    let g : ℕ → ℕ = λ i. get_or s i 0 in
    let up : (i j : ℕ) → i ≤ j → j ≤ n → g i ≤ g j = λ i j p r. asc i j p (omega arith) in
    rw (percentile_at-eq-interpolate s q, percentile_at-eq-interpolate s q')
      (
        interpolate_mono g n up (n * q) (n * q') (grind arith) (grind arith),
        le_trans (omega (arith, up 0 (n * q / 4) (omega arith) (grind arith)))
            (interpolate-ge g n up (n * q) (grind arith)),
        interpolate-le g n up (n * q') n (grind arith) (omega arith),
      )

All-get_or :
    (x : ℕ) (xs : List ℕ) (j : ℕ) → All (λ y. leb x y ≡ true) xs → j < length xs → x ≤ get_or xs j 0
All-get_or x [] j h lt = elim lt [ ]
All-get_or x (y ∷ xs) zero (p, h) lt = leb→le x y p
All-get_or x (y ∷ xs) (suc j) (p, h) lt = All-get_or x xs j h (omega arith)

IsSorted→Ascends : (s : List ℕ) → IsSorted leb s → Ascends s
IsSorted→Ascends [] h i j le lt = elim lt [ ]
IsSorted→Ascends (x ∷ xs) (below, h) zero zero le lt = omega arith
IsSorted→Ascends (x ∷ xs) (below, h) zero (suc j) le lt = All-get_or x xs j below (omega arith)
IsSorted→Ascends (x ∷ xs) (below, h) (suc i) zero le lt = absurd (omega arith)
IsSorted→Ascends (x ∷ xs) (below, h) (suc i) (suc j) le lt =
    IsSorted→Ascends xs h i j (omega arith) (omega arith)

pub sort-Ascends : (vals : List ℕ) → Ascends (sort leb vals)
sort-Ascends vals =
    IsSorted→Ascends (sort leb vals)
      (sort-IsSorted leb (λ x y h. ground arith) (λ x y z h k. ground arith) vals)

half_odd : (g : ℕ → ℕ) (m : ℕ) → m % 2 ≡ 1 → 2 * (2 * g (m / 2)) ≡ interpolate g ((m - 1) * 2)
unfolding interpolate
half_odd g m r =
    let f : (m - 1) * 2 / 4 ≡ m / 2 = omega arith in
    let w : (m - 1) * 2 % 4 ≡ 0 = omega arith in rw (f, w) (omega arith)

half_even :
    (g : ℕ → ℕ) (m : ℕ)
    → m % 2 ≡ 0
    → 0 < m
    → 2 * (g (m / 2 - 1) + g (m / 2)) ≡ interpolate g ((m - 1) * 2)
unfolding interpolate
half_even g m r some_left =
    let c : (m - 1) * 2 / 4 + 1 ≡ m / 2 = omega arith in
    let f : (m - 1) * 2 / 4 ≡ m / 2 - 1 = omega arith in
    let w : (m - 1) * 2 % 4 ≡ 2 = omega arith in rw (c, f, w) (omega arith)

-- The median is the percentile of rank one half, of every list.
pub median-eq-percentile : (s : List ℕ) → Option.map (λ m. 2 * m) (median_sorted s) ≡ percentile s 2
unfolding median_sorted percentile
median-eq-percentile [] = refl
median-eq-percentile (x ∷ xs) = elim (Bool-cases (length (x ∷ xs) % 2 == 1)) [
  | inl e ↦
      rw (e, percentile_at-eq-interpolate (x ∷ xs) 2)
        (ap some (half_odd (λ i. get_or (x ∷ xs) i 0) (length (x ∷ xs)) (ground arith)))
  | inr e ↦
      rw (e, percentile_at-eq-interpolate (x ∷ xs) 2)
        (ap some
          (half_even (λ i. get_or (x ∷ xs) i 0) (length (x ∷ xs)) (ground arith) (omega arith)))
]

quartile_range_total :
    (s : List ℕ)
    → Ascends s
    → 0 < length s
    → (d : ℕ) × (quartile_range s ≡ some d)
      × (percentile_at s 1 + d ≡ percentile_at s 3)
      × (d + 4 * get_or s 0 0 ≤ 4 * get_or s (length s - 1) 0)
unfolding quartile_range
quartile_range_total [] asc ne = absurd (omega (arith, ne))
quartile_range_total (x ∷ s) asc ne =
    let (grows, low, high) = percentile_at_mono (x ∷ s) 1 3 asc ne (omega arith) (omega arith) in
    (
      percentile_at (x ∷ s) 3 - percentile_at (x ∷ s) 1,
      refl,
      omega (arith, grows),
      omega (arith, grows, low, high),
    )

-- Of values that are not empty `iqr` returns, what it returns is what lies between the two
-- quartiles, and is no more than the whole range.
pub iqr_total :
    (vals : List ℕ)
    → 0 < length vals
    → (d : ℕ) × (iqr vals ≡ some d)
      × (percentile_at (sort leb vals) 1 + d ≡ percentile_at (sort leb vals) 3)
      × (d + 4 * get_or (sort leb vals) 0 0 ≤ 4 * get_or (sort leb vals) (length vals - 1) 0)
unfolding iqr
iqr_total vals ne =
    rw (sym (length-sort leb vals))
      (quartile_range_total (sort leb vals) (sort-Ascends vals) (rw (length-sort leb vals) ne))
