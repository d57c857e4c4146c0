-- ===== src/Witness/Summary.antt =====
-- A campaign is uniform exactly if each of its recorded times is on the side of their median.
use whimbrel.Prelude.{List-cases}
use whimbrel.Prelude.{ℕ, ◌*◌, ◌≤◌, ◌<◌}
use whimbrel.Prelude.{◌≡◌, refl, ap, ◌↔◌, inl, inr}
use whimbrel.Prelude.{true, Option, some, arith}
use whimbrel.Prelude.{List, [], ◌∷◌}
use whimbrel.Prelude.{Option-cases}
use whimbrel.Prelude.{length, all, keep, All}
use whimbrel.Prelude.{ok, Result-cases}
use whimbrel.Prelude.Text.{Text, text_eq, text_eq_iff}
use whimbrel.Prelude.Extrema.{lowest-le, highest-ge, lowest-All, highest-All}
use whimbrel.Prelude.Sort.{All-map}
use whimbrel.Stats.Percentile.{median_sorted, median}
use whimbrel.Witness.Rows.{RunLine, PhaseLine, Side, deflated, inflated, same_side, regime_side}
use whimbrel.Witness.Join.{warmup_join}
use whimbrel.Witness.Campaign.{
  Camp, is_recorded_run, recorded_pv, min_of, max_of, with_recorded, campaign,
}
use whimbrel.Witness.Classify.{yes, uniform_of, classify_row}

min_of-le : (xs : List ℕ) → All (λ x. min_of xs ≤ x) xs
min_of-le [] = tt
min_of-le (x ∷ xs) = lowest-le x xs

max_of-ge : (xs : List ℕ) → All (λ x. x ≤ max_of xs) xs
max_of-ge [] = tt
max_of-ge (x ∷ xs) = highest-ge x xs

-- What the summary of a campaign says of its rows.
pub record IsSummary (runs : List RunLine) (phases : List PhaseLine) (c : Camp) : Type 0 where
  pub one_kernel : All (λ (r : RunLine). r.kernel ≡ c.kernel) (keep is_recorded_run runs)
  pub counted : c.n ≡ length (recorded_pv phases)
  pub some_pv : 0 < c.n
  pub middle : median (recorded_pv phases) ≡ some c.med
  pub low : c.lo ≡ min_of (recorded_pv phases)
  pub high : c.hi ≡ max_of (recorded_pv phases)
  pub joined : warmup_join runs phases ≡ ok c.warmup

kernels-All :
    (k : Text) (rec : List RunLine)
    → all (λ (q : RunLine). text_eq q.kernel k) rec ≡ true
    → All (λ (r : RunLine). r.kernel ≡ k) rec
kernels-All k [] h = tt
kernels-All k (r ∷ rec) h =
    ((text_eq_iff r.kernel k).0 (ground arith), kernels-All k rec (ground arith))

median-full : (xs : List ℕ) (m : ℕ) → median xs ≡ some m → 0 < length xs
unfolding median median_sorted
median-full [] m h = cc
median-full (x ∷ xs) m h = omega arith

with_recorded-IsSummary :
    (runs : List RunLine) (phases : List PhaseLine) (r : RunLine) (rec : List RunLine) (c : Camp)
    → keep is_recorded_run runs ≡ r ∷ rec
    → with_recorded runs phases r rec ≡ ok c
    → IsSummary runs phases c
unfolding with_recorded
with_recorded-IsSummary runs phases r rec c e h =
    elim (Option-cases (median (recorded_pv phases))) [
      | inl none_there ↦ absurd (ground arith)
      | inr (m, middle) ↦ elim (Result-cases (warmup_join runs phases)) [
        | inr (f, failed) ↦ absurd (ground arith)
        | inl (wu, joined) ↦
            let counted : c.n ≡ length (recorded_pv phases) = ground arith in
            let same_kernel : r.kernel ≡ c.kernel = ground arith in
            record {
              one_kernel =
                  rw e (same_kernel, rw same_kernel at (kernels-All r.kernel rec (ground arith)));
              counted = counted;
              some_pv = omega (arith, median-full (recorded_pv phases) m middle, counted);
              middle = rw middle (ground arith);
              low = ground arith;
              high = ground arith;
              joined = rw joined (ground arith);
            }
      ]
    ]

campaign-IsSummary :
    (runs : List RunLine) (phases : List PhaseLine) (c : Camp)
    → campaign runs phases ≡ ok c
    → IsSummary runs phases c
unfolding campaign
campaign-IsSummary runs phases c h = elim (List-cases (keep is_recorded_run runs)) [
  | inl e ↦ absurd (ground arith)
  | inr (r, rec, e) ↦ with_recorded-IsSummary runs phases r rec c e (ground arith)
]

-- A time between two on a side is on that side.
side-between :
    (lo v hi : ℕ) (s : Side)
    → lo ≤ v
    → v ≤ hi
    → regime_side (2 * lo) ≡ s
    → regime_side (2 * hi) ≡ s
    → regime_side (2 * v) ≡ s
unfolding regime_side
side-between lo v hi s a b e f = ground arith

same_side_iff : (s t : Side) → (same_side s t ≡ true) ↔ (s ≡ t)
same_side_iff deflated deflated = (λ h. refl, λ h. refl)
same_side_iff inflated inflated = (λ h. refl, λ h. refl)
same_side_iff deflated inflated = (λ h. cc, λ h. cc)
same_side_iff inflated deflated = (λ h. cc, λ h. cc)

sides-All :
    (s : Side) (lo hi : ℕ) (xs : List ℕ)
    → All (λ x. lo ≤ x) xs
    → All (λ x. x ≤ hi) xs
    → regime_side (2 * lo) ≡ s
    → regime_side (2 * hi) ≡ s
    → All (λ x. regime_side (2 * x) ≡ s) xs
sides-All s lo hi [] a b e f = tt
sides-All s lo hi (x ∷ xs) (p, a) (q, b) e f =
    (side-between lo x hi s p q e f, sides-All s lo hi xs a b e f)

extremes-All :
    (s : Side) (xs : List ℕ)
    → 0 < length xs
    → All (λ x. regime_side (2 * x) ≡ s) xs
    → (regime_side (2 * min_of xs) ≡ s) × (regime_side (2 * max_of xs) ≡ s)
extremes-All s [] full h = absurd (omega (arith, full))
extremes-All s (x ∷ xs) full (p, h) = (
  lowest-All (λ y. regime_side (2 * y) ≡ s) x xs p h,
  highest-All (λ y. regime_side (2 * y) ≡ s) x xs p h,
)

uniform_of_iff :
    (c : Camp)
    → (uniform_of c ≡ yes) ↔ (
        (regime_side (2 * c.lo) ≡ regime_side c.med) × (regime_side (2 * c.hi) ≡ regime_side c.med))
uniform_of_iff c =
    let low = same_side_iff (regime_side (2 * c.lo)) (regime_side c.med) in
    let high = same_side_iff (regime_side (2 * c.hi)) (regime_side c.med) in
    (λ h. (low.0 (ground arith), high.0 (ground arith)), λ (p, q). rw (low.1 p, high.1 q) refl)

some_injective : {a b : Side} → ◌≡◌ {A = Option Side} (some a) (some b) → a ≡ b
some_injective h = cc

-- A row of a corroborated family calls its campaign uniform exactly if each of the recorded times
-- that the campaign was made of is on the side of their median, which is the regime that it gives.
pub classify_row-uniform_iff :
    (printed : ℕ → ℕ) (note : Text) (runs : List RunLine) (phases : List PhaseLine) (c : Camp)
    → campaign runs phases ≡ ok c
    → ((classify_row printed note c true).uniform ≡ yes)
      ↔ All
          (λ v. some (regime_side (2 * v)) ≡ (classify_row printed note c true).regime)
          (recorded_pv phases)
unfolding classify_row
classify_row-uniform_iff printed note runs phases c h =
    let is = campaign-IsSummary runs phases c h in
    let pv = recorded_pv phases in
    let s = regime_side c.med in
    let full : 0 < length pv = rw is.counted at is.some_pv in
    (
      λ yes_said.
          let (p, q) = (uniform_of_iff c).0 yes_said in
          All-map (λ v e. ap some e) pv
            (sides-All s (min_of pv) (max_of pv) pv (min_of-le pv) (max_of-ge pv) (rw is.low at p)
              (rw is.high at q)),
      λ on_side.
          let (p, q) = extremes-All s pv full (All-map (λ v e. some_injective e) pv on_side) in
          (uniform_of_iff c).1 (rw is.low p, rw is.high q),
    )
