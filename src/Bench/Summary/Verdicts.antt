-- ===== src/Bench/Summary/Verdicts.antt =====
-- What the gates on the medians of a summary mean.
use whimbrel.Prelude.{ℕ, ◌+◌, ◌≤◌, ◌<◌}
use whimbrel.Prelude.{◌≡◌, refl, sym, ◌∙◌, ◌⊎◌, inl, inr}
use whimbrel.Prelude.{true, Option, none, some, arith}
use whimbrel.Prelude.{List, [], ◌∷◌, ◌++◌}
use whimbrel.Prelude.{Bool-cases}
use whimbrel.Prelude.{All}
use whimbrel.Prelude.{ok, bind-ok, ok-injective}
use whimbrel.Prelude.Text.{Text, codes, text_eq, text_eq_iff}
use whimbrel.Prelude.Dict.{Dict, lookup}
use whimbrel.Prelude.Sort.{sort}
use whimbrel.Prelude.Grouping.{Group, values_under, members-group_by, members_of-All, All-sort}
use whimbrel.Stats.Percentile.{median}
use whimbrel.Stats.Stability.{Drift, values_of, compare_stability}
use whimbrel.Stats.StabilityLaws.{IsStable, is_metric, compare_stability_iff}
use whimbrel.Bench.Summary.Gates

pub nil-append {ℓ} : {A : Type ℓ} (xs ys : List A) → xs ++ ys ≡ [] → (xs ≡ []) × (ys ≡ [])
nil-append [] ys h = (refl, h)
nil-append (x ∷ xs) ys h = absurd (cc)

-- The medians of the Linux arms of a batch, in the order of the groups.
abbrev pub medians_in : Text → List Gates.ArmMetrics → List (Text × ℕ)
medians_in batch metrics =
    values_under text_eq text_eq_iff (λ (v : Text × (Text × ℕ)). v.0)
      (λ (v : Text × (Text × ℕ)). v.1) batch (Gates.linux_medians metrics)

-- In each batch that has both arms, the trimmed kernel's median is below the stock one's.
abbrev pub IsTrimmedFaster : List Gates.ArmMetrics → Type 0
IsTrimmedFaster metrics =
    (batch : Text) (t s : ℕ)
    → Gates.median_in (codes "trimmed") (medians_in batch metrics) ≡ some t
    → Gates.median_in (codes "stock") (medians_in batch metrics) ≡ some s
    → t < s

abbrev IsFasterIn : Group Text (Text × ℕ) → Type 0
IsFasterIn g =
    (t s : ℕ)
    → Gates.median_in (codes "trimmed") g.members ≡ some t
    → Gates.median_in (codes "stock") g.members ≡ some s
    → t < s

trimmed_failure-nil :
    (batch : Text) (a b : Option ℕ) (t s : ℕ)
    → Gates.trimmed_failure batch a b ≡ []
    → a ≡ some t
    → b ≡ some s
    → t < s
unfolding Gates.trimmed_failure
trimmed_failure-nil batch a b t s h e f =
    let both : Gates.trimmed_failure batch (some t) (some s) ≡ [] = rw (e, f) at h in ground arith

batch_failures-nil :
    (batches : List (Group Text (Text × ℕ)))
    → Gates.batch_failures batches ≡ []
    → All IsFasterIn batches
unfolding Gates.batch_failures
batch_failures-nil [] h = tt
batch_failures-nil (b ∷ batches) h =
    let trimmed = Gates.median_in (codes "trimmed") b.members in
    let stock = Gates.median_in (codes "stock") b.members in
    let (here, rest) =
      nil-append (Gates.trimmed_failure b.key trimmed stock) (Gates.batch_failures batches) h in
    (λ t s. trimmed_failure-nil b.key trimmed stock t s here, batch_failures-nil batches rest)

no_median_in : (config : Text) (t : ℕ) → Gates.median_in config [] ≡ some t → ⊥
unfolding lookup
no_median_in config t h = cc

pub trimmed_vs_stock_failures-IsTrimmedFaster :
    (metrics : List Gates.ArmMetrics)
    → Gates.trimmed_vs_stock_failures metrics ≡ []
    → IsTrimmedFaster metrics
unfolding Gates.trimmed_vs_stock_failures Gates.linux_batches
trimmed_vs_stock_failures-IsTrimmedFaster metrics h batch t s e f =
    let same =
      members-group_by text_eq text_eq_iff (λ (v : Text × (Text × ℕ)). v.0)
        (λ (v : Text × (Text × ℕ)). v.1) (Gates.linux_medians metrics) batch in
    elim (members_of-All text_eq text_eq_iff IsFasterIn (Gates.linux_batches metrics) batch
      (batch_failures-nil (Gates.linux_batches metrics) h)) [
        | inl empty ↦
            let none_there : medians_in batch metrics ≡ [] = sym same ∙ empty in
            absurd (no_median_in (codes "trimmed") t (rw none_there at e))
        | inr faster ↦ (rw same at faster) t s e f
      ]

-- Each of the two Linux arms lies from 27 to 16 ms below its earlier median, where it has values.
abbrev pub IsPinned : List Gates.ArmMetrics → Type 0
IsPinned metrics =
    All
      (λ (config, pin).
        (m : ℕ)
        → median (Gates.pinned_values config metrics) ≡ some m
        → (pin ≤ m + 54_000_000) × (m + 32_000_000 ≤ pin))
      Gates.t48b_linux_e0_e4

delta_failure-nil :
    (config : Text) (pin : ℕ) (med : Option ℕ) (m : ℕ)
    → Gates.delta_failure config pin med ≡ []
    → med ≡ some m
    → (pin ≤ m + 54_000_000) × (m + 32_000_000 ≤ pin)
unfolding Gates.delta_failure
delta_failure-nil config pin med m h e =
    let here : Gates.delta_failure config pin (some m) ≡ [] = rw e at h in
    (ground arith, ground arith)

pub d0081_delta_failures-IsPinned :
    (metrics : List Gates.ArmMetrics) → Gates.d0081_delta_failures metrics ≡ [] → IsPinned metrics
unfolding Gates.d0081_delta_failures Gates.pin_failures
d0081_delta_failures-IsPinned metrics h = go Gates.t48b_linux_e0_e4 h
  where
    go :
        (pins : List (Text × ℕ))
        → Gates.pin_failures metrics pins ≡ []
        → All
            (λ (config, pin).
              (m : ℕ)
              → median (Gates.pinned_values config metrics) ≡ some m
              → (pin ≤ m + 54_000_000) × (m + 32_000_000 ≤ pin))
            pins
    go [] h = tt
    go ((config, pin) ∷ pins) h =
        let med = median (Gates.pinned_values config metrics) in
        let (here, rest) =
          nil-append (Gates.delta_failure config pin med) (Gates.pin_failures metrics pins) h in
        (λ m. delta_failure-nil config pin med m here, go pins rest)

-- The metrics of an arm in each batch, in the order of the groups.
abbrev pub batches_of_arm : Text → List Gates.ArmMetrics → List Gates.BatchMetrics
batches_of_arm config metrics =
    values_under text_eq text_eq_iff (λ (g : Gates.ArmMetrics). g.arm.config)
      (λ (g : Gates.ArmMetrics). (g.arm.batch, g.metrics)) config metrics

-- There are two batches at least, and each metric of the last two is stable.
abbrev pub IsSettledIn : List Gates.BatchMetrics → Type 0
IsSettledIn items =
    (a : Text) × (d : Dict (List ℕ)) × (b : Text) × (e : Dict (List ℕ)) × (Gates.last_two
        (sort Gates.by_batch_id items)
      ≡ some ((a, d), (b, e)))
    × ((n : Text) → is_metric d e n ≡ true → IsStable (values_of n d) (values_of n e))

abbrev pub IsSettled : List Gates.ArmMetrics → Type 0
IsSettled metrics =
    (config : Text)
    → (batches_of_arm config metrics ≡ []) ⊎ IsSettledIn (batches_of_arm config metrics)

pair_failures-nil :
    (config a b : Text) (drifts : List Drift)
    → Gates.pair_failures config a b drifts ≡ []
    → drifts ≡ []
pair_failures-nil config a b [] h = refl
pair_failures-nil config a b (d ∷ drifts) h = absurd cc

verdict_failures-nil :
    (config : Text) (pair : Option (Gates.BatchMetrics × Gates.BatchMetrics))
    → Gates.verdict_failures config pair ≡ []
    → (a : Text) × (d : Dict (List ℕ)) × (b : Text) × (e : Dict (List ℕ)) × (pair
        ≡ some ((a, d), (b, e)))
      × ((n : Text) → is_metric d e n ≡ true → IsStable (values_of n d) (values_of n e))
unfolding Gates.verdict_failures
verdict_failures-nil config none h = absurd cc
verdict_failures-nil config (some ((a, d), (b, e))) h =
    let steady = pair_failures-nil config a b (compare_stability d e) h in
    (a, d, b, e, refl, (compare_stability_iff d e).0 steady)

arm_failures-nil :
    (arms : List (Group Text Gates.BatchMetrics))
    → Gates.arm_failures arms ≡ ok []
    → All (λ (g : Group Text Gates.BatchMetrics). IsSettledIn g.members) arms
unfolding Gates.arm_failures
arm_failures-nil [] h = tt
arm_failures-nil (g ∷ arms) h =
    let here = Gates.verdict_failures g.key (Gates.last_two (sort Gates.by_batch_id g.members)) in
    elim (Bool-cases (Gates.repeats_batch g.members)) [
      | inl e ↦ absurd (ground arith)
      | inr e ↦
          let (more, rest, joined) =
            bind-ok (Gates.arm_failures arms) (λ more. ok (here ++ more)) (rw e at h) in
          let (settled, others) = nil-append here more (ok-injective (here ++ more) [] joined) in
          (
            verdict_failures-nil g.key (Gates.last_two (sort Gates.by_batch_id g.members)) settled,
            arm_failures-nil arms (rw others at rest),
          )
    ]

pub stability_failures-IsSettled :
    (metrics : List Gates.ArmMetrics) → Gates.stability_failures metrics ≡ ok [] → IsSettled metrics
unfolding Gates.stability_failures Gates.batches_by_config
stability_failures-IsSettled metrics h config =
    let arms = Gates.batches_by_config metrics in
    let settled = λ (g : Group Text Gates.BatchMetrics). IsSettledIn g.members in
    let same =
      members-group_by text_eq text_eq_iff (λ (g : Gates.ArmMetrics). g.arm.config)
        (λ (g : Gates.ArmMetrics). (g.arm.batch, g.metrics)) metrics config in
    elim (members_of-All text_eq text_eq_iff settled arms config
      (All-sort Gates.by_name settled arms (arm_failures-nil (sort Gates.by_name arms) h))) [
        | inl empty ↦ inl (sym same ∙ empty)
        | inr steady ↦ inr (rw same at steady)
      ]
