-- ===== src/Bench/Span.antt =====
-- What the gates on the rows mean: the medians of two arms of a batch are never far apart.
use whimbrel.Prelude.{ℕ, ◌+◌, ◌*◌, ◌≤◌}
use whimbrel.Prelude.{◌≡◌, refl, ◌↔◌, inl, inr}
use whimbrel.Prelude.{arith}
use whimbrel.Prelude.{List, [], ◌∷◌}
use whimbrel.Prelude.{ltb, Bool-cases}
use whimbrel.Prelude.{length, All}
use whimbrel.Prelude.{ok, Result-cases}
use whimbrel.Prelude.Text.{Text}
use whimbrel.Prelude.Sort.{sort, All-map}
use whimbrel.Prelude.Dict.{Dict}
use whimbrel.Prelude.Extrema.{lowest, highest, lowest-le, highest-ge, lowest-All, highest-All}
use whimbrel.Bench.Connect.{
  RunRow, medians, control_tol_ns, check_span, check_batch, check_batches, by_key, by_batch,
  require_first_connect_control,
}

-- Each of the numbers is within `tol` of each of them.
abbrev pub IsClose : ℕ → List ℕ → Type 0
IsClose tol ms = All (λ m. All (λ n. m ≤ n + tol) ms) ms

All-between :
    (low high tol : ℕ) (ms : List ℕ)
    → high ≤ low + tol
    → All (λ n. low ≤ n) ms
    → All (λ n. n ≤ high) ms
    → IsClose tol ms
All-between low high tol ms h above below =
    All-map (λ m under. All-map (λ n over. omega (arith, h, under, over)) ms above) ms below

-- `check_span` compares only the extremes; that is as good as each two.
pub check_span_iff : (ms : List ℕ) → (check_span ms ≡ ok tt) ↔ IsClose (2 * control_tol_ns) ms
unfolding check_span
check_span_iff [] = (λ h. tt, λ h. refl)
check_span_iff (m ∷ ms) = (
  λ h.
      All-between (lowest m ms) (highest m ms) (2 * control_tol_ns) (m ∷ ms) (ground arith)
        (lowest-le m ms) (highest-ge m ms),
  λ (first, others).
      let tol = 2 * control_tol_ns in
      let under : All (λ n. highest m ms ≤ n + tol) (m ∷ ms) =
        highest-All (λ x. All (λ n. x ≤ n + tol) (m ∷ ms)) m ms first others in
      let span = lowest-All (λ n. highest m ms ≤ n + tol) m ms (under.0) (under.1) in
      ground (arith, span),
)

-- A batch of two or more arms, whose medians exist and lie close together.
abbrev pub IsSteady : Text × Dict (List ℕ) → Type 0
IsSteady (b, by_cfg) =
    2 ≤ length by_cfg → (ms : List ℕ) × (medians by_cfg ≡ ok ms) × IsClose (2 * control_tol_ns) ms

check_batch_iff :
    (b : Text) (by_cfg : Dict (List ℕ)) → (check_batch by_cfg ≡ ok tt) ↔ IsSteady (b, by_cfg)
unfolding check_batch
check_batch_iff b by_cfg = elim (Bool-cases (ltb (length by_cfg) 2)) [
  | inl few ↦ (λ h many. absurd (ground arith), λ h. rw few refl)
  | inr many ↦ (
    λ h more. elim (Result-cases (medians by_cfg)) [
      | inr (e, failed) ↦ absurd (ground arith)
      | inl (ms, taken) ↦ (ms, taken, (check_span_iff ms).0 (rw (many, taken) at h))
    ],
    λ h.
        let (ms, taken, close) = h (ground arith) in rw (many, taken) ((check_span_iff ms).1 close),
  )
]

check_batches_iff : (d : Dict (Dict (List ℕ))) → (check_batches d ≡ ok tt) ↔ All IsSteady d
unfolding check_batches
check_batches_iff [] = (λ h. tt, λ h. refl)
check_batches_iff ((b, by_cfg) ∷ d) = (
  λ h. ((check_batch_iff b by_cfg).0 (ground arith), (check_batches_iff d).0 (ground arith)),
  λ (first, others). rw ((check_batch_iff b by_cfg).1 first) ((check_batches_iff d).1 others),
)

-- The control on the first connect passes exactly if in each batch the medians of any two arms,
-- whichever they are, lie within a millisecond of each other. A median is kept twofold.
pub require_first_connect_control_iff :
    (runs : List RunRow)
    → (require_first_connect_control runs ≡ ok tt) ↔ All IsSteady (sort by_key (by_batch runs))
unfolding require_first_connect_control
require_first_connect_control_iff runs = check_batches_iff (sort by_key (by_batch runs))
