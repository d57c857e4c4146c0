-- ===== src/Bench/Summary/Passes.antt =====
-- A summary that passes: what holds of its rows and its medians.
use whimbrel.Prelude.{map_id}
use whimbrel.Prelude.{ℕ, ◌-◌}
use whimbrel.Prelude.{◌≡◌, refl, sym, ap, ◌∙◌, ◌⊎◌, inl, inr, subst}
use mathlib.Core.Path.{fun_ext}
use whimbrel.Prelude.{Bool, true, false, Option, some, ◌&&◌, arith}
use whimbrel.Prelude.{List, [], ◌∷◌, ◌++◌, map, ◌↔◌}
use whimbrel.Prelude.{Result-cases}
use whimbrel.Prelude.{length, All, keep}
use whimbrel.Prelude.{ok, ok-injective}
use whimbrel.Prelude.Text.{text_eq, Text, text_eq_iff}
use whimbrel.Prelude.Int.{ℤ}
use whimbrel.Prelude.Sort.{sort}
use whimbrel.Prelude.Grouping.{Group, members_of, members-group_by, members_of-All, All-sort}
use whimbrel.Pcap.Tshark.{Proc}
use whimbrel.Bench.Aggregate
use whimbrel.Prelude.{if◌then◌else◌, is_some}
use whimbrel.Prelude.{All-of_map}
use whimbrel.Prelude.Sort.{All-map}
use whimbrel.Bench.Connect.{Schema, runs_schema, has_steal, require_zero_steal}
use whimbrel.Bench.RowGates.{require_zero_steal_iff}
use whimbrel.Bench.Manifest.{Manifest, parse_linux_manifest}
use whimbrel.Bench.Hashes.{
  HashFailure, linux_kernel_hash_failures, linux_rows, HasImages, linux_kernel_hash_failures-named,
}
use whimbrel.Bench.Uniform.{IsAggregatable, assert_aggregatable-IsAggregatable}
use whimbrel.Bench.Summary.Metrics.{SummaryRow, PhaseRecord, recorded_runs, metric_table}
use whimbrel.Bench.Summary.Gates.{
  ArmKey, ArmMetrics, SummaryFailure, bad_hash, trimmed_vs_stock_failures, d0081_delta_failures,
  stability_failures,
}
use whimbrel.Bench.Summary.Run.{
  agg_row, run_row, kernel_row, arm_of, same_arm, by_arm, arm_groups, phase_groups, as_expected,
  check_group, group_metrics, SummaryArgs, gate_failures, summarize,
}
use whimbrel.Bench.Summary.Verdicts.{
  nil-append, IsTrimmedFaster, IsPinned, IsSettled, trimmed_vs_stock_failures-IsTrimmedFaster,
  d0081_delta_failures-IsPinned, stability_failures-IsSettled,
}

pub same_arm_iff : (a b : ArmKey) → (same_arm a b ≡ true) ↔ (a ≡ b)
unfolding same_arm
same_arm_iff a b = ground (
  arith,
  text_eq_iff a.batch b.batch,
  text_eq_iff a.system b.system,
  text_eq_iff a.config b.config,
)

-- The rows with the batch, the system and the configuration of an arm, in the order of the file.
abbrev pub rows_of : List SummaryRow → ArmKey → List SummaryRow
rows_of runs a =
    keep
      (λ (r : SummaryRow).
        text_eq r.batch_id a.batch && text_eq r.system a.system && text_eq r.config a.config)
      runs

same_arm-arm_of :
    (r : SummaryRow) (a : ArmKey)
    → same_arm (arm_of r) a
      ≡ (text_eq r.batch_id a.batch && text_eq r.system a.system && text_eq r.config a.config)
unfolding same_arm arm_of
same_arm-arm_of r a = refl

rows_of-arm_of :
    (runs : List SummaryRow) (a : ArmKey)
    → keep (λ (r : SummaryRow). same_arm (arm_of r) a) runs ≡ rows_of runs a
rows_of-arm_of runs a =
    ap (λ (p : SummaryRow → Bool). keep p runs) (fun_ext λ r. same_arm-arm_of r a)

-- The groups of the summary are the function that takes a batch, a system and a configuration to the
-- rows with these three, in the order of the file.
pub arm_groups_refines :
    (runs : List SummaryRow) → (λ a. members_of same_arm a (arm_groups runs)) ≡ rows_of runs
unfolding arm_groups
arm_groups_refines runs = fun_ext λ a.
    members-group_by same_arm same_arm_iff arm_of (λ (r : SummaryRow). r) runs a
    ∙ map_id (keep (λ (r : SummaryRow). same_arm (arm_of r) a) runs)
    ∙ rows_of-arm_of runs a

-- The numbers of recorded rows and warmups that are asked for.
abbrev pub HasCounts : SummaryArgs → List SummaryRow → Type 0
HasCounts args rs =
    (as_expected args.expect_n (length (recorded_runs rs)) ≡ true)
    × (as_expected args.expect_warmup (length rs - length (recorded_runs rs)) ≡ true)

check_group-HasCounts :
    (args : SummaryArgs) (rs : List SummaryRow)
    → check_group args.expect_n args.expect_warmup rs ≡ ok tt
    → HasCounts args rs
unfolding check_group
check_group-HasCounts args rs h = ground arith

group_metrics-HasCounts :
    (args : SummaryArgs) (schema : Schema) (phases : List (Group ArmKey PhaseRecord))
    → (groups : List (Group ArmKey SummaryRow)) (metrics : List ArmMetrics)
    → group_metrics args.expect_n args.expect_warmup schema phases groups ≡ ok metrics
    → All (λ (g : Group ArmKey SummaryRow). HasCounts args g.members) groups
unfolding group_metrics
group_metrics-HasCounts args schema phases [] metrics h = tt
group_metrics-HasCounts args schema phases (g ∷ groups) metrics h =
    elim (Result-cases (check_group args.expect_n args.expect_warmup g.members)) [
      | inr (e, failed) ↦ absurd (ground arith)
      | inl (u, passed) ↦
          elim (Result-cases
            (group_metrics args.expect_n args.expect_warmup schema phases groups)) [
              | inr (e, failed) ↦ absurd (ground arith)
              | inl (more, rest) ↦ (
                check_group-HasCounts args g.members passed,
                group_metrics-HasCounts args schema phases groups more rest,
              )
            ]
    ]

-- The entry of an arm: the metric table of its rows and its phases.
abbrev pub table_of : Schema → List PhaseRecord → Group ArmKey SummaryRow → ArmMetrics
table_of schema phases g = record {
  arm = g.key;
  metrics = metric_table schema g.members (members_of same_arm g.key (phase_groups phases));
}

group_metrics-map :
    (args : SummaryArgs) (schema : Schema) (phases : List PhaseRecord)
    → (groups : List (Group ArmKey SummaryRow)) (metrics : List ArmMetrics)
    → group_metrics args.expect_n args.expect_warmup schema (phase_groups phases) groups
      ≡ ok metrics
    → metrics ≡ map (table_of schema phases) groups
unfolding group_metrics
group_metrics-map args schema phases [] metrics h = ground arith
group_metrics-map args schema phases (g ∷ groups) metrics h =
    let tables =
      group_metrics args.expect_n args.expect_warmup schema (phase_groups phases) groups in
    elim (Result-cases (check_group args.expect_n args.expect_warmup g.members)) [
      | inr (e, failed) ↦ absurd (ground arith)
      | inl (u, passed) ↦ elim (Result-cases tables) [
        | inr (e, failed) ↦ absurd (ground arith)
        | inl (more, rest) ↦ ground (arith, group_metrics-map args schema phases groups more rest)
      ]
    ]

gate_failures-none :
    (stability : Bool) (manifest : Option Text) (runs : List SummaryRow) (metrics : List ArmMetrics)
    → gate_failures stability manifest runs metrics ≡ ok []
    → (linux_kernel_hash_failures manifest (map kernel_row runs) ≡ ok [])
      × IsTrimmedFaster metrics
      × IsPinned metrics
      × (stability ≡ true → IsSettled metrics)
unfolding gate_failures
gate_failures-none stability manifest runs metrics h =
    let after : List HashFailure → List SummaryFailure → List SummaryFailure = λ hashes moved.
      trimmed_vs_stock_failures metrics
      ++ (d0081_delta_failures metrics ++ (map bad_hash hashes ++ moved)) in
    elim (Result-cases (linux_kernel_hash_failures manifest (map kernel_row runs))) [
      | inr (e, failed) ↦ absurd (ground arith)
      | inl (hashes, hashed) ↦
          elim (Result-cases (if stability then stability_failures metrics else ok [])) [
            | inr (e, failed) ↦ absurd (ground arith)
            | inl (moved, compared) ↦
                let all_ok : ok (after hashes moved) ≡ ok [] = rw (hashed, compared) at h in
                let (slow, others) =
                  nil-append (trimmed_vs_stock_failures metrics) _
                    (ok-injective (after hashes moved) [] all_ok) in
                let (off, more) = nil-append (d0081_delta_failures metrics) _ others in
                let (bad, drifted) = nil-append (map bad_hash hashes) moved more in
                (
                  hashed ∙ ap ok (map-nil hashes bad),
                  trimmed_vs_stock_failures-IsTrimmedFaster metrics slow,
                  d0081_delta_failures-IsPinned metrics off,
                  λ asked.
                      stability_failures-IsSettled metrics
                        (settled stability asked moved compared ∙ ap ok drifted),
                )
          ]
    ]
  where
    map-nil : (hashes : List HashFailure) → map bad_hash hashes ≡ [] → hashes ≡ []
    map-nil [] e = refl
    map-nil (x ∷ hashes) e = absurd cc

    settled :
        (asked : Bool)
        → asked ≡ true
        → (moved : List SummaryFailure)
        → (if asked then stability_failures metrics else ok []) ≡ ok moved
        → stability_failures metrics ≡ ok moved
    settled true e moved c = c
    settled false e moved c = absurd cc

-- In a file whose first row has the column, the steal of each row is zero.
abbrev pub HasNoSteal : List SummaryRow → Type 0
HasNoSteal [] = Unit
HasNoSteal (r ∷ runs) =
    is_some r.steal_ticks ≡ true
    → All (λ (q : SummaryRow). (n : ℕ) → q.steal_ticks ≡ some n → n ≡ 0) (r ∷ runs)

has_steal-zero :
    (q : SummaryRow) (n : ℕ) → has_steal (run_row q) ≡ false → q.steal_ticks ≡ some n → n ≡ 0
has_steal-zero q n h e = ground arith

require_zero_steal-HasNoSteal :
    (runs : List SummaryRow) → require_zero_steal (map run_row runs) ≡ ok tt → HasNoSteal runs
require_zero_steal-HasNoSteal [] h = tt
require_zero_steal-HasNoSteal (r ∷ runs) h = λ there.
    All-map (λ q none_stolen n e. has_steal-zero q n none_stolen e) (r ∷ runs)
      (All-of_map run_row (λ q. has_steal q ≡ false) (r ∷ runs)
        ((require_zero_steal_iff (run_row r) (map run_row runs) there).0 h))

-- The recorded Linux rows, if there are some, have the digests that an accepted MANIFEST gives for
-- the images of their arms.
abbrev pub HasNamedImages : Option Text → List SummaryRow → Type 0
HasNamedImages manifest runs =
    (linux_rows (map kernel_row runs) ≡ [])
    ⊎ ((text : Text) × (m : Manifest) × (manifest ≡ some text)
        × (parse_linux_manifest text ≡ ok m)
        × HasImages m (linux_rows (map kernel_row runs)))

-- What holds of the rows and the metrics of a summary that passes.
pub record IsSummary (args : SummaryArgs) (manifest : Option Text) (columns : List Text)
    (runs : List SummaryRow) (phases : List PhaseRecord) (metrics : List ArmMetrics) : Type 0 where
  pub schema : Schema
  pub known : runs_schema columns ≡ ok schema
  pub tables : metrics ≡ map (table_of schema phases) (sort by_arm (arm_groups runs))
  pub aggregatable : IsAggregatable args.allow_dirty (keep Aggregate.is_recorded (map agg_row runs))
  pub no_steal : HasNoSteal runs
  pub counts : (a : ArmKey) → (rows_of runs a ≡ []) ⊎ HasCounts args (rows_of runs a)
  pub hashes : HasNamedImages manifest runs
  pub trimmed : IsTrimmedFaster metrics
  pub pinned : IsPinned metrics
  pub stable : args.stability ≡ true → IsSettled metrics

rows-HasCounts :
    (args : SummaryArgs) (schema : Schema) (phases : List (Group ArmKey PhaseRecord))
    → (runs : List SummaryRow) (metrics : List ArmMetrics)
    → group_metrics args.expect_n args.expect_warmup schema phases (sort by_arm (arm_groups runs))
      ≡ ok metrics
    → (a : ArmKey) → (rows_of runs a ≡ []) ⊎ HasCounts args (rows_of runs a)
rows-HasCounts args schema phases runs metrics h a =
    let counted = λ (g : Group ArmKey SummaryRow). HasCounts args g.members in
    let found : members_of same_arm a (arm_groups runs) ≡ rows_of runs a =
      ap (λ (f : ArmKey → List SummaryRow). f a) (arm_groups_refines runs) in
    elim (members_of-All same_arm same_arm_iff counted (arm_groups runs) a (
      All-sort by_arm counted (arm_groups runs)
        (group_metrics-HasCounts args schema phases (sort by_arm (arm_groups runs)) metrics h))) [
          | inl empty ↦ inl (sym found ∙ empty)
          | inr has ↦ inr (rw found at has)
        ]

module _ (present : Text → Bool) (tshark : Text → Text → List Text → Proc)
    (float_ns : Text → Option ℤ) (args : SummaryArgs) (manifest : Option Text) (columns : List Text)
    (runs : List SummaryRow) (phases : List PhaseRecord) where
  -- A summary without a failure is of rows that may be aggregated and, if the first has the column,
  -- have no steal, with the numbers of trials that are asked for in each arm of each batch; its recorded
  -- Linux rows, if there are some, have the digests that an accepted MANIFEST gives for the images of
  -- their arms, its medians pass both comparisons of the Linux arms, and if it is asked for, each arm has
  -- two batches whose last two are stable in each metric.
  pub summarize-IsSummary :
      (metrics : List ArmMetrics)
      → summarize present tshark float_ns args manifest columns runs phases ≡ ok (metrics, [])
      → IsSummary args manifest columns runs phases metrics
  unfolding summarize
  summarize-IsSummary metrics h = elim (Result-cases (runs_schema columns)) [
    | inr (e, failed) ↦ absurd (ground arith)
    | inl (schema, read) ↦
        let groups = sort by_arm (arm_groups runs) in
        let grouped =
          group_metrics args.expect_n args.expect_warmup schema (phase_groups phases) groups in
        elim (Result-cases grouped) [
          | inr (e, failed) ↦ absurd (ground arith)
          | inl (found, tabled) ↦
              elim (Result-cases (gate_failures args.stability manifest runs found)) [
                | inr (e, failed) ↦ absurd (ground arith)
                | inl (failed, judged) ↦
                    let same : found ≡ metrics = ground arith in
                    let none_failed : failed ≡ [] = ground arith in
                    let passed : gate_failures args.stability manifest runs metrics ≡ ok [] =
                      subst (λ m. gate_failures args.stability manifest runs m ≡ ok []) same
                        (judged ∙ ap ok none_failed) in
                    let (hashes, trimmed, pinned, stable) =
                      gate_failures-none args.stability manifest runs metrics passed in
                    record {
                      schema = schema;
                      known = read;
                      tables = sym same ∙ group_metrics-map args schema phases groups found tabled;
                      aggregatable =
                          assert_aggregatable-IsAggregatable columns args.allow_dirty
                            (map agg_row runs) (ground arith);
                      no_steal = require_zero_steal-HasNoSteal runs (ground arith);
                      counts = rows-HasCounts args schema (phase_groups phases) runs found tabled;
                      hashes =
                          linux_kernel_hash_failures-named manifest (map kernel_row runs) hashes;
                      trimmed = trimmed;
                      pinned = pinned;
                      stable = stable;
                    }
              ]
        ]
  ]
