-- ===== src/Bench/Summary/Run.antt =====
-- `cmd_summarize` of scripts/bench.py: the groups of a campaign and the gates that its summary passes.
use whimbrel.Prelude.{ℕ, ◌-◌}
use whimbrel.Prelude.{Bool, true, ◌&&◌, not, Option, none, some}
use whimbrel.Prelude.{List, [], ◌∷◌, ◌++◌, map}
use whimbrel.Prelude.{◌==◌, if◌then◌else◌}
use whimbrel.Prelude.{length}
use whimbrel.Prelude.{Result, ok, ◌>>=◌, ◌>>◌, guard}
use whimbrel.Prelude.Text.{Text, codes, text_eq, text_leb}
use whimbrel.Prelude.Int.{ℤ}
use whimbrel.Prelude.Sort.{sort}
use whimbrel.Prelude.Grouping.{Group, group_by, members_of}
use whimbrel.Pcap.Tshark.{Proc}
use whimbrel.Bench.Failure.{BenchFail, recorded_count, warmup_count}
use whimbrel.Bench.Connect.{
  RunRow, Schema, old, new, runs_schema, require_zero_steal, require_first_connect_control,
}
use whimbrel.Bench.Aggregate.{AggRow, assert_aggregatable}
use whimbrel.Bench.Hashes.{KernelRow, linux_kernel_hash_failures}
use whimbrel.Bench.Summary.Metrics.{SummaryRow, PhaseRecord, recorded_runs, metric_table}
use whimbrel.Bench.Summary.Startup.{StartupLines, s_header_lines}
use whimbrel.Bench.Summary.Gates.{
  ArmKey, ArmMetrics, SummaryFailure, bad_hash, trimmed_vs_stock_failures, d0081_delta_failures,
  stability_failures,
}

-- What the gates on the rows see of a row.
abbrev pub agg_row : SummaryRow → AggRow
agg_row r = record {
  warmup = r.warmup;
  dirty = r.dirty;
  qemu_version = r.qemu_version;
  git_sha = r.git_sha;
  controls = r.controls;
}

abbrev pub run_row : SummaryRow → RunRow
run_row r = record {
  batch_id = some r.batch_id;
  config = r.config;
  trial = r.trial;
  warmup = r.warmup;
  steal_ticks = r.steal_ticks;
  e0_to_first_connect_ns = r.metric (codes "e0_to_first_connect_ns");
}

abbrev pub kernel_row : SummaryRow → KernelRow
kernel_row r = record {
  warmup = r.warmup;
  system = r.system;
  config = r.config;
  trial = r.trial;
  kernel_sha256 = r.kernel_sha256;
}

unfoldable pub arm_of : SummaryRow → ArmKey
arm_of r = record { batch = r.batch_id; system = r.system; config = r.config }

unfoldable pub phase_arm : PhaseRecord → ArmKey
phase_arm p = record { batch = p.batch_id; system = p.system; config = p.config }

unfoldable pub same_arm : ArmKey → ArmKey → Bool
same_arm a b = text_eq a.batch b.batch && text_eq a.system b.system && text_eq a.config b.config

-- The order of the keys, which are triples.
abbrev pub arm_leb : ArmKey → ArmKey → Bool
arm_leb a b =
    if not (text_eq a.batch b.batch)
    then text_leb a.batch b.batch
    else if not (text_eq a.system b.system)
    then text_leb a.system b.system
    else text_leb a.config b.config

abbrev pub by_arm : Group ArmKey SummaryRow → Group ArmKey SummaryRow → Bool
by_arm g h = arm_leb g.key h.key

-- `groups` and `phase_groups`
unfoldable pub arm_groups : List SummaryRow → List (Group ArmKey SummaryRow)
arm_groups runs = group_by same_arm arm_of (λ (r : SummaryRow). r) runs

unfoldable pub phase_groups : List PhaseRecord → List (Group ArmKey PhaseRecord)
phase_groups phases = group_by same_arm phase_arm (λ (p : PhaseRecord). p) phases

-- `expect is not None and count != expect`
abbrev pub as_expected : Option ℕ → ℕ → Bool
as_expected none count = true
as_expected (some n) count = count == n

unfoldable pub check_group : Option ℕ → Option ℕ → List SummaryRow → Result BenchFail (Unit {0})
check_group expect_n expect_warmup rs = do
  let rec = length (recorded_runs rs)
  guard (as_expected expect_n rec) (recorded_count rec)
  guard (as_expected expect_warmup (length rs - rec)) (warmup_count (length rs - rec))

-- The loop over the groups, for `metric_by_group`.
unfoldable pub group_metrics :
    Option ℕ
    → Option ℕ
    → Schema
    → List (Group ArmKey PhaseRecord)
    → List (Group ArmKey SummaryRow)
    → Result BenchFail (List ArmMetrics)
group_metrics expect_n expect_warmup schema phases [] = ok []
group_metrics expect_n expect_warmup schema phases (g ∷ groups) = do
  check_group expect_n expect_warmup g.members
  more ← group_metrics expect_n expect_warmup schema phases groups
  ok (
      record {
        arm = g.key;
        metrics = metric_table schema g.members (members_of same_arm g.key phases);
      }
      ∷ more)

-- The arguments of the command.
pub record SummaryArgs : Type 0 where
  pub allow_dirty : Bool
  pub expect_n : Option ℕ
  pub expect_warmup : Option ℕ
  pub stability : Bool

-- `failed`; `manifest` is the text of the Linux MANIFEST if there is such a file.
unfoldable pub gate_failures :
    Bool → Option Text → List SummaryRow → List ArmMetrics → Result BenchFail (List SummaryFailure)
gate_failures stability manifest runs metrics = do
  hashes ← linux_kernel_hash_failures manifest (map kernel_row runs)
  moved ← if stability then stability_failures metrics else ok []
  ok (
      trimmed_vs_stock_failures metrics
      ++ (d0081_delta_failures metrics ++ (map bad_hash hashes ++ moved)))

module _ (present : Text → Bool) (tshark : Text → Text → List Text → Proc)
    (float_ns : Text → Option ℤ) where
  -- The checks of a campaign with the new columns.
  unfoldable pub check_new : Schema → List SummaryRow → Result BenchFail (Option StartupLines)
  check_new old runs = ok none
  check_new new runs = do
    require_first_connect_control (map run_row runs)
    lines ← s_header_lines present tshark float_ns runs
    ok (some lines)

  -- The summary and what failed; `columns` are the keys of the first row, or those of runs.csv.
  unfoldable pub summarize :
      SummaryArgs
      → Option Text
      → List Text
      → List SummaryRow
      → List PhaseRecord
      → Result BenchFail (List ArmMetrics × List SummaryFailure)
  summarize args manifest columns runs phases = do
    schema ← runs_schema columns
    assert_aggregatable columns args.allow_dirty (map agg_row runs)
    require_zero_steal (map run_row runs)
    lines ← check_new schema runs
    metrics ←
        group_metrics args.expect_n args.expect_warmup schema (phase_groups phases)
          (sort by_arm (arm_groups runs))
    failed ← gate_failures args.stability manifest runs metrics
    ok (metrics, failed)

  -- The exit status.
  unfoldable pub cmd_summarize :
      SummaryArgs
      → Option Text
      → List Text
      → List SummaryRow
      → List PhaseRecord
      → Result BenchFail ℕ
  cmd_summarize args manifest columns runs phases = do
    (metrics, failed) ← summarize args manifest columns runs phases
    ok (elim failed [ [] ↦ 0 | f ∷ more ↦ 1 ])
