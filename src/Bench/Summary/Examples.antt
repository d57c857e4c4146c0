-- ===== src/Bench/Summary/Examples.antt =====
-- Two batches of four arms through the summary.
use whimbrel.Prelude.{ℕ, String, ◌*◌}
use whimbrel.Prelude.{◌≡◌, refl}
use whimbrel.Prelude.{true, false, none, some}
use whimbrel.Prelude.{List, [], ◌∷◌, ◌++◌, map, if◌then◌else◌}
use whimbrel.Prelude.{Result, ok, err}
use whimbrel.Prelude.Extrema
use whimbrel.Prelude.Sort.{sort}
use whimbrel.Prelude.Text.{
  Text, codes, text_eq, text_leb, splitlines, strip, lstrip, starts_with, strip_prefix, run,
  is_space, is_digit,
}
use whimbrel.Prelude.Int.{ℤ, pos, sub_ℕ, ◌+ℤ◌, ◌-ℤ◌}
use whimbrel.Prelude.Dict.{lookup, has_key}
use whimbrel.Prelude.Grouping.{append_to, members_of, group_from, group_by}
use whimbrel.Stats.Percentile.{median, median_sorted}
use whimbrel.Stats.Stability
use whimbrel.Stats.Stability.{values_of}
use whimbrel.Stats.Signed.{median_ℤ, median_sorted_ℤ}
use whimbrel.Pcap.Tshark.{Proc}
use whimbrel.Exhibits.Rows
use whimbrel.Exhibits.Lanes.{s_trial_ns}
use whimbrel.Bench.Failure.{BenchFail, recorded_count}
use whimbrel.Bench.Connect
use whimbrel.Bench.Connect.{Schema, new}
use whimbrel.Bench.Aggregate
use whimbrel.Bench.Hashes
use whimbrel.Bench.Manifest
use whimbrel.Bench.ManifestLine.{is_hex_digit, artifact_match, append_match}
use whimbrel.Bench.ManifestExamples as Linux
use whimbrel.Bench.Summary.Metrics
use whimbrel.Bench.Summary.Metrics.{
  SummaryRow, PhaseRecord, recorded_runs, is_counted, metric_table,
}
use whimbrel.Bench.Summary.Tables.{of_phase, recorded_rows, recorded_phases, metric_table-holds}
use whimbrel.Bench.Summary.Startup
use whimbrel.Bench.Summary.Gates
use whimbrel.Bench.Summary.Run
use whimbrel.Bench.Summary.Passes.{
  table_of, rows_of, arm_groups_refines, IsSummary, summarize-IsSummary,
}
use whimbrel.Bench.Summary.Lanes.{IsHeader, s_header_lines-IsHeader, HasCells, row_s_ns-agrees}

run_program : Unit {0}
unfolding text_eq text_leb splitlines strip lstrip starts_with strip_prefix run is_space is_digit
    lookup has_key append_to members_of group_from group_by median median_sorted sort median_ℤ
    median_sorted_ℤ ◌+ℤ◌ ◌-ℤ◌
run_program = tt

-- Times in microseconds.
abbrev times : ℕ → ℕ → Text → ℕ
times connect e4 name =
    if text_eq name (codes "e0_to_first_connect_ns")
    then connect * 1000
    else if text_eq name (codes "e0_to_e4_ns")
    then e4 * 1000
    else 1_000_000

abbrev row : String → String → String → ℕ → ℕ → ℕ → SummaryRow
row batch system config warmup connect e4 = record {
  batch_id = codes batch;
  system = codes system;
  config = codes config;
  trial = warmup;
  warmup = warmup;
  dirty = 0;
  qemu_version = codes "9";
  git_sha = codes "ab";
  controls = [];
  steal_ticks = some 0;
  kernel_sha256 = Linux.digest;
  pcap_path = [];
  synack_to_http_ns = some (pos 500_000);
  metric = times connect e4;
}

abbrev batch : String → List SummaryRow
batch b =
    row b "whimbrel" "release-fast-boot" 1 20_000 90_000
    ∷ row b "whimbrel" "release-fast-boot" 0 20_000 40_000
    ∷ row b "whimbrel" "release-default" 0 20_100 40_100
    ∷ row b "linux" "trimmed" 0 20_200 264_684
    ∷ row b "linux" "stock" 0 20_300 928_101
    ∷ []

abbrev all_rows : List SummaryRow
all_rows = batch "d-1" ++ batch "d-2"

abbrev phase_line : String → ℕ → String → ℕ → PhaseRecord
phase_line b warmup phase since = record {
  batch_id = codes b;
  system = codes "whimbrel";
  config = codes "release-fast-boot";
  trial = warmup;
  warmup = warmup;
  phase = codes phase;
  delta_ns = 100;
  ns_since_e2 = since;
}

abbrev all_phases : List PhaseRecord
all_phases =
    phase_line "d-1" 1 "E3g" 9
    ∷ phase_line "d-1" 0 "stvec" 100
    ∷ phase_line "d-1" 0 "E3g" 200
    ∷ phase_line "d-2" 0 "stvec" 100
    ∷ phase_line "d-2" 0 "E3g" 210
    ∷ []

abbrev columns : List Text
columns = codes "w_ns" ∷ codes "d_ack_ns" ∷ codes "d_fin_ns" ∷ []

-- No capture is read.
abbrev unread : Text → Text → List Text → Proc
unread path filter fields = record { returncode = 1; stdout = []; stderr = [] }

abbrev args : Run.SummaryArgs
args = record { allow_dirty = false; expect_n = some 1; expect_warmup = none; stability = true }

gates_program : Unit {0}
unfolding run_program is_hex_digit artifact_match append_match Manifest.add_line Manifest.add_lines
    Manifest.check_manifest Manifest.parse_linux_manifest Hashes.is_linux_row Hashes.image_of
    Hashes.row_failures Hashes.hash_failures Hashes.failures_of Hashes.linux_kernel_hash_failures
    Extrema.lowest Extrema.highest Connect.has_column Connect.runs_schema Connect.require_zero_steal
    Connect.append_value Connect.append_in Connect.batch_of Connect.by_batch_from Connect.medians
    Connect.check_span Connect.check_batch Connect.check_batches Connect.by_batch
    Connect.require_first_connect_control Aggregate.unanimous Aggregate.check_control
    Aggregate.check_controls Aggregate.is_recorded Aggregate.check_recorded
    Aggregate.assert_aggregatable Stability.stability_tol Stability.compare_medians
    Stability.has_name Stability.distinct_names Stability.names_of Stability.compare_names
    Stability.compare_stability
gates_program = tt

summary_program : Unit {0}
unfolding gates_program recorded_runs Metrics.is_of_run is_counted Metrics.by_phase
    Metrics.e2_to_e3g Metrics.run_metrics metric_table Startup.startup_ns Startup.row_s_ns
    Startup.all_s_ns Startup.startup_lines Startup.header_of Startup.s_header_lines
    Gates.linux_medians Gates.trimmed_failure Gates.linux_batches Gates.batch_failures
    Gates.trimmed_vs_stock_failures Gates.concatenated Gates.pinned_values Gates.delta_failure
    Gates.pin_failures Gates.d0081_delta_failures Gates.last_two Gates.verdict_failures
    Gates.same_table Gates.repeats_batch Gates.arm_failures Gates.batches_by_config
    Gates.stability_failures Run.arm_of Run.phase_arm Run.same_arm Run.arm_groups Run.phase_groups
    Run.check_group Run.group_metrics Run.gate_failures Run.check_new Run.summarize
    Run.cmd_summarize
summary_program = tt

abbrev command : List SummaryRow → List PhaseRecord → Result BenchFail ℕ
command rows phases =
    Run.cmd_summarize (λ path. false) unread (λ t. none) args (some Linux.text) columns rows phases

exit_zero : command all_rows all_phases ≡ ok 0
unfolding summary_program
exit_zero = refl

-- A trimmed kernel that is too slow, and one that is not there in the second batch.
exit_one : command (batch "d-1" ++ row "d-2" "linux" "trimmed" 0 20_000 950_000 ∷ []) [] ≡ ok 1
unfolding summary_program
exit_one = refl

one_trial_short :
    command (row "d-1" "linux" "stock" 1 20_000 900_000 ∷ batch "d-2") [] ≡ err (recorded_count 0)
unfolding summary_program
one_trial_short = refl

abbrev tables : List Gates.ArmMetrics
tables = map (table_of new all_phases) (sort Run.by_arm (Run.arm_groups all_rows))

passes_all :
    Run.summarize
      (λ path. false)
      unread
      (λ t. none)
      args
      (some Linux.text)
      columns
      all_rows
      all_phases
    ≡ ok (tables, [])
unfolding summary_program
passes_all = refl

summarize-IsSummary_example : IsSummary args (some Linux.text) columns all_rows all_phases tables
summarize-IsSummary_example =
    summarize-IsSummary (λ path. false) unread (λ t. none) args (some Linux.text) columns all_rows
      all_phases tables passes_all

arm_groups_refines_example :
    (λ a. members_of Run.same_arm a (Run.arm_groups all_rows)) ≡ rows_of all_rows
arm_groups_refines_example = arm_groups_refines all_rows

metric_table-holds_example :
    let table = metric_table new all_rows all_phases in
    let counted = recorded_phases all_rows all_phases in
    (values_of (Metrics.delta_key (codes "stvec")) table
      ≡ map (λ (p : PhaseRecord). p.delta_ns) (of_phase (codes "stvec") counted))
    × (values_of (Metrics.since_key (codes "stvec")) table
        ≡ map (λ (p : PhaseRecord). p.ns_since_e2) (of_phase (codes "stvec") counted))
    × (values_of (codes "e0_to_e4_ns") table
        ≡ map (λ (r : SummaryRow). r.metric (codes "e0_to_e4_ns")) (recorded_rows all_rows))
    × (values_of (codes "e2_to_e3g_ns") table
        ≡ map (λ (p : PhaseRecord). p.ns_since_e2) (of_phase (codes "E3g") counted))
metric_table-holds_example = metric_table-holds new all_rows all_phases (codes "stvec")

-- The lines of the first batch.
abbrev valued : List (SummaryRow × ℤ)
valued = map (λ r. (r, startup_of r)) (recorded_runs (batch "d-1"))
  where
    startup_of : SummaryRow → ℤ
    startup_of r =
        sub_ℕ (r.metric (codes "e0_to_e4_ns")) (r.metric (codes "e0_to_first_connect_ns"))
        -ℤ pos 2_500_000

abbrev lines : Startup.StartupLines
lines = Startup.lines_of (pos 259_484_000) valued

printed : Startup.s_header_lines (λ path. false) unread (λ t. none) (batch "d-1") ≡ ok lines
unfolding summary_program
printed = refl

s_header_lines-IsHeader_example :
    (vals : List (SummaryRow × ℤ)) × (Startup.all_s_ns
        (λ path. false)
        unread
        (λ t. none)
        (recorded_runs (batch "d-1"))
      ≡ ok vals)
    × IsHeader vals lines
s_header_lines-IsHeader_example =
    s_header_lines-IsHeader (λ path. false) unread (λ t. none) (batch "d-1") lines printed

-- The same row for the other script.
abbrev trial_row : SummaryRow
trial_row = row "d-1" "whimbrel" "release-default" 0 20_000 40_000

abbrev cells : Rows.Row
cells = record {
  batch_id = codes "d-1";
  trial = codes "0";
  config = codes "release-default";
  system = codes "whimbrel";
  git_sha = codes "ab";
  bios_sha256 = [];
  kernel_sha256 = [];
  canary_stvec = [];
  canary_pv = [];
  warmup = 0;
  dirty = 0;
  steal_ticks = 0;
  e0_to_e4_ns = 40_000_000;
  e0_to_first_connect_ns = 20_000_000;
  w_ns = some (pos 1_000_000);
  synack_to_http_ns = some (pos 500_000);
  d_fin_ns = some (pos 1_000_000);
  controls = [];
}

same_cells : HasCells trial_row cells
unfolding summary_program
same_cells = (refl, refl, refl, refl, refl)

row_s_ns-agrees_example :
    (s : ℤ) × (Startup.row_s_ns (λ path. false) unread (λ t. none) trial_row ≡ ok s)
    × (s_trial_ns cells ≡ ok s)
row_s_ns-agrees_example =
    row_s_ns-agrees (λ path. false) unread (λ t. none) trial_row cells (pos 500_000) same_cells refl
