-- ===== src/Exhibits/SystemExamples.antt =====
-- A comparison of the systems that passes, and one whose trimmed kernel is no faster.
use whimbrel.Prelude.{ℕ}
use whimbrel.Prelude.{◌≡◌, refl}
use whimbrel.Prelude.{none, some}
use whimbrel.Prelude.{List, [], ◌∷◌}
use whimbrel.Prelude.{ok, err}
use whimbrel.Prelude.Text.{
  Text, codes, text_eq, starts_with, strip, lstrip, split, splitlines, is_space, is_line_end,
}
use whimbrel.Prelude.Dict.{lookup, has_key}
use whimbrel.Prelude.Extrema.{lowest, highest}
use whimbrel.Prelude.Sort.{insert, sort}
use whimbrel.Stats.Percentile.{median_sorted, median}
use whimbrel.Pass.Campaign.{mem, same_set}
use whimbrel.Bench.Connect.{has_column, runs_schema}
use whimbrel.Exhibits.Rows
use whimbrel.Exhibits.Rows.{Row, PhaseCell, not_faster, safe, fast}
use whimbrel.Exhibits.Gates
use whimbrel.Exhibits.Validate
use whimbrel.Exhibits.Validate.{validate_t48}
use whimbrel.Prelude.{map, ◌++◌}
use whimbrel.Exhibits.Unprobed

program : Unit {0}
unfolding text_eq starts_with strip lstrip split splitlines is_space is_line_end lookup has_key
    lowest highest insert sort median_sorted median mem same_set has_column runs_schema
    Rows.is_recorded Rows.recorded Gates.sole Gates.check_batches Gates.check_sha
    Gates.check_configs Gates.check_arms Gates.check_steal Gates.check_fields Gates.connect_medians
    Gates.check_connect Gates.has_row Gates.is_phase Validate.check_schema Validate.artifacts_from
    Validate.linux_artifacts Validate.check_kernels Validate.e4_median Validate.check_faster
    Validate.check_t48_phases Validate.check_rows validate_t48
program = tt

abbrev row : Text → Text → Text → ℕ → Row
row sys cfg kernel e4 = record {
  batch_id = codes "b-1";
  trial = codes "4";
  config = cfg;
  system = sys;
  git_sha = codes "1005399";
  bios_sha256 = [];
  kernel_sha256 = kernel;
  canary_stvec = [];
  canary_pv = [];
  warmup = 0;
  dirty = 0;
  steal_ticks = 0;
  e0_to_e4_ns = e4;
  e0_to_first_connect_ns = 1_000_000;
  w_ns = none;
  synack_to_http_ns = none;
  d_fin_ns = none;
  controls =
      (codes "virt", codes "none")
      ∷ (codes "governor", codes "performance")
      ∷ (codes "smt_control", codes "off")
      ∷ (codes "cpufreq_boost", codes "0")
      ∷ [];
}

abbrev rows : ℕ → List Row
rows trimmed =
    row (codes "whimbrel") fast (codes "k") 29_000_000
    ∷ row (codes "whimbrel") safe (codes "k") 90_000_000
    ∷ row (codes "linux") (codes "trimmed") (codes "bb") trimmed
    ∷ row (codes "linux") (codes "trimmed-instrumented") (codes "bb") 260_000_000
    ∷ row (codes "linux") (codes "stock") (codes "aa") 700_000_000
    ∷ []

abbrev cell : Text → PhaseCell
cell cfg = record {
  batch_id = codes "b-1";
  trial = codes "4";
  config = cfg;
  system = codes "whimbrel";
  phase = codes "E3g";
  warmup = 0;
  ns_since_e2 = some 10_000_000;
}

abbrev manifest : Text
manifest =
    codes
      "# built once\nartifact Image-stock aa\n  artifact Image-trimmed bb\nartifact rootfs.cpio cc\nartifact init dd\n"

abbrev columns : List Text
columns = codes "w_ns" ∷ codes "d_ack_ns" ∷ codes "d_fin_ns" ∷ []

abbrev batches : List Text
batches = codes "b-1" ∷ []

abbrev phases : List PhaseCell
phases = cell fast ∷ cell safe ∷ []

passes : validate_t48 batches (codes "1005") 1 manifest columns (rows 250_000_000) phases ≡ ok tt
unfolding program
passes = refl

slow :
    validate_t48 batches (codes "1005") 1 manifest columns (rows 700_000_000) phases
    ≡ err not_faster
unfolding program
slow = refl

-- The same campaign with a canary and without the probe.
abbrev with_canary : Row → Row
with_canary r = record r { canary_stvec = codes "1170000"; canary_pv = codes "16200000" }

abbrev unprobed_manifest : Text
unprobed_manifest =
    manifest
    ++ codes
        "append quiet quiet unaligned_scalar_speed=fast\nappend instrumented  unaligned_scalar_speed=fast debug\n"

abbrev earlier_rows : List Row
earlier_rows =
    row (codes "linux") (codes "trimmed") (codes "bb") 270_000_000
    ∷ row (codes "linux") (codes "stock") (codes "aa") 720_000_000
    ∷ []

abbrev canary_columns : List Text
canary_columns = codes "canary_stvec_ns" ∷ codes "canary_page_verify_ns" ∷ columns

abbrev unprobed_rows : List Row
unprobed_rows = map with_canary (rows 250_000_000)
