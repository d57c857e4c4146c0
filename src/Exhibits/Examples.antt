-- ===== src/Exhibits/Examples.antt =====
-- A campaign of two batches and four arms that passes, and some that do not.
use whimbrel.Prelude.{ℕ}
use whimbrel.Prelude.{◌≡◌, refl}
use whimbrel.Prelude.{some}
use whimbrel.Prelude.{List, [], ◌∷◌, ◌++◌}
use whimbrel.Prelude.{ok, err}
use whimbrel.Prelude.Text.{Text, codes, text_eq, text_leb, starts_with}
use whimbrel.Prelude.Int.{pos, ◌+ℤ◌, ◌-ℤ◌}
use whimbrel.Prelude.Dict.{lookup}
use whimbrel.Prelude.Extrema.{lowest, highest}
use whimbrel.Prelude.Sort.{insert, sort}
use whimbrel.Stats.Percentile.{median_sorted, median}
use whimbrel.Stats.Signed.{median_sorted_ℤ, median_ℤ}
use whimbrel.Stats.Stability.{has_name, distinct_names}
use whimbrel.Pass.Campaign.{mem, same_set}
use whimbrel.Bench.Connect.{has_column, runs_schema}
use whimbrel.Exhibits.Rows
use whimbrel.Exhibits.Rows.{
  Row, PhaseCell, mixed_lanes, not_stable, startup_slower, safe, fast, m_safe, m_fast,
}
use whimbrel.Exhibits.Lanes
use whimbrel.Exhibits.Gates
use whimbrel.Exhibits.Validate
use whimbrel.Exhibits.Firmware
use whimbrel.Exhibits.Firmware.{validate_t47}
use whimbrel.Exhibits.Bound.{IsFirmware, validate_t47-IsFirmware}

program : Unit {0}
unfolding text_eq text_leb starts_with ◌+ℤ◌ ◌-ℤ◌ lookup lowest highest insert sort median_sorted
    median median_sorted_ℤ median_ℤ has_name distinct_names mem same_set has_column runs_schema
    Rows.is_recorded Rows.recorded Lanes.is_key Lanes.is_e3g_cell Lanes.e2e3g_vals
    Lanes.e2e3g_median Lanes.is_stable Lanes.batches_of Lanes.stable_in Lanes.require_e2e3g_stable
    Lanes.s_trial_ns Lanes.s_of Lanes.s_vals Lanes.s_median Lanes.require_delta_s_sane Gates.sole
    Gates.check_batches Gates.check_sha Gates.check_configs Gates.check_arms Gates.check_steal
    Gates.check_fields Gates.connect_medians Gates.check_connect Gates.has_canary Gates.check_canary
    Gates.has_row Gates.is_phase Validate.check_schema Validate.check_e3g Firmware.check_columns
    Firmware.check_lanes Firmware.check_bios Firmware.check_seams Firmware.check_lane
    Firmware.check_sane Firmware.check_t47_rows Firmware.check_t47_lanes validate_t47
program = tt

abbrev row : Text → Text → ℕ → Row
row batch cfg e4 = record {
  batch_id = batch;
  trial = codes "4";
  config = cfg;
  system = codes "whimbrel";
  git_sha = codes "94bad3b";
  bios_sha256 = codes "beef";
  kernel_sha256 = codes "cafe";
  canary_stvec = codes "1000";
  canary_pv = codes "16100";
  warmup = 0;
  dirty = 0;
  steal_ticks = 0;
  e0_to_e4_ns = e4;
  e0_to_first_connect_ns = 1_000_000;
  w_ns = some (pos 20_000_000);
  synack_to_http_ns = some (pos 1_000_000);
  d_fin_ns = some (pos 300_000);
  controls =
      (codes "virt", codes "none")
      ∷ (codes "governor", codes "performance")
      ∷ (codes "smt_control", codes "off")
      ∷ (codes "cpufreq_boost", codes "0")
      ∷ [];
}

abbrev arms_rows : Text → ℕ → List Row
arms_rows b e4 =
    row b fast 29_000_000 ∷ row b safe 29_000_000 ∷ row b m_fast e4 ∷ row b m_safe 29_000_000 ∷ []

abbrev cell : Text → Text → Text → ℕ → PhaseCell
cell batch cfg name ns = record {
  batch_id = batch;
  trial = codes "4";
  config = cfg;
  system = codes "whimbrel";
  phase = name;
  warmup = 0;
  ns_since_e2 = some ns;
}

abbrev seam : Text → Text → ℕ → List PhaseCell
seam b cfg ns =
    cell b cfg (codes "stvec") 10
    ∷ cell b cfg (codes "frame_init") 20
    ∷ cell b cfg (codes "E3g") ns
    ∷ []

abbrev batch_cells : Text → ℕ → List PhaseCell
batch_cells b ns = seam b fast ns ++ seam b safe ns ++ seam b m_fast ns ++ seam b m_safe ns

abbrev columns : List Text
columns =
    codes "w_ns"
    ∷ codes "d_ack_ns"
    ∷ codes "d_fin_ns"
    ∷ codes "canary_stvec_ns"
    ∷ codes "canary_page_verify_ns"
    ∷ []

abbrev batches : List Text
batches = codes "b-1" ∷ codes "b-2" ∷ []

abbrev rows : ℕ → List Row
rows e4 = arms_rows (codes "b-1") e4 ++ arms_rows (codes "b-2") e4

abbrev phases : ℕ → List PhaseCell
phases ns = batch_cells (codes "b-1") 10_000_000 ++ batch_cells (codes "b-2") ns

passes : validate_t47 batches (codes "94ba") 2 columns (rows 28_900_000) (phases 10_100_000) ≡ ok tt
unfolding program
passes = refl

drifts :
    validate_t47 batches (codes "94ba") 2 columns (rows 28_900_000) (phases 10_300_000)
    ≡ err (not_stable fast)
unfolding program
drifts = refl

slower :
    validate_t47 batches (codes "94ba") 2 columns (rows 29_400_000) (phases 10_100_000)
    ≡ err startup_slower
unfolding program
slower = refl

validate_t47-IsFirmware_example :
    IsFirmware batches (codes "94ba") 2 (rows 28_900_000) (phases 10_100_000)
validate_t47-IsFirmware_example =
    validate_t47-IsFirmware batches (codes "94ba") 2 columns (rows 28_900_000) (phases 10_100_000)
      passes
