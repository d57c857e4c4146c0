-- ===== src/Witness/Examples.antt =====
-- Campaigns whose canary is off, whose first warmup dips, and whose rows are uniform.
use whimbrel.Prelude.{ℕ, ◌+◌, ◌*◌, ◌/◌}
use whimbrel.Prelude.{◌≡◌, refl, ◌↔◌}
use whimbrel.Prelude.{true, false, none, some}
use whimbrel.Prelude.{List, [], ◌∷◌, ◌++◌}
use whimbrel.Prelude.{length, All}
use whimbrel.Prelude.{Result, ok, err}
use whimbrel.Prelude.Text.{Text, codes, text_eq, text_leb, contains, strip_prefix}
use whimbrel.Prelude.Extrema.{lowest, highest}
use whimbrel.Prelude.Sort.{insert, sort}
use whimbrel.Stats.Percentile.{median_sorted, median}
use whimbrel.Stats.Stability.{has_name, distinct_names}
use whimbrel.Witness.Rows.{
  RunLine, PhaseLine, wrong_trials, safe_arm, regime_side, inflated, is_dip,
}
use whimbrel.Witness.Join
use whimbrel.Witness.Join.{Join, warmup_join}
use whimbrel.Witness.Campaign
use whimbrel.Witness.Campaign.{Camp, recorded_pv, campaign}
use whimbrel.Witness.Classify.{
  yes, disagree, canary_side, family_corroborated, verdict_of, classify_row,
}
use whimbrel.Witness.Positions
use whimbrel.Witness.Positions.{Named, fmt_wu}
use whimbrel.Witness.Finding
use whimbrel.Witness.Finding.{Structure, structural_finding}
use whimbrel.Witness.Summary.{classify_row-uniform_iff}
use whimbrel.Witness.Structure.{IsStructure, structural_finding-IsStructure}

program : Unit {0}
unfolding text_eq text_leb contains strip_prefix lowest highest insert sort median_sorted median
    has_name distinct_names regime_side is_dip Join.put Join.get Join.is_warmup_pv Join.pv_from
    Join.pv_map Join.trials_of Join.batch_row Join.batch_rows Join.arm_warmups Join.is_warmup_run
    Join.gaps_after Join.all_gaps Join.batches_of Join.join_batches warmup_join
    Campaign.is_recorded_run Campaign.is_recorded_pv recorded_pv Campaign.with_recorded campaign
    canary_side family_corroborated verdict_of classify_row Positions.others Positions.first_dips
    Positions.first_of Positions.instants_of_join Positions.not_instant Positions.m_dips fmt_wu
    Positions.gaps_where Finding.cluster_of_join Finding.cluster_of_row Finding.cluster_of
    Finding.second_first Finding.all_outside Finding.disagrees Finding.finding structural_finding
program = tt

abbrev run_line : Text → Text → ℕ → ℕ → RunLine
run_line warmup batch trial order = record {
  warmup = warmup;
  config = safe_arm;
  kernel = codes "k";
  batch_id = batch;
  trial = trial;
  run_order = order;
  e0_mono_ns = 1_000_000_000 * order;
  e0_to_e4_ns = 50_000_000;
  canary = some 12_000_000;
}

abbrev phase_line : Text → Text → ℕ → ℕ → PhaseLine
phase_line warmup batch trial ns = record {
  batch_id = batch;
  trial = trial;
  warmup = warmup;
  config = safe_arm;
  phase = codes "page_verify";
  delta_ns = ns;
}

abbrev batch_runs : Text → List RunLine
batch_runs b =
    run_line (codes "1") b 2 2
    ∷ run_line (codes "1") b 1 1
    ∷ run_line (codes "1") b 3 3
    ∷ run_line (codes "0") b 4 4
    ∷ []

abbrev batch_phases : Text → ℕ → List PhaseLine
batch_phases b first =
    phase_line (codes "1") b 1 first
    ∷ phase_line (codes "1") b 2 16_200_000
    ∷ phase_line (codes "1") b 3 16_100_000
    ∷ phase_line (codes "0") b 4 16_300_000
    ∷ []

abbrev runs : List RunLine
runs = batch_runs (codes "b-1") ++ batch_runs (codes "b-2")

abbrev phases : List PhaseLine
phases = batch_phases (codes "b-1") 16_300_000 ++ batch_phases (codes "b-2") 12_400_000

abbrev or_camp : {E : Type 0} → Camp → Result E Camp → Camp
or_camp c (err e) = c
or_camp c (ok d) = d

abbrev no_camp : Camp
no_camp = record {
  kernel = [];
  n = 0;
  med = 0;
  lo = 0;
  hi = 0;
  canary = none;
  batches = [];
  warmup = none;
}

abbrev camp : Camp
camp = or_camp no_camp (campaign runs phases)

camp_is : campaign runs phases ≡ ok camp
unfolding program
camp_is = refl

-- Half a microsecond and more is printed as the next one.
abbrev printed : ℕ → ℕ
printed ns = (ns + 500) / 1000

cells :
    classify_row printed (codes "aborted") camp true
    ≡ record { regime = some inflated; uniform = yes; verdict = disagree }
unfolding program
cells = refl

-- The first warmup of the second batch dips below the others.
bold :
    fmt_wu (12_400_000 ∷ 16_200_000 ∷ []) ((12_400_000 ∷ 16_200_000 ∷ 16_300_000 ∷ []) ∷ []) 0 0
    ≡ (12_400_000, true) ∷ (16_200_000, false) ∷ []
unfolding program
bold = refl

incomplete :
    campaign runs (phase_line (codes "1") (codes "b-1") 4 5 ∷ phases)
    ≡ err (wrong_trials (codes "b-1") (1 ∷ 2 ∷ 3 ∷ 4 ∷ []))
unfolding program
incomplete = refl

classify_row-uniform_iff_example :
    ((classify_row printed (codes "aborted") camp true).uniform ≡ yes)
    ↔ All
        (λ v.
          some (regime_side (2 * v)) ≡ (classify_row printed (codes "aborted") camp true).regime)
        (recorded_pv phases)
classify_row-uniform_iff_example =
    classify_row-uniform_iff printed (codes "aborted") runs phases camp camp_is

abbrev named_rows : List Named
named_rows = record { label = codes "t47b"; camp = camp } ∷ []

abbrev times : Structure → List ℕ
times f = f.clo ∷ f.chi ∷ length f.cluster ∷ length f.b2_outside ∷ length f.instants ∷ []

abbrev or_structure : {E : Type 0} → Structure → Result E Structure → Structure
or_structure f (err e) = f
or_structure f (ok g) = g

abbrev no_structure : Structure
no_structure = record {
  cluster = [];
  clo = 0;
  chi = 0;
  b2_outside = [];
  disagreeing = [];
  instants = [];
  m_lane = [];
  dip_gaps = [];
  other_gaps = [];
}

abbrev structure : Structure
structure = or_structure no_structure (structural_finding named_rows)

found : structural_finding named_rows ≡ ok structure
unfolding program
found = refl

-- The canary and the first warmup of the second batch, and none outside.
bounds : times structure ≡ 12_000_000 ∷ 12_400_000 ∷ 2 ∷ 0 ∷ 1 ∷ []
unfolding program
bounds = refl

structural_finding-IsStructure_example : IsStructure named_rows structure
structural_finding-IsStructure_example = structural_finding-IsStructure named_rows structure found
