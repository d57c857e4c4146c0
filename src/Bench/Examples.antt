-- ===== src/Bench/Examples.antt =====
-- Runs of the campaign's schedule and arms, and their theorems at concrete campaigns.
use whimbrel.Prelude.{ℕ, ◌≡◌, refl, ◌↔◌, ◌&&◌, List, [], ◌∷◌, ok, if◌then◌else◌, reverse}
use whimbrel.Prelude.Text.{Text, codes, text_eq}
use mathlib.Core.List.{Perm, reverse_perm}
use whimbrel.Prelude.Text.{
  strip_prefix, starts_with, run, strip, lstrip, splitlines, is_space, is_digit, decimal,
}
use whimbrel.Prelude.{◌++◌, map, some, ◌*◌}
use whimbrel.Bench.PhaseRow
use whimbrel.Bench.PhaseRow.{PhaseRow, row_match}
use whimbrel.Bench.Phases
use whimbrel.Bench.Phases.{parse_phases}
use whimbrel.Bench.Dump.{IsDump, data_lines, parse_phases_iff}
use whimbrel.Bench.Arms.{configs_for, t48_arms}
use whimbrel.Bench.Launch.{AreLaunchable, configs_for-AreLaunchable}
use whimbrel.Bench.Schedule.{campaign_trials}
use whimbrel.Bench.Order.{times, is_row, in_range, times-campaign_trials}

program : Unit {0}
unfolding text_eq strip_prefix starts_with run strip lstrip splitlines is_space is_digit decimal
    PhaseRow.row_match PhaseRow.unset_match PhaseRow.clean PhaseRow.is_data Phases.row_then
    Phases.phase_rows Phases.named Phases.first_row Phases.last_row Phases.stamp_overhead_ns
    Phases.sum_upto Phases.assert_phases_sum_to_e3g Phases.check_rows parse_phases
program = tt

abbrev pub serial : Text
serial =
    codes "boot"
    ++ 10 ∷ codes "PHASE ticks (10 MHz)"
    ++ 10 ∷ codes "PHASE _start ticks=50 ns=5000 since_start=0 ns=0 delta=0 ns=0"
    ++ 13 ∷ 10 ∷ codes "PHASE stamp_a ticks=51 ns=5100 since_start=1 ns=100 delta=1 ns=100"
    ++ 13 ∷ 10 ∷ codes "PHASE stamp_b ticks=52 ns=5200 since_start=2 ns=200 delta=1 ns=100"
    ++ 13 ∷ 10 ∷ codes "PHASE E3g ticks=60 ns=6000 since_start=10 ns=1000 delta=8 ns=800"
    ++ 10 ∷ []

abbrev row : Text → ℕ → ℕ → ℕ → PhaseRow
row name ticks since delta = record {
  phase = name;
  ticks = ticks;
  ns_since_e2 = since * 100;
  delta_ticks = delta;
  delta_ns = delta * 100;
  since_ticks = since;
}

abbrev pub dumped : List PhaseRow
dumped =
    row (codes "_start") 50 0 0
    ∷ row (codes "stamp_a") 51 1 1
    ∷ row (codes "stamp_b") 52 2 1
    ∷ row (codes "E3g") 60 10 8
    ∷ []

parsed : parse_phases serial ≡ ok dumped
unfolding program
parsed = refl

parse_phases_iff_example :
    (parse_phases serial ≡ ok dumped)
    ↔ ((map some dumped ≡ map row_match (data_lines serial)) × IsDump dumped)
parse_phases_iff_example = parse_phases_iff serial dumped

configs_for-AreLaunchable_example : AreLaunchable (codes "bench/k") (codes "bench/c") t48_arms
unfolding configs_for text_eq
configs_for-AreLaunchable_example =
    configs_for-AreLaunchable (codes "/w") (codes "t48") (codes "bench/k") (codes "bench/c")
      t48_arms refl

-- A shuffle that reverses, and its promise.
abbrev turn : ℕ → List (Text × ℕ) → List (Text × ℕ)
turn seed xs = reverse xs

turn_rearranges : (seed : ℕ) (xs : List (Text × ℕ)) → Perm (turn seed xs) xs
turn_rearranges seed xs = reverse_perm xs

times-campaign_trials_example :
    times
      (is_row 2 (codes "stock") 3)
      (campaign_trials turn (codes "stock" ∷ codes "trimmed" ∷ []) 2 1 2 7)
    ≡ (if in_range 1 2 2 && in_range 1 3 3
        then times (λ cfg. text_eq cfg (codes "stock")) (codes "stock" ∷ codes "trimmed" ∷ [])
        else 0)
times-campaign_trials_example =
    times-campaign_trials turn turn_rearranges (codes "stock" ∷ codes "trimmed" ∷ []) 2 1 7 2
      (codes "stock") 3 2
