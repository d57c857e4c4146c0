-- ===== src/Stats/Examples.antt =====
-- Runs of the percentiles, and their theorems at concrete values.
use whimbrel.Prelude.{
  ℕ, ◌≤◌, ◌*◌, ◌+◌, ◌-◌, ◌≡◌, refl, List, [], ◌∷◌, some, arith, leb, length, get_or,
}
use whimbrel.Prelude.Sort.{sort}
use whimbrel.Prelude.{String, true, ◌↔◌}
use whimbrel.Prelude.Text.{Text, codes, text_eq, text_leb}
use whimbrel.Prelude.Dict.{Dict, lookup}
use whimbrel.Stats.Stability.{
  missing, moved, stability_tol, values_of, compare_medians, has_name, distinct_names, names_of,
  compare_names, compare_stability,
}
use whimbrel.Stats.StabilityLaws.{IsStable, is_metric, compare_stability_iff}
use whimbrel.Stats.Percentile.{
  median, median_sorted, percentile_at, percentile, pass_percentile, quartile_range, iqr,
}
use whimbrel.Stats.PercentileLaws.{pass_percentile-eq-percentile, percentile_at_mono, sort-Ascends}

abbrev walls : List ℕ
walls = 40 ∷ 10 ∷ 31 ∷ 20 ∷ []

quartiles_of_walls : iqr walls ≡ some 63
unfolding iqr quartile_range percentile_at sort
quartiles_of_walls = refl

middle_of_walls : median walls ≡ some 51
unfolding median median_sorted sort
middle_of_walls = refl

pass_percentile-eq-percentile_example :
    pass_percentile (10 ∷ 20 ∷ 31 ∷ 40 ∷ []) 3 ≡ percentile (10 ∷ 20 ∷ 31 ∷ 40 ∷ []) 3
pass_percentile-eq-percentile_example =
    pass_percentile-eq-percentile (10 ∷ 20 ∷ 31 ∷ 40 ∷ []) 3 (omega arith)

percentile_at_mono_example :
    (percentile_at (sort leb walls) 1 ≤ percentile_at (sort leb walls) 3)
    × (4 * get_or (sort leb walls) 0 0 ≤ percentile_at (sort leb walls) 1)
    × (percentile_at (sort leb walls) 3
        ≤ 4 * get_or (sort leb walls) (length (sort leb walls) - 1) 0)
unfolding sort
percentile_at_mono_example =
    percentile_at_mono (sort leb walls) 1 3 (sort-Ascends walls) (omega arith) (omega arith)
      (omega arith)

program : Unit {0}
unfolding text_eq text_leb lookup sort median median_sorted stability_tol compare_medians has_name
    distinct_names names_of compare_names compare_stability
program = tt

abbrev batch : String → ℕ → ℕ → Dict (List ℕ)
batch extra connect e4 =
    (codes "e0_to_first_connect_ns", connect ∷ [])
    ∷ (codes "e0_to_e4_ns", e4 ∷ (e4 + 50) ∷ [])
    ∷ (codes extra, 900_000 ∷ [])
    ∷ []

steady :
    compare_stability (batch "w_ns" 20_000_000 80_000_000) (batch "w_ns" 20_150_000 81_000_000) ≡ []
unfolding program
steady = refl

drifted :
    compare_stability (batch "w_ns" 20_000_000 80_000_000) (batch "d_ns" 20_500_000 80_000_000)
    ≡ missing (codes "d_ns")
      ∷ moved (codes "e0_to_first_connect_ns") 40_000_000 41_000_000
      ∷ missing (codes "w_ns")
      ∷ []
unfolding program
drifted = refl

compare_stability_iff_example :
    (compare_stability (batch "w_ns" 20_000_000 80_000_000) (batch "w_ns" 20_150_000 81_000_000)
      ≡ [])
    ↔ ((n : Text)
        → is_metric (batch "w_ns" 20_000_000 80_000_000) (batch "w_ns" 20_150_000 81_000_000) n
          ≡ true
        → IsStable
            (values_of n (batch "w_ns" 20_000_000 80_000_000))
            (values_of n (batch "w_ns" 20_150_000 81_000_000)))
compare_stability_iff_example =
    compare_stability_iff (batch "w_ns" 20_000_000 80_000_000) (batch "w_ns" 20_150_000 81_000_000)
