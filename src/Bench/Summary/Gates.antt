-- ===== src/Bench/Summary/Gates.antt =====
-- `trimmed_vs_stock_failures` and `d0081_delta_failures` of scripts/bench.py, and the comparison of the
-- last two batches of each arm in `cmd_summarize`. Medians are twofold.
use whimbrel.Prelude.{ℕ}
use whimbrel.Prelude.{Bool, true, false, ◌&&◌, ◌||◌, not, Option, none, some}
use whimbrel.Prelude.{List, [], ◌∷◌, ◌++◌, map, reverse}
use whimbrel.Prelude.{◌==◌, leb, if◌then◌else◌}
use whimbrel.Prelude.{all, any, keep}
use whimbrel.Prelude.{Result, ok, err, ◌>>=◌}
use whimbrel.Prelude.Text.{Text, codes, text_eq, text_leb}
use whimbrel.Prelude.Int.{ℤ, negsuc, sub_ℕ, ltb_ℤ}
use whimbrel.Prelude.Dict.{Dict, lookup}
use whimbrel.Prelude.Sort.{sort}
use whimbrel.Prelude.Grouping.{Group, group_by}
use whimbrel.Stats.Percentile.{median}
use whimbrel.Stats.Stability.{Drift, values_of, compare_stability}
use whimbrel.Bench.Failure.{BenchFail, not_comparable}
use whimbrel.Bench.Hashes.{HashFailure}

-- `(batch_id, system, config)`
pub record ArmKey : Type 0 where
  pub batch : Text
  pub system : Text
  pub config : Text

-- An entry of `metric_by_group`.
pub record ArmMetrics : Type 0 where
  pub arm : ArmKey
  pub metrics : Dict (List ℕ)

-- A line of `failed`.
pub data SummaryFailure : Type 0 where
  slow_trimmed : Text → ℕ → ℕ → SummaryFailure
  off_pin : Text → ℕ → SummaryFailure
  bad_hash : HashFailure → SummaryFailure
  few_batches : Text → SummaryFailure
  unstable : Text → Text → Text → List Drift → SummaryFailure

abbrev pub e4_values : ArmMetrics → List ℕ
e4_values g = values_of (codes "e0_to_e4_ns") g.metrics

abbrev pub is_linux_arm : ArmMetrics → Bool
is_linux_arm g = text_eq g.arm.system (codes "linux")

-- The loop that fills `by_batch`: batch, arm and median of each Linux group that has values.
unfoldable pub linux_medians : List ArmMetrics → List (Text × (Text × ℕ))
linux_medians [] = []
linux_medians (g ∷ groups) =
    let rest = linux_medians groups in
    if is_linux_arm g
    then elim (median (e4_values g)) [
      | none ↦ rest
      | some m ↦ (g.arm.batch, (g.arm.config, m)) ∷ rest
    ]
    else rest

unfoldable pub trimmed_failure : Text → Option ℕ → Option ℕ → List SummaryFailure
trimmed_failure batch none stock = []
trimmed_failure batch (some t) none = []
trimmed_failure batch (some t) (some s) = if leb s t then slow_trimmed batch t s ∷ [] else []

-- `by_batch`, and the dictionary of a batch, where the last of equal keys holds.
unfoldable pub linux_batches : List ArmMetrics → List (Group Text (Text × ℕ))
linux_batches groups =
    group_by text_eq (λ (v : Text × (Text × ℕ)). v.0) (λ (v : Text × (Text × ℕ)). v.1)
      (linux_medians groups)

abbrev pub median_in : Text → List (Text × ℕ) → Option ℕ
median_in config cfgs = lookup config (reverse cfgs)

unfoldable pub batch_failures : List (Group Text (Text × ℕ)) → List SummaryFailure
batch_failures [] = []
batch_failures (b ∷ batches) =
    trimmed_failure b.key (median_in (codes "trimmed") b.members)
      (median_in (codes "stock") b.members)
    ++ batch_failures batches

unfoldable pub trimmed_vs_stock_failures : List ArmMetrics → List SummaryFailure
trimmed_vs_stock_failures groups = batch_failures (linux_batches groups)

-- 284 684 221.5 ns and 948 101 400 ns, twofold.
abbrev pub t48b_linux_e0_e4 : List (Text × ℕ)
t48b_linux_e0_e4 = (codes "trimmed", 569_368_443) ∷ (codes "stock", 1_896_202_800) ∷ []

-- -27 ms and -16 ms, twofold.
abbrev pub d0081_delta_lo : ℤ
d0081_delta_lo = negsuc 53_999_999

abbrev pub d0081_delta_hi : ℤ
d0081_delta_hi = negsuc 31_999_999

abbrev pub is_linux_config : Text → ArmMetrics → Bool
is_linux_config config g = is_linux_arm g && text_eq g.arm.config config

unfoldable pub concatenated : List (List ℕ) → List ℕ
concatenated [] = []
concatenated (vals ∷ more) = vals ++ concatenated more

-- `by_cfg[cfg]`: the values of an arm over all batches.
unfoldable pub pinned_values : Text → List ArmMetrics → List ℕ
pinned_values config groups = concatenated (map e4_values (keep (is_linux_config config) groups))

unfoldable pub delta_failure : Text → ℕ → Option ℕ → List SummaryFailure
delta_failure config pin none = []
delta_failure config pin (some med) =
    if ltb_ℤ (sub_ℕ med pin) d0081_delta_lo || ltb_ℤ d0081_delta_hi (sub_ℕ med pin)
    then off_pin config med ∷ []
    else []

unfoldable pub pin_failures : List ArmMetrics → List (Text × ℕ) → List SummaryFailure
pin_failures groups [] = []
pin_failures groups ((config, pin) ∷ pins) =
    delta_failure config pin (median (pinned_values config groups)) ++ pin_failures groups pins

unfoldable pub d0081_delta_failures : List ArmMetrics → List SummaryFailure
d0081_delta_failures groups = pin_failures groups t48b_linux_e0_e4

abbrev pub BatchMetrics : Type 0
BatchMetrics = Text × Dict (List ℕ)

abbrev pub by_batch_id : BatchMetrics → BatchMetrics → Bool
by_batch_id (a, d) (b, e) = text_leb a b

-- `items[-2], items[-1]`
unfoldable pub last_two : List BatchMetrics → Option (BatchMetrics × BatchMetrics)
last_two [] = none
last_two (a ∷ []) = none
last_two (a ∷ b ∷ []) = some (a, b)
last_two (a ∷ b ∷ c ∷ items) = last_two (b ∷ c ∷ items)

abbrev pub pair_failures : Text → Text → Text → List Drift → List SummaryFailure
pair_failures config a b [] = []
pair_failures config a b (d ∷ drifts) = unstable config a b (d ∷ drifts) ∷ []

unfoldable pub verdict_failures : Text → Option (BatchMetrics × BatchMetrics) → List SummaryFailure
verdict_failures config none = few_batches config ∷ []
verdict_failures config (some ((a, d), (b, e))) = pair_failures config a b (compare_stability d e)

unfoldable same_values : List ℕ → List ℕ → Bool
same_values [] [] = true
same_values [] (n ∷ ns) = false
same_values (m ∷ ms) [] = false
same_values (m ∷ ms) (n ∷ ns) = (m == n) && same_values ms ns

abbrev same_cell : Option (List ℕ) → Option (List ℕ) → Bool
same_cell none none = true
same_cell none (some vs) = false
same_cell (some us) none = false
same_cell (some us) (some vs) = same_values us vs

-- `==` of two dictionaries.
unfoldable pub same_table : Dict (List ℕ) → Dict (List ℕ) → Bool
unfolding lookup same_values
same_table d e =
    all (λ (name, v). same_cell (lookup name d) (lookup name e)) d
    && all (λ (name, v). same_cell (lookup name d) (lookup name e)) e

-- Sorting compares two items of one batch by their dictionaries, which have no order unless they
-- are equal.
unfoldable pub repeats_batch : List BatchMetrics → Bool
repeats_batch [] = false
repeats_batch ((a, d) ∷ items) =
    any (λ (b, e). text_eq a b && not (same_table d e)) items || repeats_batch items

unfoldable pub arm_failures :
    List (Group Text BatchMetrics) → Result BenchFail (List SummaryFailure)
arm_failures [] = ok []
arm_failures (g ∷ arms) =
    let rest = arm_failures arms in
    if repeats_batch g.members then err not_comparable else (do
      more ← rest
      ok (verdict_failures g.key (last_two (sort by_batch_id g.members)) ++ more))

abbrev pub by_name : Group Text BatchMetrics → Group Text BatchMetrics → Bool
by_name g h = text_leb g.key h.key

-- `by_cfg`
unfoldable pub batches_by_config : List ArmMetrics → List (Group Text BatchMetrics)
batches_by_config groups =
    group_by text_eq (λ (g : ArmMetrics). g.arm.config)
      (λ (g : ArmMetrics). (g.arm.batch, g.metrics)) groups

unfoldable pub stability_failures : List ArmMetrics → Result BenchFail (List SummaryFailure)
stability_failures groups = arm_failures (sort by_name (batches_by_config groups))
