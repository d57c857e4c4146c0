-- ===== src/Bench/RowExamples.antt =====
-- A batch of two arms, through the gates on its rows.
use whimbrel.Prelude.{ℕ, String}
use whimbrel.Prelude.{◌≡◌, refl, ◌↔◌}
use whimbrel.Prelude.{false, some}
use whimbrel.Prelude.{List, [], ◌∷◌}
use whimbrel.Prelude.{All}
use whimbrel.Prelude.{ok, err}
use whimbrel.Prelude.Extrema
use whimbrel.Prelude.Text.{Text, codes, text_eq, text_leb}
use whimbrel.Prelude.Sort.{sort}
use whimbrel.Prelude.Dict.{lookup}
use whimbrel.Stats.Percentile.{median, median_sorted}
use whimbrel.Bench.Failure.{connect_span}
use whimbrel.Bench.Connect
use whimbrel.Bench.Connect.{
  RunRow, by_batch, by_key, require_first_connect_control, runs_schema, old, require_zero_steal,
  Schema,
}
use whimbrel.Bench.Span.{IsSteady, require_first_connect_control_iff}
use whimbrel.Bench.Connect.{has_column, has_steal, new}
use whimbrel.Bench.Aggregate.{
  AggRow, unanimous, check_control, check_controls, is_recorded, check_recorded,
  assert_aggregatable,
}
use whimbrel.Bench.Uniform.{IsAggregatable, assert_aggregatable-IsAggregatable}
use whimbrel.Prelude.{keep, false}
use whimbrel.Bench.Failure.{sha_mismatch}

program : Unit {0}
unfolding text_eq text_leb sort lookup median median_sorted Connect.has_column runs_schema unanimous
    check_control check_controls is_recorded check_recorded assert_aggregatable require_zero_steal
    Connect.append_value Connect.append_in Connect.batch_of Connect.by_batch_from Connect.medians
    Extrema.lowest Extrema.highest Connect.check_span Connect.check_batch Connect.check_batches
    by_batch require_first_connect_control
program = tt

abbrev row : String → String → ℕ → ℕ → RunRow
row batch config warmup connect = record {
  batch_id = some (codes batch);
  config = codes config;
  trial = 1;
  warmup = warmup;
  steal_ticks = some 0;
  e0_to_first_connect_ns = connect;
}

-- The warmup is slow and does not count.
abbrev close_rows : List RunRow
close_rows =
    row "d-1" "stock" 1 90_000_000
    ∷ row "d-1" "stock" 0 20_000_000
    ∷ row "d-1" "trimmed" 0 20_900_000
    ∷ row "d-1" "stock" 0 20_100_000
    ∷ row "d-2" "stock" 0 50_000_000
    ∷ []

passes : require_first_connect_control close_rows ≡ ok tt
unfolding program
passes = refl

far :
    require_first_connect_control (row "d-1" "m-fast" 0 19_000_000 ∷ close_rows) ≡ err connect_span
unfolding program
far = refl

old_file : runs_schema (codes "trial" ∷ codes "e0_to_e3w_ns" ∷ []) ≡ ok old
unfolding program
old_file = refl

require_first_connect_control_iff_example :
    (require_first_connect_control close_rows ≡ ok tt)
    ↔ All IsSteady (sort by_key (by_batch close_rows))
require_first_connect_control_iff_example = require_first_connect_control_iff close_rows

abbrev old_fields : List Text
old_fields = codes "trial" ∷ codes "e0_to_e3w_ns" ∷ []

old_schema : runs_schema old_fields ≡ ok old
unfolding program
old_schema = refl

abbrev one : RunRow
one = row "d-1" "stock" 1 90_000_000

no_steal : require_zero_steal (one ∷ []) ≡ ok tt
unfolding program
no_steal = refl

abbrev agg : ℕ → String → AggRow
agg warmup sha = record {
  warmup = warmup;
  dirty = 0;
  qemu_version = codes "9.2";
  git_sha = codes sha;
  controls = (codes "governor", codes "performance") ∷ (codes "virt", codes "none") ∷ [];
}

abbrev new_fields : List Text
new_fields = codes "w_ns" ∷ codes "d_ack_ns" ∷ codes "d_fin_ns" ∷ codes "governor" ∷ []

-- A warmup may be of another commit.
abbrev agg_rows : List AggRow
agg_rows = agg 1 "beef" ∷ agg 0 "cafe" ∷ agg 0 "cafe" ∷ []

aggregatable : assert_aggregatable new_fields false agg_rows ≡ ok tt
unfolding program
aggregatable = refl

two_trees : assert_aggregatable new_fields false (agg 0 "beef" ∷ agg_rows) ≡ err sha_mismatch
unfolding program
two_trees = refl

assert_aggregatable-IsAggregatable_example : IsAggregatable false (keep is_recorded agg_rows)
assert_aggregatable-IsAggregatable_example =
    assert_aggregatable-IsAggregatable new_fields false agg_rows aggregatable
