-- ===== src/Bench/Connect.antt =====
-- `require_first_connect_control`, `require_zero_steal` and `runs_schema` of scripts/bench.py: gates on
-- the rows of runs.csv.
use whimbrel.Prelude.Extrema.{lowest, highest}
use whimbrel.Prelude.{ℕ, ◌-◌, ◌*◌}
use whimbrel.Prelude.{Bool, false, ◌&&◌, ◌||◌, not, Option, none, some}
use whimbrel.Prelude.{List, [], ◌∷◌, ◌++◌}
use whimbrel.Prelude.{ltb, leb, ◌==◌, if◌then◌else◌, is_some}
use whimbrel.Prelude.{length, any, keep}
use whimbrel.Prelude.{Result, ok, err, ◌>>=◌, ◌>>◌, guard}
use whimbrel.Prelude.Text.{Text, codes, text_eq, text_leb}
use whimbrel.Prelude.Sort.{sort}
use whimbrel.Prelude.Dict.{Dict}
use whimbrel.Stats.Percentile.{median}
use whimbrel.Bench.Failure.{
  BenchFail, mixed_schema, partial_schema, incomplete_schema, steal_in_row, no_median, connect_span,
}

-- The columns that these gates read; `steal_ticks` is `none` where the file has no such column.
pub record RunRow : Type 0 where
  pub batch_id : Option Text
  pub config : Text
  pub trial : ℕ
  pub warmup : ℕ
  pub steal_ticks : Option ℕ
  pub e0_to_first_connect_ns : ℕ

unfoldable pub has_column : List Text → Text → Bool
has_column fields name = any (λ f. text_eq f name) fields

pub data Schema : Type 0 where
  old : Schema
  new : Schema

unfoldable pub runs_schema : List Text → Result BenchFail Schema
runs_schema fields =
    let w = has_column fields (codes "w_ns") in
    let d_ack = has_column fields (codes "d_ack_ns") in
    let d_fin = has_column fields (codes "d_fin_ns") in
    let has_e3w = has_column fields (codes "e0_to_e3w_ns") in
    let has_new = w && d_ack && d_fin in
    if has_e3w && has_new
    then err mixed_schema
    else if has_e3w
    then (if w || d_ack || d_fin then err partial_schema else ok old)
    else if has_new
    then ok new
    else err incomplete_schema

-- `int(r["steal_ticks"]) != 0`
abbrev pub has_steal : RunRow → Bool
has_steal r = elim r.steal_ticks [ none ↦ false | some n ↦ not (n == 0) ]

abbrev pub first_stolen : List RunRow → Result BenchFail (Unit {0})
first_stolen [] = ok tt
first_stolen (r ∷ bad) = err (steal_in_row r.config r.trial)

unfoldable pub require_zero_steal : List RunRow → Result BenchFail (Unit {0})
require_zero_steal [] = ok tt
require_zero_steal (r ∷ rows) =
    if not (is_some r.steal_ticks) then ok tt else first_stolen (keep has_steal (r ∷ rows))

-- `d.setdefault(k, []).append(v)`
unfoldable pub append_value : Text → ℕ → Dict (List ℕ) → Dict (List ℕ)
append_value k v [] = (k, v ∷ []) ∷ []
append_value k v ((j, vs) ∷ d) =
    let rest = append_value k v d in if text_eq j k then (j, vs ++ v ∷ []) ∷ d else (j, vs) ∷ rest

-- `d.setdefault(b, {}).setdefault(c, []).append(v)`
unfoldable pub append_in : Text → Text → ℕ → Dict (Dict (List ℕ)) → Dict (Dict (List ℕ))
unfolding append_value
append_in b c v [] = (b, append_value c v []) ∷ []
append_in b c v ((j, e) ∷ d) =
    let rest = append_in b c v d in
    if text_eq j b then (j, append_value c v e) ∷ d else (j, e) ∷ rest

-- `r.get("batch_id") or "_"`
unfoldable pub batch_of : RunRow → Text
batch_of r = elim r.batch_id [ none ↦ codes "_" | some b ↦ if length b == 0 then codes "_" else b ]

-- The loop over the recorded rows.
unfoldable pub by_batch_from : Dict (Dict (List ℕ)) → List RunRow → Dict (Dict (List ℕ))
by_batch_from d [] = d
by_batch_from d (r ∷ rows) =
    by_batch_from (append_in (batch_of r) r.config r.e0_to_first_connect_ns d) rows

-- `statistics.median` of each value, twofold.
unfoldable pub medians : Dict (List ℕ) → Result BenchFail (List ℕ)
medians [] = ok []
medians ((c, vs) ∷ d) = do
  m ← elim (median vs) [ none ↦ err no_median | some m ↦ ok m ]
  ms ← medians d
  ok (m ∷ ms)

abbrev pub control_tol_ns : ℕ
control_tol_ns = 1_000_000

unfoldable pub check_span : List ℕ → Result BenchFail (Unit {0})
check_span [] = ok tt
check_span (m ∷ ms) = guard (leb (highest m ms - lowest m ms) (2 * control_tol_ns)) connect_span

unfoldable pub check_batch : Dict (List ℕ) → Result BenchFail (Unit {0})
check_batch by_cfg =
    if ltb (length by_cfg) 2 then ok tt else (do meds ← medians by_cfg; check_span meds)

unfoldable pub check_batches : Dict (Dict (List ℕ)) → Result BenchFail (Unit {0})
check_batches [] = ok tt
check_batches ((b, by_cfg) ∷ d) = do check_batch by_cfg; check_batches d

abbrev pub by_key : Text × Dict (List ℕ) → Text × Dict (List ℕ) → Bool
by_key (a, d) (b, e) = text_leb a b

unfoldable pub by_batch : List RunRow → Dict (Dict (List ℕ))
by_batch runs = by_batch_from [] (keep (λ (r : RunRow). r.warmup == 0) runs)

unfoldable pub require_first_connect_control : List RunRow → Result BenchFail (Unit {0})
unfolding sort
require_first_connect_control runs = check_batches (sort by_key (by_batch runs))
