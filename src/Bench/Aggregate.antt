-- ===== src/Bench/Aggregate.antt =====
-- `assert_aggregatable` of scripts/bench.py: rows of one machine, one tree and one QEMU.
use whimbrel.Prelude.{ℕ}
use whimbrel.Prelude.{Bool, false, ◌||◌, not, none, some}
use whimbrel.Prelude.{List, [], ◌∷◌}
use whimbrel.Prelude.{◌==◌, if◌then◌else◌, is_some}
use whimbrel.Prelude.{all, keep}
use whimbrel.Prelude.{Result, ok, err, ◌>>=◌, ◌>>◌, guard}
use whimbrel.Prelude.Text.{Text, codes, text_eq}
use whimbrel.Prelude.Dict.{Dict, lookup}
use whimbrel.Bench.Failure.{
  BenchFail, zero_trials, no_recorded, dirty_row, qemu_mismatch, sha_mismatch, control_mismatch,
}
use whimbrel.Bench.Connect.{runs_schema}

-- The columns that the function reads; `controls` has those of the five that the file has.
pub record AggRow : Type 0 where
  pub warmup : ℕ
  pub dirty : ℕ
  pub qemu_version : Text
  pub git_sha : Text
  pub controls : Dict Text

-- `len(vals) == 1` of the set of a column over rows that are not empty.
unfoldable pub unanimous : {A : Type 0} → (A → Text) → List A → Bool
unanimous column [] = false
unanimous column (r ∷ rows) = all (λ q. text_eq (column q) (column r)) rows

-- `r[field]` over all rows: they have the keys of the first.
abbrev pub control_of : Text → AggRow → Text
control_of field r = elim (lookup field r.controls) [ none ↦ [] | some v ↦ v ]

-- One turn of the loop over the control columns.
unfoldable pub check_control : List AggRow → Text → Result BenchFail (Unit {0})
check_control [] field = ok tt
check_control (r ∷ rows) field =
    if not (is_some (lookup field r.controls))
    then ok tt
    else guard (unanimous (control_of field) (r ∷ rows)) (control_mismatch field)

unfoldable pub check_controls : List AggRow → List Text → Result BenchFail (Unit {0})
check_controls rows [] = ok tt
check_controls rows (field ∷ fields) = do check_control rows field; check_controls rows fields

abbrev pub control_fields : List Text
control_fields =
    codes "governor"
    ∷ codes "smt_control"
    ∷ codes "cpufreq_boost"
    ∷ codes "virt"
    ∷ codes "steal_start_ticks"
    ∷ []

unfoldable pub is_recorded : AggRow → Bool
is_recorded r = r.warmup == 0

unfoldable pub check_recorded : Bool → List AggRow → Result BenchFail (Unit {0})
check_recorded allow_dirty [] = err no_recorded
check_recorded allow_dirty (r ∷ rows) = do
  guard (all (λ (q : AggRow). (q.dirty == 0) || allow_dirty) (r ∷ rows)) dirty_row
  guard (unanimous (λ (q : AggRow). q.qemu_version) (r ∷ rows)) qemu_mismatch
  guard (unanimous (λ (q : AggRow). q.git_sha) (r ∷ rows)) sha_mismatch
  check_controls (r ∷ rows) control_fields

-- `columns` are the keys of the first row.
unfoldable pub assert_aggregatable : List Text → Bool → List AggRow → Result BenchFail (Unit {0})
assert_aggregatable columns allow_dirty [] = err zero_trials
assert_aggregatable columns allow_dirty (r ∷ runs) = do
  schema ← runs_schema columns
  check_recorded allow_dirty (keep is_recorded (r ∷ runs))
