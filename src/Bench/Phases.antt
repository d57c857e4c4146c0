-- ===== src/Bench/Phases.antt =====
-- `parse_phases` and `assert_phases_sum_to_e3g` of scripts/bench.py: the boot phases of a trial.
use whimbrel.Prelude.{ℕ, max}
use whimbrel.Prelude.{Bool, ◌&&◌, not, Option, none, some}
use whimbrel.Prelude.{List, [], ◌∷◌, map}
use whimbrel.Prelude.{leb, if◌then◌else◌}
use whimbrel.Prelude.{any, keep, sum}
use whimbrel.Prelude.{Result, ok, err, ◌>>=◌, ◌>>◌, guard}
use whimbrel.Prelude.Text.{Text, codes, text_eq, splitlines}
use whimbrel.Prelude.Int.{sub_ℕ, abs}
use whimbrel.Bench.Failure.{
  BenchFail, phase_unset, phase_malformed, no_phases, first_phase, no_e3g, no_stamps, phase_sum,
  missing_phase,
}
use whimbrel.Bench.PhaseRow.{PhaseRow, row_match, unset_match, clean, is_data}

-- What a data line gives, and the rows of the lines after it.
unfoldable pub row_then : Text → Option Text → Option PhaseRow → Result BenchFail PhaseRow
row_then line (some name) row = err (phase_unset line)
row_then line none none = err (phase_malformed line)
row_then line none (some row) = ok row

unfoldable pub phase_rows : List Text → Result BenchFail (List PhaseRow)
unfolding row_then
phase_rows [] = ok []
phase_rows (raw ∷ lines) =
    let rest = phase_rows lines in
    let line = clean raw in
    if is_data line
    then (do row ← row_then line (unset_match line) (row_match line); rows ← rest; ok (row ∷ rows))
    else rest

-- `name in names`
unfoldable pub named : Text → List PhaseRow → Bool
named name rows = any (λ (r : PhaseRow). text_eq r.phase name) rows

-- `next(r for r in rows if r["phase"] == name)`
unfoldable pub first_row : Text → List PhaseRow → Option PhaseRow
first_row name [] = none
first_row name (r ∷ rows) = if text_eq r.phase name then some r else first_row name rows

-- `{r["phase"]: r for r in rows}.get(name)`: the last row of that name.
unfoldable pub last_row : Text → List PhaseRow → Option PhaseRow
last_row name [] = none
last_row name (r ∷ rows) = elim (last_row name rows) [
  | some later ↦ some later
  | none ↦ if text_eq r.phase name then some r else none
]

abbrev pub tick_ns : ℕ
tick_ns = 100

abbrev or_missing : {A : Type 0} → Text → Option A → Result BenchFail A
or_missing name none = err (missing_phase name)
or_missing name (some a) = ok a

unfoldable pub stamp_overhead_ns : List PhaseRow → Result BenchFail ℕ
stamp_overhead_ns rows = do
  b ← or_missing (codes "stamp_b") (last_row (codes "stamp_b") rows)
  ok (max b.delta_ns tick_ns)

-- The deltas up to and with the time `upto`.
unfoldable pub sum_upto : ℕ → List PhaseRow → ℕ
sum_upto upto rows =
    sum (map (λ (r : PhaseRow). r.delta_ns) (keep (λ (r : PhaseRow). leb r.ns_since_e2 upto) rows))

unfoldable pub assert_phases_sum_to_e3g : List PhaseRow → Result BenchFail ℕ
assert_phases_sum_to_e3g rows = do
  overhead ← stamp_overhead_ns rows
  e3g ← or_missing (codes "E3g") (first_row (codes "E3g") rows)
  let total = sum_upto e3g.ns_since_e2 rows
  guard (leb (abs (sub_ℕ total e3g.ns_since_e2)) overhead)
      (phase_sum total e3g.ns_since_e2 overhead)
  ok overhead

unfoldable pub check_rows : List PhaseRow → Result BenchFail (List PhaseRow)
check_rows [] = err no_phases
check_rows (r ∷ rest) = do
  guard (text_eq r.phase (codes "_start")) (first_phase r.phase)
  guard (named (codes "E3g") (r ∷ rest)) no_e3g
  guard (named (codes "stamp_a") (r ∷ rest) && named (codes "stamp_b") (r ∷ rest)) no_stamps
  overhead ← assert_phases_sum_to_e3g (r ∷ rest)
  ok (r ∷ rest)

unfoldable pub parse_phases : Text → Result BenchFail (List PhaseRow)
parse_phases serial = do rows ← phase_rows (splitlines serial); check_rows rows

unfoldable pub phases_from_serial : Text → Text → Result BenchFail (List PhaseRow)
phases_from_serial serial system =
    if not (text_eq system (codes "whimbrel")) then ok [] else parse_phases serial
