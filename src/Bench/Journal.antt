-- ===== src/Bench/Journal.antt =====
-- `one_trial` of scripts/bench.py and the loop of `cmd_run` that calls it: the rows that are written, and the
-- record of a trial that a gate has stopped.
use whimbrel.Prelude.{ℕ, suc}
use whimbrel.Prelude.{Bool, true, false}
use whimbrel.Prelude.{List, [], ◌∷◌, ◌++◌, map}
use whimbrel.Prelude.{Result, ok, err, ◌>>=◌, ◌>>◌, map_err}
use whimbrel.Prelude.Text.{Text}
use whimbrel.Prelude.Int.{sub_ℕ}
use whimbrel.Pcap.Tshark.{PcapError, key_error, value_error}
use whimbrel.Bench.Failure.{
  BenchFail, pcap_error, no_median, not_comparable, bad_number, missing_phase,
}
use whimbrel.Bench.PhaseRow.{PhaseRow}
use whimbrel.Bench.Host.{require_steal_delta_zero, steal_ticks_from_stat}
use whimbrel.Bench.Trial.{TrialResult}
use whimbrel.Bench.Schedule.{Trial, campaign_trials}

-- What a row of runs.csv has of its trial.
pub record RunEntry : Type 0 where
  pub trial : Trial
  pub run_order : ℕ
  pub result : TrialResult

-- A row of gate-failures.csv.
pub record GateFailure : Type 0 where
  pub trial : Trial
  pub run_order : ℕ
  pub gate : BenchFail

-- The counter, the rows of the two files, and the record of failures.
pub record Journal : Type 0 where
  pub run_order : ℕ
  pub run_rows : List RunEntry
  pub phase_rows : List (Trial × PhaseRow)
  pub failures : List GateFailure

abbrev pub no_rows : Journal
no_rows = record { run_order = 0; run_rows = []; phase_rows = []; failures = [] }

abbrev pub phase_entries : Trial → List PhaseRow → List (Trial × PhaseRow)
phase_entries t phases = map (λ p. (t, p)) phases

abbrev pub next_order : Journal → ℕ
next_order j = suc j.run_order

-- The row of a trial that has passed, and those of its phases.
unfoldable pub add_rows : Trial → TrialResult → Journal → Journal
add_rows t result j = record {
  run_order = next_order j;
  run_rows = j.run_rows ++ (record { trial = t; run_order = next_order j; result = result } ∷ []);
  phase_rows = j.phase_rows ++ phase_entries t result.phases;
  failures = j.failures;
}

unfoldable pub record_gate_failure : Trial → BenchFail → Journal → Journal
record_gate_failure t e j = record {
  run_order = next_order j;
  run_rows = j.run_rows;
  phase_rows = j.phase_rows;
  failures = j.failures ++ (record { trial = t; run_order = next_order j; gate = e } ∷ []);
}

abbrev pub count_trial : Journal → Journal
count_trial j = record j { run_order = next_order j }

-- An exception that ends the campaign, and what has been written before it.
pub record Abort : Type 0 where
  pub reason : BenchFail
  pub journal : Journal

-- A `PcapExtractError`, which `run_trial` makes a `BenchFail`.
abbrev pub is_extract_error : PcapError → Bool
is_extract_error (key_error name) = false
is_extract_error (value_error s) = false
is_extract_error e = true

-- What `except BenchFail` catches: not a `KeyError`, `ValueError`, `TypeError`, `StopIteration` or
-- `StatisticsError`, which are values of the same type here.
unfoldable pub is_caught : BenchFail → Bool
is_caught (pcap_error e) = is_extract_error e
is_caught no_median = false
is_caught not_comparable = false
is_caught (bad_number s) = false
is_caught (missing_phase name) = false
is_caught e = true

abbrev pub journal_with : Trial → BenchFail → Journal → Bool → Journal
journal_with t e j true = record_gate_failure t e j
journal_with t e j false = count_trial j

-- The machine's /proc/stat, and `run_trial` on the arm of a trial.
module _ {W : Type 0} (stat : W → Text × W)
    (run_trial : Trial → W → Result BenchFail TrialResult × W) where
  abbrev pub with_steal : Journal → Text → Result Abort ℕ
  with_steal j text = map_err (λ e. record { reason = e; journal = j }) (steal_ticks_from_stat text)

  -- What follows a trial; a gate's exception is recorded, another one and that of the steal are not.
  unfoldable pub ended :
      Trial → Journal → ℕ → Result BenchFail TrialResult × W → Result Abort (Journal × W)
  ended t j steal0 (err e, w) =
      err (record { reason = e; journal = journal_with t e j (is_caught e) })
  ended t j steal0 (ok result, w) = do
    steal1 ← with_steal (count_trial j) (stat w).0
    map_err (λ e. record { reason = e; journal = count_trial j })
        (require_steal_delta_zero (sub_ℕ steal1 steal0))
    ok (add_rows t result j, (stat w).1)

  unfoldable pub one_trial : Trial → Journal → W → Result Abort (Journal × W)
  one_trial t j w = do
    steal0 ← with_steal (count_trial j) (stat w).0
    ended t j steal0 (run_trial t (stat w).1)

  unfoldable pub run_trials : List Trial → Journal → W → Result Abort (Journal × W)
  run_trials [] j w = ok (j, w)
  run_trials (t ∷ trials) j w = do (k, v) ← one_trial t j w; run_trials trials k v

  -- The loop over the batches.
  unfoldable pub run_campaign :
      (ℕ → List (Text × ℕ) → List (Text × ℕ))
      → List Text
      → ℕ
      → ℕ
      → ℕ
      → ℕ
      → W
      → Result Abort (Journal × W)
  run_campaign shuffle configs n warmup batches seed w =
      run_trials (campaign_trials shuffle configs n warmup batches seed) no_rows w
