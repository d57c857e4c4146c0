-- ===== src/Bench/JournalExamples.antt =====
-- A campaign of two arms that runs through, and one that a gate stops at its third trial.
use whimbrel.Prelude.{ℕ, suc}
use whimbrel.Prelude.{◌≡◌, refl}
use whimbrel.Prelude.{none}
use whimbrel.Prelude.{List, [], ◌∷◌, map}
use whimbrel.Prelude.{◌==◌, if◌then◌else◌}
use whimbrel.Prelude.{length}
use whimbrel.Prelude.{Result, ok, err}
use whimbrel.Prelude.Text.{
  Text, codes, text_eq, strip, lstrip, split, splitlines, starts_with, is_space, is_line_end,
  is_digit, decimal, decimal_from,
}
use whimbrel.Prelude.Int.{pos}
use whimbrel.Bench.Failure.{BenchFail, no_client_result, bad_number}
use whimbrel.Bench.Cpus.{to_int}
use whimbrel.Bench.Host.{require_steal_delta_zero, steal_in_lines, steal_ticks_from_stat}
use whimbrel.Bench.Trial.{TrialResult}
use whimbrel.Bench.Schedule
use whimbrel.Bench.Schedule.{Trial, campaign_trials}
use whimbrel.Bench.Journal.{
  RunEntry, Journal, Abort, add_rows, record_gate_failure, is_caught, ended, one_trial, run_trials,
  run_campaign,
}
use whimbrel.Bench.Ended.{Ends, run_campaign-Ends}

program : Unit {0}
unfolding text_eq strip lstrip split splitlines starts_with is_space is_line_end is_digit decimal
    decimal_from to_int require_steal_delta_zero steal_in_lines steal_ticks_from_stat Schedule.range
    Schedule.with_config Schedule.pairs Schedule.warmup_round Schedule.warmups
    Schedule.recorded_trials Schedule.recorded_schedule Schedule.batch_trials
    Schedule.batches_trials campaign_trials add_rows record_gate_failure is_caught ended one_trial
    run_trials run_campaign
program = tt

-- The machine counts its boots.
abbrev proc_stat : ℕ → Text × ℕ
proc_stat boots = (codes "cpu  10 0 20 300 4 0 1 7 0 0\nintr 5\n", boots)

abbrev result : TrialResult
result = record {
  e0_to_first_connect = pos 1_000_000;
  e0_to_e4 = pos 29_000_000;
  intervals = record {
    w_ns = pos 20_000_000;
    d_ack_ns = pos 50_000;
    d_fin_ns = pos 90_000;
    synack_to_http_ns = pos 900_000;
    http_len = 92;
    guest_ftx_ns = none;
    guest_arp_req_n = 1;
  };
  attempts = 3;
  phases = [];
}

abbrev boot : ℕ → Trial → ℕ → Result BenchFail TrialResult × ℕ
boot bad t boots = (if boots == bad then err no_client_result else ok result, suc boots)

abbrev arms : List Text
arms = codes "release-default" ∷ codes "release-fast-boot" ∷ []

abbrev orders : Result Abort (Journal × ℕ) → List ℕ
orders (ok (j, w)) = map (λ (e : RunEntry). e.run_order) j.run_rows
orders (err a) = map (λ (e : RunEntry). e.run_order) a.journal.run_rows

abbrev failed : Result Abort (Journal × ℕ) → ℕ
failed (ok (j, w)) = length j.failures
failed (err a) = length a.journal.failures

abbrev run : ℕ → Result Abort (Journal × ℕ)
run bad = run_campaign proc_stat (boot bad) (λ seed schedule. schedule) arms 1 1 1 42 0

through : orders (run 9) ≡ 1 ∷ 2 ∷ 3 ∷ 4 ∷ []
unfolding program
through = refl

stopped : orders (run 2) ≡ 1 ∷ 2 ∷ []
unfolding program
stopped = refl

recorded_once : failed (run 2) ≡ 1
unfolding program
recorded_once = refl

-- A `ValueError` of the second trial, which is not caught.
abbrev misread : Trial → ℕ → Result BenchFail TrialResult × ℕ
misread t boots = (if boots == 1 then err (bad_number (codes "x")) else ok result, suc boots)

not_recorded :
    failed (run_campaign proc_stat misread (λ seed schedule. schedule) arms 1 1 1 42 0) ≡ 0
unfolding program
not_recorded = refl

run_campaign-Ends_example :
    Ends proc_stat (boot 2) [] (campaign_trials (λ seed schedule. schedule) arms 1 1 1 42) (run 2)
run_campaign-Ends_example =
    run_campaign-Ends proc_stat (boot 2) (λ seed schedule. schedule) arms 1 1 1 42 0
