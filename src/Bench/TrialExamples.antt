-- ===== src/Bench/TrialExamples.antt =====
-- A trial that is accepted, one that is not, and a quiet host.
use whimbrel.Prelude.{ℕ}
use whimbrel.Prelude.{◌≡◌, refl}
use whimbrel.Prelude.{true, some}
use whimbrel.Prelude.{List, [], ◌∷◌}
use whimbrel.Prelude.{any}
use whimbrel.Prelude.{ok, err}
use whimbrel.Prelude.Text.{
  Text, codes, text_eq, strip_prefix, starts_with, run, span, strip, lstrip, splitlines, split,
  split_on, split_once, is_space, is_digit, decimal, contains, decimal_text,
}
use whimbrel.Prelude.Dict.{lookup}
use whimbrel.Prelude.Sort.{sort}
use whimbrel.Prelude.Int.{pos, negsuc, ◌-ℤ◌, ◌+ℤ◌}
use whimbrel.Pcap.Tshark
use whimbrel.Pcap.Extract
use whimbrel.Pcap.Extract.{Extract}
use whimbrel.Pcap.Grid
use whimbrel.Pcap.Capture.{tshark, whole}
use whimbrel.Bench.Failure.{probe_ran}
use whimbrel.Bench.PhaseRow
use whimbrel.Bench.PhaseRow.{PhaseRow}
use whimbrel.Bench.Phases
use whimbrel.Bench.Intervals.{require_pcap_intervals}
use whimbrel.Bench.Probe
use whimbrel.Bench.Trial
use whimbrel.Bench.Trial.{ClientData, TrialResult, judge_trial, check_serial}
use whimbrel.Bench.Sound.{IsSound, judge_trial-IsSound}
use whimbrel.Bench.Examples.{serial, dumped}
use whimbrel.Bench.Cpus
use whimbrel.Bench.Cpus.{all_ends, has, parse_cpu_list}
use whimbrel.Bench.Schedule.{range}
use whimbrel.Bench.Online.{covers, Rises, parse_cpu_list-Reads}
use whimbrel.Bench.Host.{
  listing, summarize_governors, Controls, require_host_controls, steal_ticks_from_stat,
  steal_in_lines,
}
use whimbrel.Bench.Control.{performance}

program : Unit {0}
unfolding text_eq lookup strip_prefix starts_with run span strip lstrip splitlines split split_on
    split_once is_space is_digit decimal contains decimal_text sort range Tshark.row_of
    Tshark.table_rows Tshark.int_of Tshark.tshark_table Tshark.time_ns Extract.first_match
    Extract.find_frames Extract.read_stamps Extract.find_ends Extract.intervals Extract.extract_pcap
    Extract.assert_no_rst Grid.time_s Grid.flushed Grid.on_grid Grid.grid_frames Grid.grid_after
    Grid.assert_syn_grid require_pcap_intervals ◌-ℤ◌ ◌+ℤ◌ PhaseRow.row_match PhaseRow.unset_match
    PhaseRow.clean PhaseRow.is_data Phases.row_then Phases.phase_rows Phases.named Phases.first_row
    Phases.last_row Phases.stamp_overhead_ns Phases.sum_upto Phases.assert_phases_sum_to_e3g
    Phases.check_rows Phases.parse_phases Phases.phases_from_serial Probe.usecs_match
    Probe.table_match Probe.first_nonzero Trial.falsifier3_scan Trial.d0081_probe_scan
    Trial.check_client Trial.check_init check_serial Trial.check_grid judge_trial Cpus.to_int
    Cpus.part_ends all_ends Cpus.expand has Cpus.distinct_of Cpus.listed parse_cpu_list listing
    summarize_governors require_host_controls steal_in_lines steal_ticks_from_stat
program = tt

abbrev client : ClientData
client = record {
  body_ok = true;
  first_connect = some 5_000;
  first_byte = some 9_000;
  attempts = 2;
}

abbrev result : TrialResult
result = record {
  e0_to_first_connect = pos 3_000;
  e0_to_e4 = pos 7_000;
  intervals = record {
    w_ns = pos 250;
    d_ack_ns = pos 50;
    d_fin_ns = pos 90;
    synack_to_http_ns = pos 550;
    http_len = 92;
    guest_ftx_ns = some (negsuc 49);
    guest_arp_req_n = 1;
  };
  attempts = 2;
  phases = dumped;
}

accepted :
    judge_trial tshark whole whole true (codes "whimbrel") 2_000 (some client) serial ≡ ok result
unfolding program
accepted = refl

judge_trial-IsSound_example :
    IsSound tshark whole whole true (codes "whimbrel") 2_000 (some client) serial result
judge_trial-IsSound_example =
    judge_trial-IsSound tshark whole whole true (codes "whimbrel") 2_000 (some client) serial result
      accepted

-- A probe that took time is refused wherever it stands.
probed :
    check_serial
      (codes "linux")
      (codes "[ 0.1] initcall check_unaligned_access_all_cpus+0x0/0x2 returned 0 after 17 usecs")
    ≡ err (probe_ran 17)
unfolding program
probed = refl

cpus : parse_cpu_list (codes "0,2-3,3,7\n") ≡ ok (0 ∷ 2 ∷ 3 ∷ 7 ∷ [])
unfolding program
cpus = refl

steal : steal_ticks_from_stat (codes "intr 4\ncpu  1 2 3 4 5 6 7 8 9 10\n") ≡ ok 8
unfolding program
steal = refl

parse_cpu_list-Reads_example :
    (es : List (ℕ × ℕ)) × (all_ends (split_on 44 (strip (codes "0,2-3,3,7\n"))) ≡ some es)
    × Rises (0 ∷ 2 ∷ 3 ∷ 7 ∷ [])
    × ((c : ℕ) → has c (0 ∷ 2 ∷ 3 ∷ 7 ∷ []) ≡ any (covers c) es)
parse_cpu_list-Reads_example = parse_cpu_list-Reads (codes "0,2-3,3,7\n") (0 ∷ 2 ∷ 3 ∷ 7 ∷ []) cpus

abbrev governors : List (ℕ × Text)
governors = (0, performance) ∷ (1, performance) ∷ []

abbrev quiet_host : Controls
quiet_host = record {
  governor = performance;
  smt_control = codes "off";
  cpufreq_boost = codes "0";
  virt = codes "none";
  steal_start_ticks = 0;
}

summarized : summarize_governors governors ≡ ok performance
unfolding program
summarized = refl
