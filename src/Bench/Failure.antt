-- ===== src/Bench/Failure.antt =====
-- `BenchFail` of scripts/bench.py, with a constructor for each message that is modelled.
use whimbrel.Prelude.{ℕ, List}
use whimbrel.Prelude.Text.{Text}
use whimbrel.Prelude.Int.{ℤ}
use whimbrel.Pcap.Tshark.{PcapError}

pub data BenchFail : Type 0 where
  -- arms and launch
  unknown_kind : Text → BenchFail
  unknown_system : Text → BenchFail
  no_append_kind : Text → BenchFail
  linux_argv : BenchFail
  unregistered_counts : ℕ → ℕ → ℕ → BenchFail
  -- the phase dump
  phase_unset : Text → BenchFail
  phase_malformed : Text → BenchFail
  no_phases : BenchFail
  first_phase : Text → BenchFail
  no_e3g : BenchFail
  no_stamps : BenchFail
  phase_sum : ℕ → ℕ → ℕ → BenchFail
  -- the host
  empty_cpu_list : BenchFail
  bad_cpu_list : Text → BenchFail
  no_cpus : BenchFail
  steal_backwards : BenchFail
  stolen : ℤ → BenchFail
  no_steal_column : BenchFail
  no_cpu_line : BenchFail
  host_control : Text → BenchFail
  few_cpus : BenchFail
  same_core : BenchFail
  not_origin : Text → Text → Text → BenchFail
  clock_rate : BenchFail
  -- the intervals of a trial
  pcap_error : PcapError → BenchFail
  http_length : ℕ → BenchFail
  negative_interval : Text → BenchFail
  slow_fin : BenchFail
  -- the rows of a campaign
  bad_manifest_line : Text → BenchFail
  no_artifacts : List Text → BenchFail
  bad_append : Text → BenchFail
  not_in_manifest : Text → BenchFail
  artifact_missing : Text → BenchFail
  artifact_mismatch : Text → Text → Text → BenchFail
  zero_trials : BenchFail
  no_recorded : BenchFail
  dirty_row : BenchFail
  qemu_mismatch : BenchFail
  sha_mismatch : BenchFail
  control_mismatch : Text → BenchFail
  mixed_schema : BenchFail
  partial_schema : BenchFail
  incomplete_schema : BenchFail
  steal_in_row : Text → ℕ → BenchFail
  no_median : BenchFail
  startup_differs : ℤ → ℤ → BenchFail
  no_startup_trials : BenchFail
  recorded_count : ℕ → BenchFail
  warmup_count : ℕ → BenchFail
  not_comparable : BenchFail
  no_ftx_column : BenchFail
  connect_span : BenchFail
  -- a trial
  trap_seen : BenchFail
  probe_seen : BenchFail
  probe_ran : ℕ → BenchFail
  probe_listed : ℕ → BenchFail
  no_client_result : BenchFail
  no_response : BenchFail
  no_connect_stamp : BenchFail
  no_byte_stamp : BenchFail
  guest_panic : BenchFail
  init_failed : BenchFail
  not_ready : BenchFail
  init_not_ok : BenchFail
  -- a `ValueError` of `int`
  bad_number : Text → BenchFail
  -- a `KeyError` or `StopIteration` of the code, which is not a `BenchFail`
  missing_phase : Text → BenchFail
