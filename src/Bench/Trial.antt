-- ===== src/Bench/Trial.antt =====
-- What `run_trial` of scripts/bench.py decides once QEMU and the client have ended.
use whimbrel.Prelude.{ℕ}
use whimbrel.Prelude.{Bool, true, false, ◌||◌, not, Option, none, some}
use whimbrel.Prelude.{List}
use whimbrel.Prelude.{if◌then◌else◌}
use whimbrel.Prelude.{Result, ok, err, ◌>>=◌, ◌>>◌, guard, map_err}
use whimbrel.Prelude.Text.{Text, codes, text_eq, contains}
use whimbrel.Prelude.Int.{ℤ, sub_ℕ}
use whimbrel.Pcap.Tshark.{Proc}
use whimbrel.Pcap.Extract.{Extract}
use whimbrel.Pcap.Grid.{assert_syn_grid, syn_grid_limit}
use whimbrel.Bench.Failure.{
  BenchFail, pcap_error, trap_seen, probe_seen, probe_ran, probe_listed, no_client_result,
  no_response, no_connect_stamp, no_byte_stamp, guest_panic, init_failed, not_ready, init_not_ok,
}
use whimbrel.Bench.PhaseRow.{PhaseRow}
use whimbrel.Bench.Phases.{phases_from_serial}
use whimbrel.Bench.Intervals.{require_pcap_intervals}
use whimbrel.Bench.Probe.{trap_mark, probe_ratio, usecs_match, table_match, first_nonzero}

unfoldable pub falsifier3_scan : Text → Result BenchFail (Unit {0})
falsifier3_scan serial = guard (not (contains trap_mark serial)) trap_seen

abbrev refuse_found : (ℕ → BenchFail) → Option ℕ → Result BenchFail (Unit {0})
refuse_found fail none = ok tt
refuse_found fail (some n) = err (fail n)

unfoldable pub d0081_probe_scan : Text → Result BenchFail (Unit {0})
d0081_probe_scan serial = do
  guard (not (contains probe_ratio serial)) probe_seen
  refuse_found probe_ran (first_nonzero usecs_match serial)
  refuse_found probe_listed (first_nonzero table_match serial)

-- The client's result, as JSON gives it.
pub record ClientData : Type 0 where
  pub body_ok : Bool
  pub first_connect : Option ℕ
  pub first_byte : Option ℕ
  pub attempts : ℕ

pub record TrialResult : Type 0 where
  pub e0_to_first_connect : ℤ
  pub e0_to_e4 : ℤ
  pub intervals : Extract
  pub attempts : ℕ
  pub phases : List PhaseRow

-- The two stamps of the client.
pub record Stamped : Type 0 where
  pub connect : ℕ
  pub byte : ℕ
  pub tries : ℕ

abbrev or_fail : {A : Type 0} → BenchFail → Option A → Result BenchFail A
or_fail fail none = err fail
or_fail fail (some a) = ok a

unfoldable pub check_client : Option ClientData → Result BenchFail Stamped
check_client out = do
  d ← or_fail no_client_result out
  guard d.body_ok no_response
  connect ← or_fail no_connect_stamp d.first_connect
  byte ← or_fail no_byte_stamp d.first_byte
  ok (record { connect = connect; byte = byte; tries = d.attempts })

-- What a Linux guest has to print.
unfoldable pub check_init : Bool → Text → Result BenchFail (Unit {0})
check_init false serial = ok tt
check_init true serial = do
  guard (not (contains (codes "INIT FAIL:") serial)) init_failed
  guard (contains (codes "READY") serial) not_ready
  guard (contains (codes "LINUX INIT OK") serial) init_not_ok

unfoldable pub check_serial : Text → Text → Result BenchFail (Unit {0})
check_serial system serial = do
  guard (not (contains (codes "PANIC") serial || contains (codes "Kernel panic") serial))
      guest_panic
  falsifier3_scan serial
  d0081_probe_scan serial
  check_init (text_eq system (codes "linux")) serial

module _ (tshark : Text → List Text → Proc) (float_ns float_ps : Text → Option ℤ) where
  -- Confound A, on Linux.
  unfoldable pub check_grid : Bool → Text → Result BenchFail (Unit {0})
  check_grid present system =
      if text_eq system (codes "linux")
      then (do
        dt ← map_err pcap_error (assert_syn_grid tshark float_ps present syn_grid_limit)
        ok tt)
      else ok tt

  unfoldable pub judge_trial :
      Bool → Text → ℕ → Option ClientData → Text → Result BenchFail TrialResult
  judge_trial present system e0_mono client serial = do
    stamps ← check_client client
    check_serial system serial
    phases ← phases_from_serial serial system
    extracted ← require_pcap_intervals tshark float_ns present system
    check_grid present system
    ok (record {
      e0_to_first_connect = sub_ℕ stamps.connect e0_mono;
      e0_to_e4 = sub_ℕ stamps.byte e0_mono;
      intervals = extracted;
      attempts = stamps.tries;
      phases = phases;
    })
