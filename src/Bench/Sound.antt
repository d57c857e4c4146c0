-- ===== src/Bench/Sound.antt =====
-- What a trial that is accepted has passed.
use whimbrel.Prelude.{ℕ}
use whimbrel.Prelude.{◌≡◌, refl, sym, inl, inr}
use whimbrel.Prelude.{Bool, true, false, Option, none, some, arith}
use whimbrel.Prelude.{List, []}
use whimbrel.Prelude.{ok, Result-cases, ok-injective}
use whimbrel.Prelude.Text.{Text, codes, text_eq, contains}
use whimbrel.Prelude.Int.{ℤ, sub_ℕ}
use whimbrel.Pcap.Tshark.{Proc}
use whimbrel.Pcap.Extract.{assert_no_rst}
use whimbrel.Pcap.Grid.{assert_syn_grid, syn_grid_limit}
use whimbrel.Pcap.Order.{IsExchange, extract_pcap-IsExchange}
use whimbrel.Pcap.Anchor.{IsAnchored, assert_syn_grid-IsAnchored}
use whimbrel.Bench.PhaseRow.{PhaseRow}
use whimbrel.Bench.Phases.{phases_from_serial}
use whimbrel.Bench.Dump.{IsDump, parse_phases_iff}
use whimbrel.Bench.Intervals.{require_pcap_intervals, require_pcap_intervals_iff, http_len_pin}
use whimbrel.Bench.Probe.{
  trap_mark, probe_ratio, usecs_match, table_match, first_nonzero, IsQuiet, first_nonzero-IsQuiet,
}
use whimbrel.Bench.Trial.{
  falsifier3_scan, d0081_probe_scan, ClientData, TrialResult, Stamped, check_client, check_serial,
  check_init, check_grid, judge_trial,
}

-- Which lines a serial log must have and must not have.
pub record IsCleanSerial (system serial : Text) : Type 0 where
  pub no_panic :
      (contains (codes "PANIC") serial ≡ false) × (contains (codes "Kernel panic") serial ≡ false)
  pub no_trap : contains trap_mark serial ≡ false
  pub no_probe : contains probe_ratio serial ≡ false
  pub quiet : IsQuiet usecs_match serial × IsQuiet table_match serial
  pub init :
      text_eq system (codes "linux") ≡ true
      → (contains (codes "INIT FAIL:") serial ≡ false)
        × (contains (codes "READY") serial ≡ true)
        × (contains (codes "LINUX INIT OK") serial ≡ true)

scans-pass :
    (serial : Text)
    → d0081_probe_scan serial ≡ ok tt
    → (contains probe_ratio serial ≡ false)
      × (first_nonzero usecs_match serial ≡ none)
      × (first_nonzero table_match serial ≡ none)
unfolding d0081_probe_scan
scans-pass serial h = ground arith

check_init-passes :
    (linux : Bool) (serial : Text)
    → check_init linux serial ≡ ok tt
    → linux ≡ true
    → (contains (codes "INIT FAIL:") serial ≡ false)
      × (contains (codes "READY") serial ≡ true)
      × (contains (codes "LINUX INIT OK") serial ≡ true)
unfolding check_init
check_init-passes linux serial h e = ground arith

check_serial-IsCleanSerial :
    (system serial : Text) → check_serial system serial ≡ ok tt → IsCleanSerial system serial
unfolding check_serial falsifier3_scan
check_serial-IsCleanSerial system serial h =
    let scanned : d0081_probe_scan serial ≡ ok tt = ground arith in
    let started : check_init (text_eq system (codes "linux")) serial ≡ ok tt = ground arith in
    let (ratio, usecs, table) = scans-pass serial scanned in
    record {
      no_panic = (ground arith, ground arith);
      no_trap = ground arith;
      no_probe = ratio;
      quiet = (
        first_nonzero-IsQuiet usecs_match serial usecs,
        first_nonzero-IsQuiet table_match serial table,
      );
      init = check_init-passes (text_eq system (codes "linux")) serial started;
    }

-- The client's answer and the times made of it.
pub record IsAnswered (client : Option ClientData) (s : Stamped) : Type 0 where
  pub data_ : ClientData
  pub is_data : client ≡ some data_
  pub body : data_.body_ok ≡ true
  pub connect : data_.first_connect ≡ some s.connect
  pub byte : data_.first_byte ≡ some s.byte

check_client-IsAnswered :
    (client : Option ClientData) (s : Stamped) → check_client client ≡ ok s → IsAnswered client s
unfolding check_client
check_client-IsAnswered none s h = cc
check_client-IsAnswered (some d) s h = record {
  data_ = d;
  is_data = refl;
  body = ground arith;
  connect = ground arith;
  byte = ground arith;
}

module _ (tshark : Text → List Text → Proc) (float_ns float_ps : Text → Option ℤ) where
  -- All that the harness promises of a trial whose row it writes.
  pub record IsSound (present : Bool) (system : Text) (e0_mono : ℕ) (client : Option ClientData)
      (serial : Text) (r : TrialResult) : Type 0 where
    pub stamps : Stamped
    pub answered : IsAnswered client stamps
    pub connected : r.e0_to_first_connect ≡ sub_ℕ stamps.connect e0_mono
    pub served : r.e0_to_e4 ≡ sub_ℕ stamps.byte e0_mono
    pub clean : IsCleanSerial system serial
    pub dumped : text_eq system (codes "whimbrel") ≡ true → IsDump r.phases
    pub undumped : text_eq system (codes "whimbrel") ≡ false → r.phases ≡ []
    pub exchange : IsExchange tshark float_ns r.intervals
    pub pinned : r.intervals.http_len ≡ http_len_pin
    pub no_rst : assert_no_rst present tshark ≡ ok tt
    pub grid :
        text_eq system (codes "linux") ≡ true
        → (dt : ℤ) × IsAnchored tshark float_ps syn_grid_limit dt

  check_grid-IsAnchored :
      (present : Bool) (system : Text)
      → check_grid tshark float_ns float_ps present system ≡ ok tt
      → text_eq system (codes "linux") ≡ true
      → (dt : ℤ) × IsAnchored tshark float_ps syn_grid_limit dt
  unfolding check_grid
  check_grid-IsAnchored present system h e =
      elim (Result-cases (assert_syn_grid tshark float_ps present syn_grid_limit)) [
        | inr (f, failed) ↦ absurd (ground arith)
        | inl (dt, passed) ↦
            (dt, assert_syn_grid-IsAnchored tshark float_ps present syn_grid_limit dt passed)
      ]

  phases_from_serial-IsDump :
      (serial system : Text) (phases : List PhaseRow)
      → phases_from_serial serial system ≡ ok phases
      → (text_eq system (codes "whimbrel") ≡ true → IsDump phases)
        × (text_eq system (codes "whimbrel") ≡ false → phases ≡ [])
  unfolding phases_from_serial
  phases_from_serial-IsDump serial system phases h = (
    λ e. ((parse_phases_iff serial phases).0 (rw e at h)).1,
    λ e. sym (ok-injective [] phases (rw e at h)),
  )

  judge_trial-stages :
      (present : Bool) (system : Text) (e0_mono : ℕ) (client : Option ClientData) (serial : Text)
      (r : TrialResult) (s : Stamped)
      → judge_trial tshark float_ns float_ps present system e0_mono client serial ≡ ok r
      → check_client client ≡ ok s
      → (r.e0_to_first_connect ≡ sub_ℕ s.connect e0_mono)
        × (r.e0_to_e4 ≡ sub_ℕ s.byte e0_mono)
        × (check_serial system serial ≡ ok tt)
        × (phases_from_serial serial system ≡ ok r.phases)
        × (require_pcap_intervals tshark float_ns present system ≡ ok r.intervals)
        × (check_grid tshark float_ns float_ps present system ≡ ok tt)
  unfolding judge_trial
  judge_trial-stages present system e0_mono client serial r s h e = ground arith

  -- If `run_trial` returns a result, the client has got the response, the serial log is clean, the
  -- phases are a whole dump on Whimbrel and none elsewhere, the intervals are those of the exchange
  -- in the capture, which has no RST, and on Linux the SYN is on the grid.
  pub judge_trial-IsSound :
      (present : Bool) (system : Text) (e0_mono : ℕ) (client : Option ClientData) (serial : Text)
      (r : TrialResult)
      → judge_trial tshark float_ns float_ps present system e0_mono client serial ≡ ok r
      → IsSound present system e0_mono client serial r
  unfolding judge_trial
  judge_trial-IsSound present system e0_mono client serial r h =
      elim (Result-cases (check_client client)) [
        | inr (e, failed) ↦ absurd (ground arith)
        | inl (s, stamped) ↦
            let (connected, served, printed, phases, intervals, grid) =
              judge_trial-stages present system e0_mono client serial r s h stamped in
            let (dumped, undumped) = phases_from_serial-IsDump serial system r.phases phases in
            let (extracted, pinned, quick, no_rst) =
              (require_pcap_intervals_iff tshark float_ns present system r.intervals).0 intervals in
            record {
              stamps = s;
              answered = check_client-IsAnswered client s stamped;
              connected = connected;
              served = served;
              clean = check_serial-IsCleanSerial system serial printed;
              dumped = dumped;
              undumped = undumped;
              exchange = extract_pcap-IsExchange tshark float_ns present r.intervals extracted;
              pinned = pinned;
              no_rst = no_rst;
              grid = check_grid-IsAnchored present system grid;
            }
      ]
