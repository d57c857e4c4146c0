-- ===== src/Bench/Summary/Startup.antt =====
-- `s_trial_ns` and `s_header_lines` of scripts/bench.py: what passes before the first ARP. The medians
-- are twofold, and the lines are the values that they print, without the quartiles.
use whimbrel.Prelude.{◌*◌}
use whimbrel.Prelude.{Bool, not, Option, none, some}
use whimbrel.Prelude.{List, [], ◌∷◌, map}
use whimbrel.Prelude.{ltb}
use whimbrel.Prelude.{keep}
use whimbrel.Prelude.{Result, ok, err, ◌>>=◌, ◌>>◌, guard}
use whimbrel.Prelude.Text.{Text, codes, text_eq, starts_with}
use whimbrel.Prelude.Int.{ℤ, pos, sub_ℕ, ◌+ℤ◌, ◌-ℤ◌, abs}
use whimbrel.Prelude.Grouping.{Group, group_by, members_of}
use whimbrel.Stats.Signed.{median_ℤ}
use whimbrel.Pcap.Tshark.{Proc}
use whimbrel.Bench.Failure.{BenchFail, no_startup_trials, no_median, startup_differs}
use whimbrel.Bench.Arms.{fast_config, safe_config}
use whimbrel.Bench.Intervals.{require_pcap_intervals}
use whimbrel.Bench.Connect.{control_tol_ns}
use whimbrel.Bench.Summary.Metrics.{SummaryRow, recorded_runs}

abbrev pub in_shim_lane : SummaryRow × ℤ → Bool
in_shim_lane (r, s) = starts_with r.config (codes "m-")

abbrev pub some_median : List ℤ → Result BenchFail ℤ
some_median vals = elim (median_ℤ vals) [ none ↦ err no_median | some m ↦ ok m ]

abbrev pub s_by_config : List (SummaryRow × ℤ) → List (Group Text ℤ)
s_by_config vals =
    group_by text_eq (λ (v : SummaryRow × ℤ). v.0.config) (λ (v : SummaryRow × ℤ). v.1) vals

-- `s_ns`, `s_ns_mshim`, `s_ns_fast`, `s_ns_safe`, and the shim lane's two with the flag.
pub record StartupLines : Type 0 where
  pub pooled : ℤ
  pub shim : Option ℤ
  pub fast : Option ℤ
  pub slow : Option ℤ
  pub shim_fast : Option ℤ
  pub shim_slow : Option ℤ

-- Two medians where both are there: their distance is within a millisecond.
abbrev pub check_profiles : Option ℤ → Option ℤ → Result BenchFail (Unit {0})
check_profiles none b = ok tt
check_profiles (some a) none = ok tt
check_profiles (some a) (some b) =
    guard (not (ltb (2 * control_tol_ns) (abs (a -ℤ b)))) (startup_differs a b)

-- The median of the values of an arm, if it has some.
abbrev pub median_of : Text → List (SummaryRow × ℤ) → Option ℤ
median_of config vals = median_ℤ (members_of text_eq config (s_by_config vals))

abbrev pub lines_of : ℤ → List (SummaryRow × ℤ) → StartupLines
lines_of pooled vals = record {
  pooled = pooled;
  shim = median_ℤ (map (λ (v : SummaryRow × ℤ). v.1) (keep in_shim_lane vals));
  fast = median_of fast_config vals;
  slow = median_of safe_config vals;
  shim_fast = median_of (codes "m-release-fast-boot") vals;
  shim_slow = median_of (codes "m-release-default") vals;
}

-- What is printed of the values, once there are some.
unfoldable pub startup_lines : List (SummaryRow × ℤ) → Result BenchFail StartupLines
startup_lines vals = do
  pooled ←
      some_median (
        map (λ (v : SummaryRow × ℤ). v.1)
          (keep (λ (v : SummaryRow × ℤ). not (in_shim_lane v)) vals))
  check_profiles (median_of fast_config vals) (median_of safe_config vals)
  ok (lines_of pooled vals)

-- The captures: whether there is one, and tshark's run on it.
module _ (present : Text → Bool) (tshark : Text → Text → List Text → Proc)
    (float_ns : Text → Option ℤ) where
  unfoldable pub startup_ns : SummaryRow → Option ℤ → Result BenchFail ℤ
  startup_ns r (some syn) = ok (
      sub_ℕ (r.metric (codes "e0_to_e4_ns")) (r.metric (codes "e0_to_first_connect_ns"))
      -ℤ ((pos (r.metric (codes "w_ns")) +ℤ syn) +ℤ pos (r.metric (codes "d_fin_ns"))))
  startup_ns r none = do
    e ← require_pcap_intervals (tshark r.pcap_path) float_ns (present r.pcap_path) r.system
    ok (
        sub_ℕ (r.metric (codes "e0_to_e4_ns")) (r.metric (codes "e0_to_first_connect_ns"))
        -ℤ ((e.w_ns +ℤ e.synack_to_http_ns) +ℤ e.d_fin_ns))

  unfoldable pub row_s_ns : SummaryRow → Result BenchFail ℤ
  row_s_ns r = startup_ns r r.synack_to_http_ns

  unfoldable pub all_s_ns : List SummaryRow → Result BenchFail (List (SummaryRow × ℤ))
  all_s_ns [] = ok []
  all_s_ns (r ∷ rows) = do s ← row_s_ns r; more ← all_s_ns rows; ok ((r, s) ∷ more)

  unfoldable pub header_of : List SummaryRow → Result BenchFail StartupLines
  header_of [] = err no_startup_trials
  header_of (r ∷ rec) = do vals ← all_s_ns (r ∷ rec); startup_lines vals

  unfoldable pub s_header_lines : List SummaryRow → Result BenchFail StartupLines
  s_header_lines runs = header_of (recorded_runs runs)
