-- ===== src/Bench/Intervals.antt =====
-- `require_pcap_intervals` of scripts/bench.py: the gates on the intervals of one trial.
use whimbrel.Prelude.{ℕ}
use whimbrel.Prelude.{◌≡◌, ◌≢◌, ◌↔◌, inl, inr}
use whimbrel.Prelude.{Bool, true, false, ◌&&◌, not, Option, arith}
use whimbrel.Prelude.{List}
use whimbrel.Prelude.{◌==◌, Bool-cases}
use whimbrel.Prelude.{Result, ok, err, ◌>>=◌, ◌>>◌, guard, map_err, Result-cases}
use whimbrel.Prelude.Text.{Text, codes, text_eq}
use whimbrel.Prelude.Int.{ℤ, pos, ltb_ℤ, ◌≤ℤ◌}
use whimbrel.Pcap.Tshark.{Proc}
use whimbrel.Pcap.Extract.{Extract, extract_pcap, assert_no_rst}
use whimbrel.Pcap.Order.{extract_pcap-IsExchange, IsExchange-forward}
use whimbrel.Bench.Failure.{BenchFail, pcap_error, http_length, negative_interval, slow_fin}

abbrev pub http_len_pin : ℕ
http_len_pin = 92

abbrev pub whimbrel_dfin_fail_ns : ℕ
whimbrel_dfin_fail_ns = 10_000_000

-- One turn of the loop over the three columns.
abbrev refuse_negative : Text → ℤ → Result BenchFail (Unit {0})
refuse_negative key value = guard (not (ltb_ℤ value (pos 0))) (negative_interval key)

module _ (tshark : Text → List Text → Proc) (float_ns : Text → Option ℤ) where
  unfoldable pub require_pcap_intervals : Bool → Text → Result BenchFail Extract
  require_pcap_intervals present system = do
    e ← map_err pcap_error (extract_pcap tshark float_ns present)
    guard (e.http_len == http_len_pin) (http_length e.http_len)
    refuse_negative (codes "w_ns") e.w_ns
    refuse_negative (codes "d_ack_ns") e.d_ack_ns
    refuse_negative (codes "d_fin_ns") e.d_fin_ns
    guard
        (not
          (text_eq system (codes "whimbrel") && not (ltb_ℤ e.d_fin_ns (pos whimbrel_dfin_fail_ns))))
        slow_fin
    map_err pcap_error (assert_no_rst present tshark)
    ok e

  not_negative : (z : ℤ) → pos 0 ≤ℤ z → ltb_ℤ z (pos 0) ≡ false
  not_negative z h = ground arith

  -- The loop that looks for a negative interval never finds one: the extraction has refused each
  -- order of frames that would give one.
  pub require_pcap_intervals-forward :
      (present : Bool) (system key : Text)
      → require_pcap_intervals present system ≢ err (negative_interval key)
  unfolding require_pcap_intervals
  require_pcap_intervals-forward present system key h =
      elim (Result-cases (extract_pcap tshark float_ns present)) [
        | inr (e, failed) ↦ absurd (ground arith)
        | inl (e, extracted) ↦
            let (w, d_ack, d_fin, rest) =
              IsExchange-forward tshark float_ns e
                (extract_pcap-IsExchange tshark float_ns present e extracted) in
            ground (
              arith,
              not_negative e.w_ns w,
              not_negative e.d_ack_ns d_ack,
              not_negative e.d_fin_ns d_fin,
            )
      ]

  -- A trial's intervals are accepted exactly if its capture gives them, the response has the 92
  -- bytes, Whimbrel's FIN came within 10 ms, and the capture has no RST.
  pub require_pcap_intervals_iff :
      (present : Bool) (system : Text) (e : Extract)
      → (require_pcap_intervals present system ≡ ok e) ↔ (
          (extract_pcap tshark float_ns present ≡ ok e)
          × (e.http_len ≡ http_len_pin)
          × (text_eq system (codes "whimbrel") ≡ true
              → ltb_ℤ e.d_fin_ns (pos whimbrel_dfin_fail_ns) ≡ true)
          × (assert_no_rst present tshark ≡ ok tt))
  unfolding require_pcap_intervals
  require_pcap_intervals_iff present system e = (
    λ h. (ground arith, ground arith, λ s. ground arith, ground arith),
    λ (extracted, pinned, quick, no_rst).
        let (w, d_ack, d_fin, rest) =
          IsExchange-forward tshark float_ns e
            (extract_pcap-IsExchange tshark float_ns present e extracted) in
        ground (
          arith,
          not_negative e.w_ns w,
          not_negative e.d_ack_ns d_ack,
          not_negative e.d_fin_ns d_fin,
          Bool-cases (text_eq system (codes "whimbrel")),
        ),
  )
