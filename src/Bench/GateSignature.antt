-- ===== src/Bench/GateSignature.antt =====
-- `gate_failure_signature` of scripts/bench.py: the columns of the capture of a trial that a gate has
-- stopped, as far as they can be read.
use whimbrel.Prelude.{ℕ}
use whimbrel.Prelude.{◌≡◌, refl, inl, inr, ◌∙◌}
use whimbrel.Prelude.{Bool, true, not, Option, none, some, arith}
use whimbrel.Prelude.{List, [], ◌∷◌}
use whimbrel.Prelude.{if◌then◌else◌}
use whimbrel.Prelude.{length, List-cases}
use whimbrel.Prelude.{Result, ok, err, ◌>>=◌, Result-cases}
use whimbrel.Prelude.Text.{Text}
use whimbrel.Prelude.Int.{ℤ, ltb_ℤ, ◌-ℤ◌}
use whimbrel.Pcap.Tshark.{Proc, PcapError, no_arp, Row, tshark_table, time_ns}
use whimbrel.Pcap.Extract.{
  Extract, Frames, Stamps, Ends, arp_filter, guest_tx_filter, guest_arp_req_filter, guest_ftx,
  intervals, extract_pcap, first_match,
}
use whimbrel.Pcap.Order.{extract_pcap-steps, find_frames-first, read_stamps-ordered}
use whimbrel.Pcap.Grid.{syn_in_filter}

-- `out`, with `none` for a key that it has not.
pub record FailureSignature : Type 0 where
  pub guest_arp_req_n : Option ℕ
  pub guest_ftx_ns : Option ℤ
  pub syn_grid_dt_ns : Option ℤ

-- `out` where the exception was caught, or at the end.
abbrev or_so_far : FailureSignature → Result PcapError FailureSignature → FailureSignature
or_so_far out (ok done) = done
or_so_far out (err e) = out

abbrev first_dt : ℤ → List ℤ → Option ℤ
first_dt t_tx [] = none
first_dt t_tx (t ∷ times) = some (t -ℤ t_tx)

module _ (float_ns : Text → Option ℤ) where
  -- The times of the SYNs at or after `t_tx`.
  unfoldable pub flushed_times : ℤ → List Row → Result PcapError (List ℤ)
  flushed_times t_tx [] = ok []
  flushed_times t_tx (r ∷ rows) = do
    t ← time_ns float_ns r
    rest ← flushed_times t_tx rows
    ok (if not (ltb_ℤ t t_tx) then t ∷ rest else rest)

module _ (tshark : Text → List Text → Proc) (float_ns : Text → Option ℤ) where
  -- From `guest_ftx_ns` on.
  unfoldable pub with_syn : ℕ → ℤ → ℤ → FailureSignature
  with_syn n t_tx t_arp =
      let out : FailureSignature = record {
        guest_arp_req_n = some n;
        guest_ftx_ns = some (t_tx -ℤ t_arp);
        syn_grid_dt_ns = none;
      } in
      or_so_far out (do
        syn ← tshark_table tshark syn_in_filter []
        times ← flushed_times float_ns t_tx syn
        ok (record out { syn_grid_dt_ns = first_dt t_tx times }))

  -- From `guest_arp_req_n` on: the tables of the guest's frames and of slirp's ARP.
  unfoldable pub with_times : ℕ → List Row → List Row → FailureSignature
  with_times n rows slirp_arp =
      let out : FailureSignature = record {
        guest_arp_req_n = some n;
        guest_ftx_ns = none;
        syn_grid_dt_ns = none;
      } in
      elim rows [
        | [] ↦ out
        | tx ∷ later ↦ elim slirp_arp [
          | [] ↦ out
          | arp ∷ more ↦ or_so_far out (do
            t_tx ← time_ns float_ns tx
            t_arp ← time_ns float_ns arp
            ok (with_syn n t_tx t_arp))
        ]
      ]

  -- `found` is whether `require_tshark` finds it.
  unfoldable pub gate_failure_signature : Bool → FailureSignature
  gate_failure_signature found =
      let out : FailureSignature = record {
        guest_arp_req_n = none;
        guest_ftx_ns = none;
        syn_grid_dt_ns = none;
      } in
      if found
      then or_so_far out (do
        rows ← tshark_table tshark guest_tx_filter []
        arp ← tshark_table tshark guest_arp_req_filter []
        slirp_arp ← tshark_table tshark arp_filter []
        ok (with_times (length arp) rows slirp_arp))
      else out

  with_syn-passive :
      (n : ℕ) (t_tx t_arp : ℤ)
      → ((with_syn n t_tx t_arp).guest_arp_req_n ≡ some n)
        × ((with_syn n t_tx t_arp).guest_ftx_ns ≡ some (t_tx -ℤ t_arp))
  unfolding with_syn
  with_syn-passive n t_tx t_arp = elim (Result-cases (tshark_table tshark syn_in_filter [])) [
    | inr (x, failed) ↦ rw failed (refl, refl)
    | inl (syn, e) ↦ elim (Result-cases (flushed_times float_ns t_tx syn)) [
      | inr (x, failed) ↦ rw (e, failed) (refl, refl)
      | inl (times, f) ↦ rw (e, f) (refl, refl)
    ]
  ]

  intervals-passive :
      (f : Frames) (s : Stamps) (ends : Ends) (e : Extract)
      → intervals tshark float_ns f s ends ≡ ok e
      → (rows : List Row) × (arp : List Row) × (tshark_table tshark guest_tx_filter [] ≡ ok rows)
        × (tshark_table tshark guest_arp_req_filter [] ≡ ok arp)
        × (guest_ftx tshark float_ns s.t_arp rows ≡ ok e.guest_ftx_ns)
        × (e.guest_arp_req_n ≡ length arp)
  unfolding intervals
  intervals-passive f s ends e h = elim (Result-cases (tshark_table tshark guest_tx_filter [])) [
    | inr (x, failed) ↦ absurd (ground arith)
    | inl (rows, tx) ↦ elim (Result-cases (tshark_table tshark guest_arp_req_filter [])) [
      | inr (x, failed) ↦ absurd (ground arith)
      | inl (arp, asked) ↦ (rows, arp, tx, asked, ground arith, ground arith)
    ]
  ]

  with_times-passive :
      (n : ℕ) (t_arp : ℤ) (ftx : Option ℤ) (rows later : List Row) (arp : Row)
      → time_ns float_ns arp ≡ ok t_arp
      → guest_ftx tshark float_ns t_arp rows ≡ ok ftx
      → ((with_times n rows (arp ∷ later)).guest_arp_req_n ≡ some n)
        × ((with_times n rows (arp ∷ later)).guest_ftx_ns ≡ ftx)
  unfolding with_times guest_ftx
  with_times-passive n t_arp ftx [] later arp at h = (refl, ground arith)
  with_times-passive n t_arp ftx (tx ∷ rows) later arp at h =
      elim (Result-cases (time_ns float_ns tx)) [
        | inr (x, failed) ↦ absurd (ground arith)
        | inl (t_tx, read) ↦
            let is : some (t_tx -ℤ t_arp) ≡ ftx = ground arith in
            let (n_is, ftx_is) = with_syn-passive n t_tx t_arp in rw (read, at) (n_is, ftx_is ∙ is)
      ]

  first_match-head :
      (display_filter : Text) (extra : List Text) (none_found : PcapError) (r : Row)
      → first_match tshark float_ns display_filter extra none_found ≡ ok r
      → (later : List Row) × (tshark_table tshark display_filter extra ≡ ok (r ∷ later))
  unfolding first_match
  first_match-head display_filter extra none_found r h =
      elim (Result-cases (tshark_table tshark display_filter extra)) [
        | inr (x, failed) ↦ absurd (ground arith)
        | inl (rows, e) ↦ elim (List-cases rows) [
          | inl empty ↦ absurd (ground arith)
          | inr (q, later, split) ↦ (later, ground arith)
        ]
      ]

  -- Where a capture gives its intervals, the signature of a trial that a gate has stopped has the same
  -- passive columns.
  pub gate_failure_signature-agrees :
      (present : Bool) (e : Extract)
      → extract_pcap tshark float_ns present ≡ ok e
      → ((gate_failure_signature true).guest_arp_req_n ≡ some e.guest_arp_req_n)
        × ((gate_failure_signature true).guest_ftx_ns ≡ e.guest_ftx_ns)
  unfolding gate_failure_signature
  gate_failure_signature-agrees present e h =
      let (f, s, ends, found, read, ended, h3) = extract_pcap-steps tshark float_ns present e h in
      let (rows, asked, tx, req, ftx, count) = intervals-passive f s ends e h3 in
      let (is_arp, is_synack, is_http) = find_frames-first tshark float_ns present f found in
      let (later, slirp) = first_match-head arp_filter [] no_arp f.arp is_arp in
      let (at, at_synack, at_http, first_two, next_two) =
        read_stamps-ordered tshark float_ns f s read in
      rw (tx, req, slirp, count)
        (with_times-passive (length asked) s.t_arp e.guest_ftx_ns rows later f.arp at ftx)
