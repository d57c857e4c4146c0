-- ===== src/Pcap/Grid.antt =====
-- `assert_syn_grid` of scripts/pcap_http.py: the SYN into the guest follows the guest's first frame.
-- Seconds are counted in picoseconds, so that its tolerance of 1e-12 is one.
use whimbrel.Prelude.{Bool, ◌&&◌, not, Option, none, some}
use whimbrel.Prelude.{List, [], ◌∷◌, ◌++◌}
use whimbrel.Prelude.{if◌then◌else◌}
use whimbrel.Prelude.{Result, ok, err, ◌>>=◌, ◌>>◌, guard}
use whimbrel.Prelude.Text.{Text, codes}
use whimbrel.Prelude.Int.{ℤ, pos, ltb_ℤ, ◌-ℤ◌, ◌+ℤ◌}
use whimbrel.Pcap.Tshark.{
  Proc, PcapError, missing_pcap, no_guest_tx, no_syn, no_syn_after_tx, off_grid, value_error, Row,
  field, tshark_table,
}
use whimbrel.Pcap.Extract.{guest_tx_filter, first_match}

abbrev pub syn_in_filter : Text
syn_in_filter =
    codes "tcp && ip.dst == 10.0.2.15 && tcp.dstport == 80 && "
    ++ codes "tcp.flags.syn == 1 && tcp.flags.ack == 0"

abbrev pub syn_grid_limit : ℤ
syn_grid_limit = pos 1_000_000_000

-- The SYNs into the guest, of which there has to be one.
abbrev pub some_syns : List Row → Result PcapError (List Row)
some_syns [] = err no_syn
some_syns (r ∷ rows) = ok (r ∷ rows)

-- `_time_s(r) + 1e-12 >= t_tx`
abbrev pub not_before : ℤ → ℤ → Bool
not_before t_tx t = not (ltb_ℤ (t +ℤ pos 1) t_tx)

module _ (float_ps : Text → Option ℤ) where
  unfoldable pub time_s : Row → Result PcapError ℤ
  time_s row = do
    s ← field (codes "frame.time_relative") row
    elim (float_ps s) [ none ↦ err (value_error s) | some t ↦ ok t ]

  -- The SYNs at or after `t_tx`, with their times.
  unfoldable pub flushed : ℤ → List Row → Result PcapError (List (Row × ℤ))
  flushed t_tx [] = ok []
  flushed t_tx (r ∷ rows) = do
    t ← time_s r
    rest ← flushed t_tx rows
    ok (if not_before t_tx t then (r, t) ∷ rest else rest)

unfoldable pub on_grid : ℤ → ℤ → List (Row × ℤ) → Result PcapError ℤ
on_grid limit t_tx [] = err no_syn_after_tx
on_grid limit t_tx ((r, t_syn) ∷ rest) = do
  let dt = t_syn -ℤ t_tx
  guard (not (ltb_ℤ dt (pos 0)) && ltb_ℤ dt limit) (off_grid dt)
  ok dt

module _ (tshark : Text → List Text → Proc) (float_ps : Text → Option ℤ) where
  -- The guest's first frame and the SYNs.
  unfoldable pub grid_frames : Bool → Result PcapError (Row × List Row)
  grid_frames present = do
    guard present missing_pcap
    tx ← first_match tshark float_ps guest_tx_filter [] no_guest_tx
    rows ← tshark_table tshark syn_in_filter []
    syn_rows ← some_syns rows
    ok (tx, syn_rows)

  unfoldable pub grid_after : ℤ → Row → List Row → Result PcapError ℤ
  grid_after limit tx syn_rows = do
    t_tx ← time_s float_ps tx
    late ← flushed float_ps t_tx syn_rows
    on_grid limit t_tx late

  unfoldable pub assert_syn_grid : Bool → ℤ → Result PcapError ℤ
  assert_syn_grid present limit = do
    (tx, syn_rows) ← grid_frames present
    grid_after limit tx syn_rows
