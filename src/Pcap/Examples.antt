-- ===== src/Pcap/Examples.antt =====
-- A capture whose tables are given, and the theorems on it.
use whimbrel.Prelude.{◌≡◌, refl, ◌≢◌, ◌↔◌}
use whimbrel.Prelude.{true, some}
use whimbrel.Prelude.{List, [], ◌∷◌}
use whimbrel.Prelude.{ok, err}
use whimbrel.Prelude.Text.{
  codes, text_eq, strip, lstrip, splitlines, split_on, is_digit, is_space, decimal, contains,
  decimal_text,
}
use whimbrel.Prelude.Dict.{lookup}
use whimbrel.Prelude.Int.{pos, negsuc, ltb_ℤ, ◌-ℤ◌, ◌+ℤ◌}
use whimbrel.Pcap.Tshark.{Proc, PcapError, Row, field, int_of, tshark_table, time_ns, table_fields}
use whimbrel.Pcap.Tshark
use whimbrel.Pcap.Extract
use whimbrel.Pcap.Extract.{
  Extract, extract_pcap, arp_filter, synack_filter, http_filter, ack_filter, fin_filter,
  guest_tx_filter, guest_arp_req_filter, assert_no_rst,
}
use whimbrel.Pcap.Grid.{syn_in_filter, syn_grid_limit, assert_syn_grid}
use whimbrel.Pcap.Grid
use whimbrel.Pcap.Capture.{tshark, whole}
use whimbrel.Pcap.Order.{IsExchange, extract_pcap-IsExchange}
use whimbrel.Pcap.Anchor.{IsAnchored, assert_syn_grid-IsAnchored}
use whimbrel.Bench.Intervals.{
  require_pcap_intervals, require_pcap_intervals_iff, require_pcap_intervals-forward, http_len_pin,
  whimbrel_dfin_fail_ns,
}
use whimbrel.Bench.Failure.{negative_interval}

program : Unit {0}
unfolding text_eq lookup strip lstrip splitlines split_on is_digit is_space decimal contains
    decimal_text Tshark.row_of Tshark.table_rows int_of tshark_table time_ns Extract.first_match
    Extract.find_frames Extract.read_stamps Extract.find_ends Extract.intervals extract_pcap
    assert_no_rst Grid.time_s Grid.flushed Grid.on_grid Grid.grid_frames Grid.grid_after
    assert_syn_grid require_pcap_intervals ◌-ℤ◌ ◌+ℤ◌
program = tt

abbrev expected : Extract
expected = record {
  w_ns = pos 250;
  d_ack_ns = pos 50;
  d_fin_ns = pos 90;
  synack_to_http_ns = pos 550;
  http_len = 92;
  guest_ftx_ns = some (negsuc 49);
  guest_arp_req_n = 1;
}

extracted : extract_pcap tshark whole true ≡ ok expected
unfolding program
extracted = refl

grid : assert_syn_grid tshark whole true syn_grid_limit ≡ ok (pos 250)
unfolding program
grid = refl

extract_pcap-IsExchange_example : IsExchange tshark whole expected
extract_pcap-IsExchange_example = extract_pcap-IsExchange tshark whole true expected extracted

assert_syn_grid-IsAnchored_example : IsAnchored tshark whole syn_grid_limit (pos 250)
assert_syn_grid-IsAnchored_example =
    assert_syn_grid-IsAnchored tshark whole true syn_grid_limit (pos 250) grid

require_pcap_intervals-forward_example :
    require_pcap_intervals tshark whole true (codes "whimbrel")
    ≢ err (negative_interval (codes "w_ns"))
require_pcap_intervals-forward_example =
    require_pcap_intervals-forward tshark whole true (codes "whimbrel") (codes "w_ns")

require_pcap_intervals_iff_example :
    (require_pcap_intervals tshark whole true (codes "whimbrel") ≡ ok expected) ↔ (
      (extract_pcap tshark whole true ≡ ok expected)
      × (92 ≡ http_len_pin)
      × (text_eq (codes "whimbrel") (codes "whimbrel") ≡ true
          → ltb_ℤ (pos 90) (pos whimbrel_dfin_fail_ns) ≡ true)
      × (assert_no_rst true tshark ≡ ok tt))
require_pcap_intervals_iff_example =
    require_pcap_intervals_iff tshark whole true (codes "whimbrel") expected

abbrev two_rows : List Row
two_rows =
    ((codes "frame.time_relative", codes "350") ∷ (codes "frame.number", codes "9") ∷ [])
    ∷ ((codes "frame.time_relative", codes "500") ∷ (codes "frame.number", codes "11") ∷ [])
    ∷ []

rows_listed : tshark_table tshark synack_filter [] ≡ ok two_rows
unfolding program
rows_listed = refl
