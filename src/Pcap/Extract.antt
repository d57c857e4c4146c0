-- ===== src/Pcap/Extract.antt =====
-- `extract_pcap` and `assert_no_rst` of scripts/pcap_http.py.
use whimbrel.Prelude.{ℕ}
use whimbrel.Prelude.{Bool, ◌&&◌, not, Option, none, some}
use whimbrel.Prelude.{List, [], ◌∷◌, ◌++◌}
use whimbrel.Prelude.{ltb}
use whimbrel.Prelude.{length, all}
use whimbrel.Prelude.{Result, ok, err, ◌>>=◌, ◌>>◌, guard}
use whimbrel.Prelude.Text.{Text, codes, strip, is_digit, decimal, decimal_text}
use whimbrel.Prelude.Int.{ℤ, ltb_ℤ, ◌-ℤ◌}
use whimbrel.Pcap.Tshark.{
  Proc, PcapError, missing_pcap, no_arp, no_synack, no_http, synack_before_arp, http_before_synack,
  bad_nxtseq, no_ack, no_fin, ack_before_http, fin_before_http, rst_present, Row, field, int_of,
  tshark_table, time_ns,
}

abbrev pub arp_filter : Text
arp_filter =
    codes "arp.opcode==1 && arp.src.proto_ipv4==10.0.2.2 && "
    ++ codes "arp.dst.proto_ipv4==10.0.2.15"

abbrev pub synack_filter : Text
synack_filter = codes "tcp.srcport==80 && tcp.flags==0x012"

abbrev pub http_filter : Text
http_filter =
    codes "tcp && ip.src == 10.0.2.15 && tcp.srcport == 80 && tcp.len > 0 && "
    ++ codes "tcp.flags.syn == 0 && frame contains \"HTTP/1.0 200 OK\""

abbrev pub rst_filter : Text
rst_filter = codes "tcp.flags.reset == 1"

abbrev slirp_mac : Text
slirp_mac = codes "52:55:0a:00:02:02"

abbrev pub guest_tx_filter : Text
guest_tx_filter = codes "(arp || ip) && eth.src != " ++ slirp_mac

abbrev pub guest_arp_req_filter : Text
guest_arp_req_filter = codes "arp.opcode==1 && eth.src != " ++ slirp_mac

abbrev pub ack_filter : ℕ → ℕ → Text
ack_filter nxt fn_http =
    codes "tcp && ip.src == 10.0.2.2 && ip.dst == 10.0.2.15 && "
    ++ codes "tcp.dstport == 80 && tcp.flags.syn == 0 && tcp.flags.fin == 0 && "
    ++ codes "tcp.flags.reset == 0 && tcp.flags.ack == 1 && tcp.len == 0 && "
    ++ codes "tcp.ack == "
    ++ decimal_text nxt
    ++ codes " && frame.number > "
    ++ decimal_text fn_http

abbrev pub fin_filter : ℕ → Text
fin_filter fn_http =
    codes "tcp && ip.dst == 10.0.2.15 && tcp.dstport == 80 && "
    ++ codes "tcp.flags.fin == 1 && frame.number > "
    ++ decimal_text fn_http

pub record Extract : Type 0 where
  pub w_ns : ℤ
  pub d_ack_ns : ℤ
  pub d_fin_ns : ℤ
  pub synack_to_http_ns : ℤ
  pub http_len : ℕ
  pub guest_ftx_ns : Option ℤ
  pub guest_arp_req_n : ℕ

-- The three frames that the intervals start from.
pub record Frames : Type 0 where
  pub arp : Row
  pub syn : Row
  pub http : Row

pub record Stamps : Type 0 where
  pub t_arp : ℤ
  pub t_syn : ℤ
  pub t_http : ℤ
  pub fn_http : ℕ
  pub nxt : Text

pub record Ends : Type 0 where
  pub ack : Row
  pub fin : Row
  pub t_ack : ℤ
  pub t_fin : ℤ

-- `rows[0]`, after the test that there is one.
abbrev first_of : PcapError → List Row → Result PcapError Row
first_of e [] = err e
first_of e (r ∷ rows) = ok r

-- `nxt.isdigit()`
abbrev pub is_number : Text → Bool
is_number s = ltb 0 (length s) && all is_digit s

module _ (tshark : Text → List Text → Proc) (float_ns : Text → Option ℤ) where
  -- The first row of a table, or the error of an empty one.
  unfoldable pub first_match : Text → List Text → PcapError → Result PcapError Row
  first_match display_filter extra none_found = do
    rows ← tshark_table tshark display_filter extra
    first_of none_found rows

  unfoldable pub find_frames : Bool → Result PcapError Frames
  find_frames present = do
    guard present missing_pcap
    arp ← first_match arp_filter [] no_arp
    syn ← first_match synack_filter [] no_synack
    http ←
        first_match http_filter (codes "tcp.nxtseq" ∷ codes "tcp.len" ∷ codes "tcp.flags.fin" ∷ [])
          no_http
    ok (record { arp = arp; syn = syn; http = http })

  unfoldable pub read_stamps : Frames → Result PcapError Stamps
  read_stamps f = do
    t_arp ← time_ns float_ns f.arp
    t_syn ← time_ns float_ns f.syn
    t_http ← time_ns float_ns f.http
    number ← field (codes "frame.number") f.http
    fn_http ← int_of number
    guard (not (ltb_ℤ t_syn t_arp)) synack_before_arp
    guard (not (ltb_ℤ t_http t_syn)) http_before_synack
    nxtseq ← field (codes "tcp.nxtseq") f.http
    guard (is_number (strip nxtseq)) (bad_nxtseq (strip nxtseq))
    ok (record {
      t_arp = t_arp;
      t_syn = t_syn;
      t_http = t_http;
      fn_http = fn_http;
      nxt = strip nxtseq;
    })

  unfoldable pub find_ends : Stamps → Result PcapError Ends
  find_ends s = do
    ack ← first_match (ack_filter (decimal s.nxt) s.fn_http) (codes "tcp.ack" ∷ []) (no_ack s.nxt)
    fin ← first_match (fin_filter s.fn_http) [] no_fin
    t_ack ← time_ns float_ns ack
    t_fin ← time_ns float_ns fin
    guard (not (ltb_ℤ t_ack s.t_http)) ack_before_http
    guard (not (ltb_ℤ t_fin s.t_http)) fin_before_http
    ok (record { ack = ack; fin = fin; t_ack = t_ack; t_fin = t_fin })

  unfoldable pub guest_ftx : ℤ → List Row → Result PcapError (Option ℤ)
  unfolding ◌-ℤ◌ time_ns
  guest_ftx t_arp [] = ok none
  guest_ftx t_arp (r ∷ rows) = do t ← time_ns float_ns r; ok (some (t -ℤ t_arp))

  -- The passive columns, and the result.
  unfoldable pub intervals : Frames → Stamps → Ends → Result PcapError Extract
  unfolding guest_ftx
  intervals f s ends = do
    ftx_rows ← tshark_table tshark guest_tx_filter []
    arp_req_rows ← tshark_table tshark guest_arp_req_filter []
    len_text ← field (codes "tcp.len") f.http
    http_len ← int_of len_text
    guest_ftx_ns ← guest_ftx s.t_arp ftx_rows
    ok (record {
      w_ns = s.t_syn -ℤ s.t_arp;
      d_ack_ns = ends.t_ack -ℤ s.t_http;
      d_fin_ns = ends.t_fin -ℤ s.t_http;
      synack_to_http_ns = s.t_http -ℤ s.t_syn;
      http_len = http_len;
      guest_ftx_ns = guest_ftx_ns;
      guest_arp_req_n = length arp_req_rows;
    })

  -- `present` is the test that the file is there and not empty.
  unfoldable pub extract_pcap : Bool → Result PcapError Extract
  extract_pcap present = do
    f ← find_frames present
    s ← read_stamps f
    ends ← find_ends s
    intervals f s ends

frame_numbers : List Row → Result PcapError (List Text)
frame_numbers [] = ok []
frame_numbers (r ∷ rows) = do
  n ← field (codes "frame.number") r
  ns ← frame_numbers rows
  ok (n ∷ ns)

refuse_rst : List Row → Result PcapError (Unit {0})
unfolding frame_numbers
refuse_rst [] = ok tt
refuse_rst (r ∷ rows) = do frames ← frame_numbers (r ∷ rows); err (rst_present frames)

module _ (present : Bool) (tshark : Text → List Text → Proc) where
  unfoldable pub assert_no_rst : Result PcapError (Unit {0})
  unfolding refuse_rst
  assert_no_rst = do
    guard present missing_pcap
    rows ← tshark_table tshark rst_filter []
    refuse_rst rows
