-- ===== src/Pass/FrameExamples.antt =====
-- The self-test capture.
use whimbrel.Prelude.{ℕ}
use whimbrel.Prelude.{◌≡◌, refl}
use whimbrel.Prelude.{Option, none, some}
use whimbrel.Prelude.{List, [], ◌∷◌, ◌++◌, map}
use whimbrel.Prelude.{length}
use whimbrel.Prelude.Options.{◌>>=◌}
use whimbrel.Pass.Frames.{
  Bytes, word_sum, fold, inet_checksum, Ip, ipv4_with, ipv4_hdr, Segment, tcp_with, pseudo, tcp_hdr,
  tcp_frame,
}
use whimbrel.Pass.Checksum.{ipv4_hdr-verifies, tcp_hdr-verifies}
use whimbrel.Pass.PcapFile.{Frame, file_header, frame_record, frame_records, write_pcap}
use whimbrel.Pass.PcapFormat.{read_pcap}
use whimbrel.Pass.RoundTrip.{ethernet, read_pcap-write_pcap}
use whimbrel.Pass.SelfTest.{selftest_frames}

program : Unit {0}
unfolding word_sum fold inet_checksum ipv4_with ipv4_hdr tcp_with pseudo tcp_hdr tcp_frame
    file_header frame_record frame_records write_pcap selftest_frames
program = tt

abbrev frame_lengths : Option (List ℕ)
frame_lengths = do frames ← selftest_frames; some (map (λ (f : Frame). length f.0) frames)

abbrev gateway : Ip
gateway = record { a = 10; b = 0; c = 2; d = 2 }

abbrev guest : Ip
guest = record { a = 10; b = 0; c = 2; d = 15 }

abbrev fin : Segment
fin = record { sport = 12345; dport = 80; seq = 1001; ack = 2094; flags = 0x11 }

lengths : frame_lengths ≡ some (60 ∷ 60 ∷ 60 ∷ 146 ∷ 60 ∷ 60 ∷ [])
unfolding program
lengths = refl

checksum : inet_checksum (ipv4_with 0 40 6 gateway guest) ≡ some 0x22c0
unfolding program
checksum = refl

abbrev header : Bytes
header = ipv4_with 0x22c0 40 6 gateway guest

header_built : ipv4_hdr 40 6 gateway guest ≡ some header
unfolding program
header_built = refl

ipv4_hdr-verifies_example : inet_checksum header ≡ some 0
ipv4_hdr-verifies_example = ipv4_hdr-verifies 40 6 gateway guest header header_built

segment_built : tcp_hdr fin gateway guest [] ≡ some (tcp_with 0x3b23 fin [])
unfolding program
segment_built = refl

tcp_hdr-verifies_example :
    inet_checksum (pseudo 20 gateway guest ++ tcp_with 0x3b23 fin []) ≡ some 0
tcp_hdr-verifies_example =
    tcp_hdr-verifies fin gateway guest [] (tcp_with 0x3b23 fin []) segment_built

abbrev frames : List Frame
frames = (header, 31_036) ∷ (1 ∷ 2 ∷ 3 ∷ [], 2_031_212) ∷ []

abbrev or_empty : Option Bytes → Bytes
or_empty none = []
or_empty (some bytes) = bytes

written : write_pcap frames ≡ some (or_empty (write_pcap frames))
unfolding program
written = refl

read_pcap-write_pcap_example : read_pcap (or_empty (write_pcap frames)) ≡ some (ethernet frames)
read_pcap-write_pcap_example = read_pcap-write_pcap frames (or_empty (write_pcap frames)) written
