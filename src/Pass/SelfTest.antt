-- ===== src/Pass/SelfTest.antt =====
-- `_selftest_frames` of scripts/d0070-pcap-pass.py.
use whimbrel.Prelude.{ℕ}
use whimbrel.Prelude.{Option, some}
use whimbrel.Prelude.{List, [], ◌∷◌, ◌++◌}
use whimbrel.Prelude.{◌==◌}
use whimbrel.Prelude.{length}
use whimbrel.Prelude.Options.{◌>>=◌, ◌>>◌, guard}
use whimbrel.Prelude.Text.{codes}
use whimbrel.Pass.Frames.{Bytes, Ip, ip_bytes, Segment, tcp_hdr, zeros, pad, tcp_frame}
use whimbrel.Pass.PcapFile.{Frame}

abbrev slirp_mac : Bytes
slirp_mac = 0x52 ∷ 0x55 ∷ 0x0a ∷ 0x00 ∷ 0x02 ∷ 0x02 ∷ []

abbrev guest_mac : Bytes
guest_mac = 0x52 ∷ 0x54 ∷ 0x00 ∷ 0x12 ∷ 0x34 ∷ 0x56 ∷ []

abbrev bcast : Bytes
bcast = 0xff ∷ 0xff ∷ 0xff ∷ 0xff ∷ 0xff ∷ 0xff ∷ []

abbrev ip_guest : Ip
ip_guest = record { a = 0x0a; b = 0x00; c = 0x02; d = 0x0f }

abbrev ip_gw : Ip
ip_gw = record { a = 0x0a; b = 0x00; c = 0x02; d = 0x02 }

-- An ARP request.
abbrev request : Bytes → Ip → Ip → Bytes
request mac from target = pad (
    bcast
    ++ mac
    ++ (0x08 ∷ 0x06 ∷ [])
    ++ (0x00 ∷ 0x01 ∷ 0x08 ∷ 0x00 ∷ 0x06 ∷ 0x04 ∷ 0x00 ∷ 0x01 ∷ [])
    ++ mac
    ++ ip_bytes from
    ++ zeros 6
    ++ ip_bytes target)

abbrev http_body : Bytes
http_body =
    codes "HTTP/1.0 200 OK\r\n"
    ++ codes "Content-Type: text/plain\r\n"
    ++ codes "Connection: close\r\n"
    ++ codes "Content-Length: 9\r\n"
    ++ codes "\r\n"
    ++ codes "whimbrel\n"

abbrev segment : ℕ → ℕ → ℕ → ℕ → ℕ → Segment
segment sport dport seq ack flags = record {
  sport = sport;
  dport = dport;
  seq = seq;
  ack = ack;
  flags = flags;
}

-- A frame of the guest to the gateway, and one of the gateway to the guest.
abbrev guest_frame : Segment → Bytes → Option Bytes
guest_frame s payload = do
  tcp ← tcp_hdr s ip_guest ip_gw payload
  tcp_frame slirp_mac guest_mac ip_guest ip_gw tcp

abbrev client_frame : Segment → Option Bytes
client_frame s = do
  tcp ← tcp_hdr s ip_gw ip_guest []
  tcp_frame guest_mac slirp_mac ip_gw ip_guest tcp

-- The flags: SYN is 0x02, ACK 0x10, FIN 0x01, PSH 0x08.
unfoldable pub selftest_frames : Option (List Frame)
selftest_frames = do
  synack ← guest_frame (segment 80 12345 2000 1001 0x12) []
  guard (length http_body == 92)
  http ← guest_frame (segment 80 12345 2001 1001 0x19) http_body
  pure_ack ← client_frame (segment 12345 80 1001 2094 0x10)
  client_fin ← client_frame (segment 12345 80 1001 2094 0x11)
  some (
      (request slirp_mac ip_gw ip_guest, 0)
      ∷ (request guest_mac ip_guest ip_gw, 20_000)
      ∷ (synack, 30_000)
      ∷ (http, 31_000)
      ∷ (pure_ack, 31_036)
      ∷ (client_fin, 31_212)
      ∷ [])
