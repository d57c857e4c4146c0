-- ===== src/Pass/Frames.antt =====
-- The frames of the self-test of scripts/d0070-pcap-pass.py, with their checksums. A byte is a number.
use whimbrel.Prelude.{ℕ, zero, suc, ◌+◌, ◌-◌, ◌*◌, ◌/◌, ◌%◌}
use whimbrel.Prelude.{Bool, ◌&&◌, Option, none, some}
use whimbrel.Prelude.{List, [], ◌∷◌, ◌++◌}
use whimbrel.Prelude.{ltb, ◌==◌, if◌then◌else◌}
use whimbrel.Prelude.{length}
use whimbrel.Prelude.Options.{◌>>=◌, ◌>>◌, guard}

abbrev pub Bytes : Type 0
Bytes = List ℕ

-- The sum of the words of two bytes, the last one filled up by a zero.
unfoldable pub word_sum : Bytes → ℕ
word_sum [] = 0
word_sum (a ∷ []) = a * 256
word_sum (a ∷ b ∷ rest) = let more = word_sum rest in (a * 256 + b) + more

-- `while s >> 16: s = (s & 0xFFFF) + (s >> 16)`, for at most `fuel` rounds.
unfoldable pub fold : ℕ → ℕ → Option ℕ
fold zero s = none
fold (suc fuel) s =
    let again = fold fuel (s % 65536 + s / 65536) in if s / 65536 == 0 then some s else again

-- `~s & 0xFFFF` of a sum that is folded.
abbrev pub complement : ℕ → ℕ
complement s = 65535 - s

unfoldable pub inet_checksum : Bytes → Option ℕ
inet_checksum bytes = do s ← fold (suc (word_sum bytes)) (word_sum bytes); some (complement s)

-- An IPv4 address.
pub record Ip : Type 0 where
  pub a : ℕ
  pub b : ℕ
  pub c : ℕ
  pub d : ℕ

abbrev pub ip_bytes : Ip → Bytes
ip_bytes ip = ip.a ∷ ip.b ∷ ip.c ∷ ip.d ∷ []

abbrev pub high : ℕ → ℕ
high n = n / 256 % 256

abbrev pub low : ℕ → ℕ
low n = n % 256

-- The header with a checksum.
unfoldable pub ipv4_with : ℕ → ℕ → ℕ → Ip → Ip → Bytes
ipv4_with c total proto src dst =
    0x45
    ∷ 0
    ∷ high total
    ∷ low total
    ∷ 0
    ∷ 0
    ∷ 0x40
    ∷ 0
    ∷ 64
    ∷ proto
    ∷ high c
    ∷ low c
    ∷ src.a
    ∷ src.b
    ∷ src.c
    ∷ src.d
    ∷ dst.a
    ∷ dst.b
    ∷ dst.c
    ∷ dst.d
    ∷ []

-- `none` where a value does not fit into its bytes.
unfoldable pub ipv4_hdr : ℕ → ℕ → Ip → Ip → Option Bytes
ipv4_hdr total proto src dst = do
  guard (ltb total 65536 && ltb proto 256)
  c ← inet_checksum (ipv4_with 0 total proto src dst)
  some (ipv4_with c total proto src dst)

-- The arguments of `tcp_hdr` but for the addresses and the payload.
pub record Segment : Type 0 where
  pub sport : ℕ
  pub dport : ℕ
  pub seq : ℕ
  pub ack : ℕ
  pub flags : ℕ

abbrev pub word4 : ℕ → Bytes
word4 n = n / 16777216 % 256 ∷ n / 65536 % 256 ∷ high n ∷ low n ∷ []

unfoldable pub tcp_with : ℕ → Segment → Bytes → Bytes
tcp_with c s payload =
    high s.sport
    ∷ low s.sport
    ∷ high s.dport
    ∷ low s.dport
    ∷ (word4 s.seq
        ++ word4 s.ack
        ++ (0x50 ∷ s.flags ∷ high 8192 ∷ low 8192 ∷ high c ∷ low c ∷ 0 ∷ 0 ∷ payload))

unfoldable pub pseudo : ℕ → Ip → Ip → Bytes
pseudo tot src dst = ip_bytes src ++ ip_bytes dst ++ (0 ∷ 6 ∷ high tot ∷ low tot ∷ [])

abbrev fits : Segment → Bytes → Bool
fits s payload =
    ltb s.sport 65536
    && ltb s.dport 65536
    && ltb s.seq 4294967296
    && ltb s.ack 4294967296
    && ltb s.flags 256
    && ltb (20 + length payload) 65536

unfoldable pub tcp_hdr : Segment → Ip → Ip → Bytes → Option Bytes
tcp_hdr s src dst payload = do
  guard (fits s payload)
  c ← inet_checksum (pseudo (20 + length payload) src dst ++ tcp_with 0 s payload)
  some (tcp_with c s payload)

abbrev pub zeros : ℕ → Bytes
zeros zero = []
zeros (suc n) = 0 ∷ zeros n

-- `if len(frame) < 60: frame += bytes(60 - len(frame))`
abbrev pub pad : Bytes → Bytes
pad frame = frame ++ zeros (60 - length frame)

unfoldable pub tcp_frame : Bytes → Bytes → Ip → Ip → Bytes → Option Bytes
tcp_frame eth_dst eth_src ip_src ip_dst tcp = do
  ip ← ipv4_hdr (20 + length tcp) 6 ip_src ip_dst
  some (pad (eth_dst ++ eth_src ++ (0x08 ∷ 0x00 ∷ []) ++ ip ++ tcp))
