-- ===== src/Pass/PcapFile.antt =====
-- `_write_pcap` of scripts/d0070-pcap-pass.py.
use whimbrel.Prelude.{ℕ, ◌/◌, ◌%◌}
use whimbrel.Prelude.{◌&&◌, Option, some}
use whimbrel.Prelude.{List, [], ◌∷◌, ◌++◌}
use whimbrel.Prelude.{ltb}
use whimbrel.Prelude.{length}
use whimbrel.Prelude.Options.{◌>>=◌, ◌>>◌, guard}
use whimbrel.Pass.Frames.{Bytes}

-- `struct.pack("<H", n)`
abbrev pub pack2 : ℕ → Bytes
pack2 n = n % 256 ∷ n / 256 % 256 ∷ []

-- `struct.pack("<I", n)`
abbrev pub pack4 : ℕ → Bytes
pack4 n = n % 256 ∷ n / 256 % 256 ∷ n / 65536 % 256 ∷ n / 16777216 % 256 ∷ []

unfoldable pub file_header : Bytes
file_header = pack4 0xA1B2C3D4 ++ pack2 2 ++ pack2 4 ++ pack4 0 ++ pack4 0 ++ pack4 65535 ++ pack4 1

-- A frame and its time in microseconds.
abbrev pub Frame : Type 0
Frame = Bytes × ℕ

-- `none` where a number does not fit into its four bytes.
unfoldable pub frame_record : Frame → Option Bytes
frame_record (frame, usec) = do
  guard (ltb (usec / 1_000_000) 4294967296 && ltb (length frame) 4294967296)
  some (
      pack4 (usec / 1_000_000)
      ++ (pack4 (usec % 1_000_000) ++ (pack4 (length frame) ++ (pack4 (length frame) ++ frame))))

unfoldable pub frame_records : List Frame → Option Bytes
frame_records [] = some []
frame_records (f ∷ frames) = do r ← frame_record f; rest ← frame_records frames; some (r ++ rest)

unfoldable pub write_pcap : List Frame → Option Bytes
write_pcap frames = do body ← frame_records frames; some (file_header ++ body)
