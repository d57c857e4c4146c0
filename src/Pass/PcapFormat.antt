-- ===== src/Pass/PcapFormat.antt =====
-- The file format of libpcap, with microseconds and the bytes of a number from the lowest on, by a reader
-- of it. It is what the bytes of `_write_pcap` of scripts/d0070-pcap-pass.py are held against, and has no
-- part of the writer.
use whimbrel.Prelude.{ℕ, zero, suc, ◌+◌, ◌*◌}
use whimbrel.Prelude.{◌&&◌, Option, none, some}
use whimbrel.Prelude.{List, [], ◌∷◌}
use whimbrel.Prelude.{ltb, leb, ◌==◌}
use whimbrel.Prelude.{length, take, drop}
use whimbrel.Prelude.Options.{◌>>=◌, ◌>>◌, guard}
use whimbrel.Pass.Frames.{Bytes}

-- The next two bytes, and what is behind them.
unfoldable pub unpack2 : Bytes → Option (ℕ × Bytes)
unpack2 (a ∷ b ∷ rest) = some (a + 256 * b, rest)
unpack2 bytes = none

-- The next four bytes, and what is behind them.
unfoldable pub unpack4 : Bytes → Option (ℕ × Bytes)
unpack4 (a ∷ b ∷ c ∷ d ∷ rest) = some (a + 256 * b + 65536 * c + 16777216 * d, rest)
unpack4 bytes = none

unfoldable pub read_record : Bytes → Option ((Bytes × ℕ) × Bytes)
read_record bytes = do
  (sec, r) ← unpack4 bytes
  (usec, s) ← unpack4 r
  (incl, t) ← unpack4 s
  (orig, u) ← unpack4 t
  guard (ltb usec 1_000_000 && leb incl orig && leb incl (length u))
  some ((take incl u, sec * 1_000_000 + usec), drop incl u)

-- The records, `fuel` at most.
unfoldable pub read_records : ℕ → Bytes → Option (List (Bytes × ℕ))
read_records fuel [] = some []
read_records zero (b ∷ bytes) = none
read_records (suc fuel) (b ∷ bytes) = do
  (f, rest) ← read_record (b ∷ bytes)
  frames ← read_records fuel rest
  some (f ∷ frames)

-- The fields of the file's header, and the frames with their times in microseconds.
pub record CaptureFile : Type 0 where
  pub major : ℕ
  pub minor : ℕ
  pub zone : ℕ
  pub sigfigs : ℕ
  pub snaplen : ℕ
  pub network : ℕ
  pub frames : List (Bytes × ℕ)

unfoldable pub read_pcap : Bytes → Option CaptureFile
read_pcap bytes = do
  (magic, a) ← unpack4 bytes
  guard (magic == 0xA1B2C3D4)
  (major, b) ← unpack2 a
  (minor, c) ← unpack2 b
  (zone, d) ← unpack4 c
  (sigfigs, e) ← unpack4 d
  (snaplen, f) ← unpack4 e
  (network, g) ← unpack4 f
  frames ← read_records (length g) g
  some (record {
    major = major;
    minor = minor;
    zone = zone;
    sigfigs = sigfigs;
    snaplen = snaplen;
    network = network;
    frames = frames;
  })
