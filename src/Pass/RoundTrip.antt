-- ===== src/Pass/RoundTrip.antt =====
-- What `_write_pcap` has written is read back whole.
use whimbrel.Prelude.{ℕ, zero, suc, ◌+◌, ◌*◌, ◌/◌, ◌%◌, ◌≤◌, ◌<◌}
use whimbrel.Prelude.{◌≡◌, refl, sym, ap, ◌∙◌, inl, inr}
use whimbrel.Prelude.{some, arith}
use whimbrel.Prelude.{List, [], ◌∷◌, ◌++◌}
use whimbrel.Prelude.{Option-cases}
use whimbrel.Prelude.{length, take, drop}
use whimbrel.Prelude.{length-append}
use whimbrel.Pass.Frames.{Bytes}
use whimbrel.Pass.PcapFile.{Frame, pack4, file_header, frame_record, frame_records, write_pcap}
use whimbrel.Pass.PcapFormat.{unpack2, unpack4, read_record, read_records, CaptureFile, read_pcap}

take-length : {A : Type 0} (xs ys : List A) → take (length xs) (xs ++ ys) ≡ xs
take-length [] ys = refl
take-length (x ∷ xs) ys = ap (λ t. x ∷ t) (take-length xs ys)

drop-length : {A : Type 0} (xs ys : List A) → drop (length xs) (xs ++ ys) ≡ ys
drop-length [] ys = refl
drop-length (x ∷ xs) ys = drop-length xs ys

unpack4-pack4 : (n : ℕ) (rest : Bytes) → n < 4294967296 → unpack4 (pack4 n ++ rest) ≡ some (n, rest)
unfolding unpack4
unpack4-pack4 n rest h = ap (λ m. some (m, rest)) (omega arith)

read_record-fields :
    (sec usec n : ℕ) (u : Bytes)
    → sec < 4294967296
    → usec < 1_000_000
    → n < 4294967296
    → n ≤ length u
    → read_record (pack4 sec ++ (pack4 usec ++ (pack4 n ++ (pack4 n ++ u))))
      ≡ some ((take n u, sec * 1_000_000 + usec), drop n u)
unfolding read_record
read_record-fields sec usec n u a b c there =
    rw
      (
        unpack4-pack4 sec (pack4 usec ++ (pack4 n ++ (pack4 n ++ u))) a,
        unpack4-pack4 usec (pack4 n ++ (pack4 n ++ u)) (omega (arith, b)),
        unpack4-pack4 n (pack4 n ++ u) c,
        unpack4-pack4 n u c,
      )
      (ground arith)

read_record-frame_record :
    (f : Frame) (bytes rest : Bytes)
    → frame_record f ≡ some bytes
    → read_record (bytes ++ rest) ≡ some (f, rest)
unfolding frame_record
read_record-frame_record (frame, usec) bytes rest h =
    let sec = usec / 1_000_000 in
    let us = usec % 1_000_000 in
    let n = length frame in
    let same : pack4 sec ++ (pack4 us ++ (pack4 n ++ (pack4 n ++ frame))) ≡ bytes = ground arith in
    let read =
      read_record-fields sec us n (frame ++ rest) (ground arith) (omega arith) (ground arith)
        (omega (arith, length-append frame rest)) in
    rw (sym same) (
      rw (take-length frame rest, drop-length frame rest) at read
      ∙ ap (λ t. some ((frame, t), rest)) (omega arith))

frame_record-full : (f : Frame) (bytes : Bytes) → frame_record f ≡ some bytes → 16 ≤ length bytes
unfolding frame_record
frame_record-full (frame, usec) bytes h = ground arith

read_records-nil : (fuel : ℕ) → read_records fuel [] ≡ some []
unfolding read_records
read_records-nil zero = refl
read_records-nil (suc fuel) = refl

read_records-step :
    (fuel : ℕ) (bytes rest : Bytes) (f : Frame) (frames : List Frame)
    → 0 < length bytes
    → read_record bytes ≡ some (f, rest)
    → read_records fuel rest ≡ some frames
    → read_records (suc fuel) bytes ≡ some (f ∷ frames)
unfolding read_records
read_records-step fuel [] rest f frames full first others = absurd (omega arith)
read_records-step fuel (b ∷ bytes) rest f frames full first others = rw (first, others) refl

frame_records-parts :
    (f : Frame) (frames : List Frame) (bytes : Bytes)
    → frame_records (f ∷ frames) ≡ some bytes
    → (r : Bytes) × (more : Bytes) × (frame_record f ≡ some r)
      × (frame_records frames ≡ some more)
      × (r ++ more ≡ bytes)
unfolding frame_records
frame_records-parts f frames bytes h = elim (Option-cases (frame_record f)) [
  | inl e ↦ absurd (ground arith)
  | inr (r, e) ↦ elim (Option-cases (frame_records frames)) [
    | inl e' ↦ absurd (ground arith)
    | inr (more, e') ↦ (r, more, e, e', ground arith)
  ]
]

read_records-frame_records :
    (frames : List Frame) (bytes : Bytes) (fuel : ℕ)
    → frame_records frames ≡ some bytes
    → length bytes ≤ fuel
    → read_records fuel bytes ≡ some frames
unfolding frame_records
read_records-frame_records [] bytes fuel h enough =
    let none_left : bytes ≡ [] = ground arith in rw none_left (read_records-nil fuel)
read_records-frame_records (f ∷ frames) bytes zero h enough =
    let (r, more, e, e', same) = frame_records-parts f frames bytes h in
    absurd (omega (arith, frame_record-full f r e, ap (length) same, length-append r more, enough))
read_records-frame_records (f ∷ frames) bytes (suc fuel) h enough =
    let (r, more, e, e', same) = frame_records-parts f frames bytes h in
    let long = frame_record-full f r e in
    let measured = ap (length) same in
    read_records-step fuel bytes more f frames (omega (arith, long, measured, length-append r more))
      (rw (sym same) (read_record-frame_record f r more e))
      (read_records-frame_records frames more fuel e'
        (omega (arith, long, measured, length-append r more, enough)))

-- What `_write_pcap` writes of these frames.
abbrev pub ethernet : List Frame → CaptureFile
ethernet frames = record {
  major = 2;
  minor = 4;
  zone = 0;
  sigfigs = 0;
  snaplen = 65535;
  network = 1;
  frames = frames;
}

-- What `_write_pcap` has written is, for a reader of the format that knows nothing of the writer, a file
-- of version 2.4 and of Ethernet frames, cut at 65535 bytes, with these frames and their times.
pub read_pcap-write_pcap :
    (frames : List Frame) (bytes : Bytes)
    → write_pcap frames ≡ some bytes
    → read_pcap bytes ≡ some (ethernet frames)
unfolding write_pcap read_pcap file_header unpack2 unpack4
read_pcap-write_pcap frames bytes h = elim (Option-cases (frame_records frames)) [
  | inl e ↦ absurd (ground arith)
  | inr (body, e) ↦
      let same : file_header ++ body ≡ bytes = ground arith in
      rw (sym same) (rw (read_records-frame_records frames body (length body) e (omega arith)) refl)
]
